-- ===== src/Threads/Priority.antt =====
-- thread_set_priority.
use sustech_cs.Prelude.{
  ◌≡◌, ◌≢◌, true, false, [], inl, inr, some, arith, Bool-cases, if_false, ◌∙◌, ap,
}
use sustech_cs.Prelude.Int.{ℤ, ◌≤ℤ◌, ◌<ℤ◌}
use sustech_cs.Klist.Ordered.{Descending-cong}
use sustech_cs.State.{Status, Thread, Kernel}
use sustech_cs.Threads.{set_thread, put_back, thread_set_priority, takes_effect}
use sustech_cs.Threads.Queue.{IsValid, Highest, priority_of, current_out, current_lem, Scheduled}
use sustech_cs.Threads.Switch.{thread_yield_lem}

-- A valid state stays valid if the record of the running thread is replaced by a running one.
replace_current-IsValid :
    (k : Kernel) (th : Thread)
    → IsValid k
    → th.status ≡ Status.running
    → IsValid (set_thread k.current th k)
replace_current-IsValid k th v r = record {
  queued = record {
    sorted =
        Descending-cong (priority_of k) (priority_of (set_thread k.current th k)) k.ready_list
          (λ t m. ground (arith, current_out k v)) v.queued.sorted;
    all_ready = λ t m. ground (arith, current_out k v, v.queued.all_ready t);
    once = v.queued.once;
    no_idle = v.queued.no_idle;
  };
  runs = ground arith;
  alone = λ t e. ground (arith, v.alone t);
}

-- When thread_set_priority changes the priority.
own : (th : Thread) (p : ℤ) → th.original_pri ≡ th.priority → takes_effect th p ≢ false
unfolding takes_effect
own th p e f = ground (arith, e, f)

lockless : (th : Thread) (p : ℤ) → th.holding_locks ≡ [] → takes_effect th p ≢ false
unfolding takes_effect
lockless th p e f = ground (arith, e, f)

higher : (th : Thread) (p : ℤ) → th.priority <ℤ p → takes_effect th p ≢ false
unfolding takes_effect
higher th p e f = ground (arith, e, f)

donated :
    (th : Thread) (p : ℤ)
    → th.original_pri ≢ th.priority
    → th.holding_locks ≢ []
    → p ≤ℤ th.priority
    → takes_effect th p ≢ true
unfolding takes_effect
donated th p a b c f = ground (arith, a, b, c, f)

-- thread_set_priority outside an interrupt and without the feedback queue: from a valid state in
-- which no ready thread outranks the running one it succeeds and reaches such a state, and records
-- the new priority as the own priority of the thread that called it. If its priority was its own, or
-- it holds no lock, or the new priority is higher than the one it had, it has the new one; else it
-- still has the donated one.
pub thread_set_priority_lem :
    (p : ℤ) (k : Kernel)
    → IsValid k
    → Highest k
    → k.in_interrupt ≡ false
    → k.thread_mlfqs ≡ false
    → (k' : Kernel) × (thread_set_priority p k ≡ some k')
      × IsValid k'
      × Highest k'
      × ((k'.thread k.current).original_pri ≡ p)
      × ((k.thread k.current).original_pri ≡ priority_of k k.current → priority_of k' k.current ≡ p)
      × ((k.thread k.current).holding_locks ≡ [] → priority_of k' k.current ≡ p)
      × (priority_of k k.current <ℤ p → priority_of k' k.current ≡ p)
      × ((k.thread k.current).original_pri ≢ priority_of k k.current
          → (k.thread k.current).holding_locks ≢ []
          → p ≤ℤ priority_of k k.current
          → priority_of k' k.current ≡ priority_of k k.current)
unfolding thread_set_priority put_back
thread_set_priority_lem p k v h out plain =
    let th = k.thread k.current in
    elim (Bool-cases (takes_effect th p)) [
      | inl yields ↦
          let raised = record th { original_pri = p; priority = p } in
          let w = replace_current-IsValid k raised v v.runs in
          let (k', done, s) = thread_yield_lem (set_thread k.current raised k) w out in
          (
            k',
            simp (current_lem k v, yields) (if_false _ _ plain) ∙ done,
            s.valid,
            s.highest,
            original k' s,
            λ e. raises k' s,
            λ e. raises k' s,
            λ e. raises k' s,
            λ a b c. absurd (donated th p a b c yields),
          )
      | inr stays ↦
          let kept = record th { original_pri = p } in
          (
            set_thread k.current kept k,
            simp (current_lem k v, stays) (if_false _ _ plain),
            replace_current-IsValid k kept v v.runs,
            λ t m. ground (arith, h t),
            ground arith,
            λ e. absurd (own th p e stays),
            λ e. absurd (lockless th p e stays),
            λ e. absurd (higher th p e stays),
            λ a b c. ground arith,
          )
    ]
  where
    raises :
        (k' : Kernel)
        → let th = record (k.thread k.current) { original_pri = p; priority = p } in
          Scheduled (put_back k.current (set_thread k.current th k)) k'
          → priority_of k' k.current ≡ p
    raises k' s = ap (λ (th : Thread). th.priority) (s.kept k.current) ∙ ground arith

    original :
        (k' : Kernel)
        → let th = record (k.thread k.current) { original_pri = p; priority = p } in
          Scheduled (put_back k.current (set_thread k.current th k)) k'
          → (k'.thread k.current).original_pri ≡ p
    original k' s = ap (λ (th : Thread). th.original_pri) (s.kept k.current) ∙ ground arith
