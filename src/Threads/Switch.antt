-- ===== src/Threads/Switch.antt =====
-- What the operations of the scheduler do to a valid state: thread_unblock, thread_block and
-- thread_create.
use sustech_cs.Prelude.{
  ℕ, ◌≡◌, ◌≢◌, refl, false, ◌⊎◌, inl, inr, none, some, arith, count, is_empty, if◌then◌else◌, ◌==◌,
  Bool-cases,
}
use sustech_cs.Prelude.Int.{ℤ, ltb_ℤ}
use sustech_cs.Klist.{list_insert_ordered}
use sustech_cs.Klist.Ordered.{count-insert, insert-not_empty}
use sustech_cs.State.{Status, Kernel}
use sustech_cs.Threads.{
  set_status, is_idle, put_back, thread_cmp_pri, thread_current, thread_unblock, thread_block,
  schedule, thread_yield, thread_create_run,
}
use sustech_cs.Threads.Queue.{
  IsQueued, IsValid, Highest, priority_of, status_of, enqueue-IsQueued, leave-IsQueued, current_out,
  current_lem, Scheduled, schedule_lem, stopped_lem,
}

-- What thread_yield leaves to schedule.
pub put_back-IsQueued : (k : Kernel) → IsValid k → IsQueued (put_back k.current k)
unfolding put_back
put_back-IsQueued k v = elim (Bool-cases (is_idle k k.current)) [
  | inl idle ↦ rw idle (leave-IsQueued k k.current Status.ready v.queued (current_out k v))
  | inr busy ↦ rw busy (enqueue-IsQueued k k.current v.queued (current_out k v) (λ e. ground arith))
]

put_back-stopped :
    (k : Kernel) (t : ℕ) → IsValid k → status_of (put_back k.current k) t ≢ Status.running
unfolding put_back
put_back-stopped k t v e = stopped_lem k v Status.ready (λ e. cc) k.ready_list t e

-- Either the idle thread gave up the processor, and is there to take it, or the list has an entry.
put_back-next :
    (k : Kernel)
    → (is_empty (put_back k.current k).ready_list ≡ false)
      ⊎ ((put_back k.current k).idle_thread ≢ none)
unfolding put_back
put_back-next k = elim (Bool-cases (is_idle k k.current)) [
  | inl idle ↦ inr (λ e. ground arith)
  | inr busy ↦ rw busy (inl (insert-not_empty (thread_cmp_pri k) k.current k.ready_list))
]

-- Outside an interrupt thread_yield puts the running thread back and calls the scheduler.
yield-schedule :
    (k : Kernel)
    → IsValid k
    → k.in_interrupt ≡ false
    → thread_yield k ≡ schedule (put_back k.current k)
unfolding thread_yield thread_current
yield-schedule k v out = simp (out, v.runs)

-- thread_yield outside an interrupt never fails. From a valid state it reaches a valid state in
-- which no ready thread has a higher priority than the running one; the running thread is the
-- first of the ready list after the one that yielded has been put back in its place, no other
-- thread has changed, and no priority has.
pub thread_yield_lem :
    (k : Kernel)
    → IsValid k
    → k.in_interrupt ≡ false
    → (k' : Kernel) × (thread_yield k ≡ some k') × Scheduled (put_back k.current k) k'
thread_yield_lem k v out =
    rw (yield-schedule k v out)
      (schedule_lem _ (put_back-IsQueued k v) (λ t. put_back-stopped k t v) (put_back-next k))

-- The state after thread_unblock of `t`.
abbrev pub unblocked : ℕ → Kernel → Kernel
unblocked t k =
    set_status t Status.ready
      (record k { ready_list = list_insert_ordered (thread_cmp_pri k) t k.ready_list })

pub unblock-eq :
    (t : ℕ) (k : Kernel)
    → status_of k t ≡ Status.blocked
    → thread_unblock t k ≡ some (unblocked t k)
unfolding thread_unblock
unblock-eq t k b = simp b

unblock-fails : (t : ℕ) (k : Kernel) → status_of k t ≢ Status.blocked → thread_unblock t k ≡ none
unfolding thread_unblock
unblock-fails t k n = ground arith

pub unblocked-IsValid :
    (t : ℕ) (k : Kernel)
    → IsValid k
    → status_of k t ≡ Status.blocked
    → k.idle_thread ≢ some t
    → IsValid (unblocked t k)
unblocked-IsValid t k v b busy = record {
  queued = enqueue-IsQueued k t v.queued (ground (arith, v.queued.all_ready t)) busy;
  runs = ground (arith, v.runs);
  alone = λ u e. ground (arith, v.alone u);
}

-- thread_unblock of a blocked thread, not the idle one, keeps a valid state valid, lets the running
-- thread run on, and puts the thread on the ready list, once, with all that stood there before. Of
-- a thread that is not blocked it fails.
pub thread_unblock_lem :
    (t : ℕ) (k : Kernel)
    → IsValid k
    → k.idle_thread ≢ some t
    → (status_of k t ≡ Status.blocked
        → (k' : Kernel) × (thread_unblock t k ≡ some k')
          × IsValid k'
          × (k'.current ≡ k.current)
          × ((u : ℕ) → count u k'.ready_list ≡ (if t == u then 1 else count u k.ready_list)))
      × (status_of k t ≢ Status.blocked → thread_unblock t k ≡ none)
thread_unblock_lem t k v busy = (
  λ b. (
    unblocked t k,
    unblock-eq t k b,
    unblocked-IsValid t k v b busy,
    refl,
    λ u. ground (arith, count-insert (thread_cmp_pri k) u t k.ready_list, v.queued.all_ready t),
  ),
  λ n. unblock-fails t k n,
)

block-schedule :
    (k : Kernel)
    → IsValid k
    → k.in_interrupt ≡ false
    → thread_block k ≡ schedule (set_status k.current Status.blocked k)
unfolding thread_block thread_current
block-schedule k v out = simp (out, v.runs)

-- thread_block, outside an interrupt and from a valid state with a ready thread or an idle thread,
-- succeeds: it is a switch, from the state in which the current thread is blocked, to a valid state
-- in which no ready thread has a higher priority than the running one.
pub thread_block_lem :
    (k : Kernel)
    → IsValid k
    → k.in_interrupt ≡ false
    → (is_empty k.ready_list ≡ false) ⊎ (k.idle_thread ≢ none)
    → (k' : Kernel) × (thread_block k ≡ some k')
      × Scheduled (set_status k.current Status.blocked k) k'
thread_block_lem k v out next = rw (block-schedule k v out) (
    schedule_lem _ (leave-IsQueued k k.current Status.blocked v.queued (current_out k v))
      (stopped_lem k v Status.blocked (λ e. cc) k.ready_list) next)

-- thread_create's last part, outside an interrupt and from a valid state, for a new thread that is
-- blocked, is not the idle thread and has the priority asked for: if no ready thread outranks the
-- running one before, it succeeds, none does after it, and the state is valid again.
thread_create_run_lem :
    (t : ℕ) (p : ℤ) (k : Kernel)
    → IsValid k
    → Highest k
    → k.in_interrupt ≡ false
    → k.idle_thread ≢ some t
    → status_of k t ≡ Status.blocked
    → priority_of k t ≡ p
    → (k' : Kernel) × (thread_create_run t p k ≡ some k') × IsValid k' × Highest k'
unfolding thread_create_run
thread_create_run_lem t p k v h out busy b e =
    let w = unblocked-IsValid t k v b busy in
    let un = unblock-eq t k b in
    let cur = current_lem (unblocked t k) w in
    elim (Bool-cases (ltb_ℤ (priority_of (unblocked t k) k.current) p)) [
      | inl yields ↦
          let (k', done, s) = thread_yield_lem (unblocked t k) w out in
          (k', simp (un, cur, yields) done, s.valid, s.highest)
      | inr stays ↦ (
        unblocked t k,
        simp (un, cur, stays),
        w,
        λ u m. ground (arith, h u, count-insert (thread_cmp_pri k) u t k.ready_list, v.runs),
      )
    ]
