-- ===== src/Synch/Down.antt =====
-- What sema_down does in one round of its loop.
use sustech_cs.Prelude.{
  ℕ, ◌+◌, ◌-◌, ◌≡◌, ◌≢◌, sym, ap, ◌∙◌, true, false, ◌⊎◌, inl, inr, none, some, arith, count,
  is_empty, if◌then◌else◌, ◌==◌, ◌>>=◌, if_true, if_false,
}
use sustech_cs.Klist.{list_insert_ordered}
use sustech_cs.Klist.Ordered.{count-insert}
use sustech_cs.State.{Status, Thread, Semaphore, Kernel}
use sustech_cs.Threads.{set_status, thread_cmp_pri}
use sustech_cs.Threads.Queue.{IsValid, Highest, status_of, Scheduled, current_lem, current_out}
use sustech_cs.Threads.Switch.{thread_block_lem}
use sustech_cs.Synch.{set_sema, sema_down}
use sustech_cs.Synch.Wake.{IsValid-sema}

-- The thread that blocks is not the one that the scheduler picks.
block-sleeps :
    (k k' : Kernel)
    → IsValid k
    → k.idle_thread ≢ some k.current
    → Scheduled (set_status k.current Status.blocked k) k'
    → status_of k' k.current ≡ Status.blocked
block-sleeps k k' v busy s =
    let apart : k.current ≢ k'.current = elim s.picks [
      | inl e ↦ λ same. ground (arith, same, ap (count k.current) e, current_out k v)
      | inr (e, f, idle) ↦ λ same. busy (idle ∙ ap some (sym same))
    ] in
    ap (λ (t : Thread). t.status) (s.others k.current apart) ∙ ground arith

-- sema_down by a thread other than the idle thread, outside an interrupt and from a valid state with
-- a ready thread or an idle thread: if the value is not 0, it takes one off and the thread goes on;
-- if it is 0, the thread is blocked and among the waiting threads, once more than before, the value
-- is still 0, and the state is a valid one in which no ready thread outranks the running one.
pub sema_down_lem :
    (s : ℕ) (k : Kernel)
    → IsValid k
    → k.in_interrupt ≡ false
    → k.idle_thread ≢ some k.current
    → (is_empty k.ready_list ≡ false) ⊎ (k.idle_thread ≢ none)
    → ((k.sema s).value ≢ 0
        → sema_down s k
          ≡ some (true, set_sema s (record (k.sema s) { value = (k.sema s).value - 1 }) k))
      × ((k.sema s).value ≡ 0
          → (k' : Kernel) × (sema_down s k ≡ some (false, k'))
            × IsValid k'
            × Highest k'
            × (status_of k' k.current ≡ Status.blocked)
            × ((k'.sema s).value ≡ 0)
            × ((t : ℕ)
                → count t (k'.sema s).waiters
                  ≡ count t (k.sema s).waiters + (if k.current == t then 1 else 0)))
unfolding sema_down
sema_down_lem s k v out busy next = (
  λ n. let some_left : ((k.sema s).value == 0) ≡ false = ground (arith, n) in simp (out, some_left),
  λ z.
      let none_left : ((k.sema s).value == 0) ≡ true = ground (arith, z) in
      let waiting : Semaphore = record (k.sema s) {
        waiters = list_insert_ordered (thread_cmp_pri k) k.current (k.sema s).waiters;
      } in
      let asks = set_sema s waiting k in
      let (k', e, sched) = thread_block_lem asks (IsValid-sema s waiting k v) out next in
      (
        k',
        if_false _ _ out
            ∙ if_true _ _ none_left
            ∙ rw (current_lem k v) (ap (λ m. m >>= λ x. some (false, x)) e),
        sched.valid,
        sched.highest,
        block-sleeps asks k' (IsValid-sema s waiting k v) busy sched,
        ap (λ f. (f s).value) sched.same_sema ∙ ground (arith, z),
        λ t.
            ap (λ f. count t (f s).waiters) sched.same_sema
            ∙ ground (arith, count-insert (thread_cmp_pri k) t k.current (k.sema s).waiters),
      ),
)
