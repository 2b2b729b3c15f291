-- ===== src/Tests/Scheduling.antt =====
-- The scheduler, priority donation, the feedback queue and sleeping, on the machine.
use sustech_cs.Prelude.{
  ℕ, ◌+◌, ◌*◌, ◌/◌, ◌^◌, ltb, ◌-◌, ◌≤◌, ◌<◌, ◌≡◌, ◌≢◌, refl, true, none, some, [], ◌∷◌, arith,
  count, ◌==◌, if◌then◌else◌,
}
use sustech_cs.Prelude.Int.{pos, negsuc, ◌≤ℤ◌, ◌<ℤ◌}
use sustech_cs.State.{Status, Kernel}
use sustech_cs.Threads.{
  pri_min, pri_max, set_thread, put_back, thread_yield, thread_unblock, thread_set_priority,
}
use sustech_cs.Threads.Queue.{IsQueued, IsValid, Highest, Scheduled, status_of}
use sustech_cs.Threads.Switch.{thread_yield_lem, thread_unblock_lem}
use sustech_cs.Threads.Priority.{thread_set_priority_lem}
use sustech_cs.Donation.{thread_update_pri, thread_donate_pri}
use sustech_cs.Donation.Raise.{IsRaised, thread_update_pri_lem, thread_donate_pri_lem}
use sustech_cs.Mlfqs.{thread_mlfqs_pri_update}
use sustech_cs.Mlfqs.Bounds.{thread_mlfqs_pri_update_bounds}
use sustech_cs.Timer.Check.{b_tick_of}
use sustech_cs.Timer.Sleep.{interrupts, interrupts-wake}
use sustech_cs.Tests.Machine.{a_thread, machine, machine-IsValid, machine-Highest}

thread_yield_example :
    (k' : Kernel) × (thread_yield machine ≡ some k') × Scheduled (put_back 0 machine) k'
thread_yield_example = thread_yield_lem machine machine-IsValid refl

thread_unblock_example :
    (status_of machine 5 ≡ Status.blocked
      → (k' : Kernel) × (thread_unblock 5 machine ≡ some k')
        × IsValid k'
        × (k'.current ≡ 0)
        × ((u : ℕ) → count u k'.ready_list ≡ (if 5 == u then 1 else count u machine.ready_list)))
    × (status_of machine 5 ≢ Status.blocked → thread_unblock 5 machine ≡ none)
thread_unblock_example = thread_unblock_lem 5 machine machine-IsValid (λ e. ground (arith, e))

thread_set_priority_example :
    (k' : Kernel) × (thread_set_priority (pos 15) machine ≡ some k')
    × IsValid k'
    × Highest k'
    × ((k'.thread 0).original_pri ≡ pos 15)
    × (pos 31 ≡ pos 31 → (k'.thread 0).priority ≡ pos 15)
    × ((machine.thread 0).holding_locks ≡ [] → (k'.thread 0).priority ≡ pos 15)
    × (pos 31 <ℤ pos 15 → (k'.thread 0).priority ≡ pos 15)
    × (pos 31 ≢ pos 31
        → (machine.thread 0).holding_locks ≢ []
        → pos 15 ≤ℤ pos 31
        → (k'.thread 0).priority ≡ pos 31)
thread_set_priority_example =
    thread_set_priority_lem (pos 15) machine machine-IsValid machine-Highest refl refl

-- Thread 3 holds the locks 1 and 2.
abbrev holding : Kernel
holding = set_thread 3 (record (a_thread Status.ready 10 0) { holding_locks = 1 ∷ 2 ∷ [] }) machine

thread_update_pri_example :
    IsRaised holding (holding.thread 3) ((thread_update_pri 3 holding).thread 3)
    × ((u : ℕ) → u ≢ 3 → (thread_update_pri 3 holding).thread u ≡ holding.thread u)
thread_update_pri_example = thread_update_pri_lem 3 holding

holding-IsQueued : IsQueued holding
holding-IsQueued = record {
  sorted = ((omega arith, tt), (tt, tt));
  all_ready = λ t m. ground (arith, m);
  once = λ t. ground arith;
  no_idle = λ i e. ground (arith, e);
}

thread_donate_pri_example :
    IsQueued (thread_donate_pri 3 holding)
    × ((u : ℕ) → count u (thread_donate_pri 3 holding).ready_list ≡ count u holding.ready_list)
thread_donate_pri_example = thread_donate_pri_lem 3 holding holding-IsQueued (λ e. omega arith)

-- The machine under the feedback queue.
abbrev feedback : Kernel
feedback = record machine { thread_mlfqs = true }

thread_mlfqs_pri_update_example :
    (pri_min ≤ℤ ((thread_mlfqs_pri_update 2 feedback).thread 2).priority)
    × (((thread_mlfqs_pri_update 2 feedback).thread 2).priority ≤ℤ pri_max)
    × ((c i : ℕ)
        → c < 2 ^ 31
        → i ≤ 20
        → pos 0 ≡ pos c
        → (pos 0 ≡ pos i
            → ((thread_mlfqs_pri_update 2 feedback).thread 2).priority
              ≡ pos ((63 * 65536 - (c / 4 + 2 * i * 65536)) / 65536))
          × (pos 0 ≡ negsuc i
              → i ≤ 19
              → (let q = (63 * 65536 + 2 * (i + 1) * 65536 - c / 4) / 65536 in
                  ((thread_mlfqs_pri_update 2 feedback).thread 2).priority
                  ≡ pos (if ltb 63 q then 63 else q))))
thread_mlfqs_pri_update_example =
    thread_mlfqs_pri_update_bounds 2 feedback refl (λ e. ground (arith, e))

interrupts-wake_example :
    (k' : Kernel) × (interrupts 2 machine ≡ some k')
    × IsValid k'
    × (2 ≤ 1 → (status_of k' 4 ≡ Status.blocked) × (b_tick_of k' 4 ≡ 2 - 2))
    × (1 < 2 → status_of k' 4 ≢ Status.blocked)
interrupts-wake_example =
    interrupts-wake 2 1 4 machine machine-IsValid (λ t e. ground (arith, e)) refl
      (λ e. ground (arith, e)) refl refl refl
