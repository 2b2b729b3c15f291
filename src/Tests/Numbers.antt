-- ===== src/Tests/Numbers.antt =====
-- Fixed-point numbers and the feedback queue's averages.
use sustech_cs.Prelude.{ℕ, ◌+◌, ◌*◌, ◌/◌, ◌≤◌, ◌≡◌, refl, some}
use sustech_cs.Prelude.Int.{pos, negsuc}
use sustech_cs.Threads.{set_thread, thread_current}
use sustech_cs.Mlfqs.{thread_get_recent_cpu}
use sustech_cs.Mlfqs.Bounds.{thread_get_recent_cpu_lem}
use sustech_cs.State.{Status, Kernel}
use sustech_cs.Tests.Machine.{a_thread, machine}

-- The running thread has used 400 ticks.
abbrev busy : Kernel
busy = set_thread 0 (record (a_thread Status.running 31 0) { recent_cpu = pos 26214400 }) machine

busy_current : thread_current busy ≡ some 0
unfolding thread_current
busy_current = refl

thread_get_recent_cpu_example :
    (26214400 ≤ 21474508
      → thread_get_recent_cpu busy ≡ some (pos ((26214400 * 100 + 32768) / 65536)))
    × (21475165 ≤ 26214400
        → 26214400 ≤ 42949000
        → (n : ℕ) × (thread_get_recent_cpu busy ≡ some (negsuc n)))
thread_get_recent_cpu_example = thread_get_recent_cpu_lem busy 26214400 busy_current refl
