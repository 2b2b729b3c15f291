-- ===== src/Mlfqs.antt =====
-- The multi-level feedback queue of threads/thread.c (pintos/src): load average, recent_cpu and the
-- priority computed from them, in fixed point.
pub mod Bounds
use sustech_cs.Prelude.{
  ℕ, ◌+◌, ◌*◌, Bool, not, Option, none, some, List, if◌then◌else◌, ◌==◌, ◌>>=◌, length, ◌||◌,
}
use sustech_cs.Prelude.Int.{ℤ, pos, ltb_ℤ, ◌*ℤ◌}
use sustech_cs.FixedPoint.{
  fp_const, fp_add, fp_add_mix, fp_sub, fp_sub_mix, fp_mult_mix, fp_div_mix, fp_mult, fp_div,
  fp_int_part, fp_round, int32,
}
use sustech_cs.State.{Thread, Kernel}
use sustech_cs.Threads.{
  pri_min, pri_max, is_idle, set_thread, thread_current, thread_foreach, thread_yield,
}

abbrev pub clamp_pri : ℤ → ℤ
clamp_pri p =
    let q : ℤ = if ltb_ℤ p pri_min then pri_min else p in if ltb_ℤ pri_max q then pri_max else q

-- PRI_MAX - recent_cpu / 4 - nice * 2, in whole numbers.
unfoldable pub mlfqs_pri : ℤ → ℤ → ℤ
mlfqs_pri recent_cpu nice =
    fp_int_part (
      fp_sub_mix (fp_sub (fp_const pri_max) (fp_div_mix recent_cpu (pos 4)))
        (int32 (pos 2 *ℤ nice)))

unfoldable pub thread_mlfqs_pri_update : ℕ → Kernel → Kernel
thread_mlfqs_pri_update t k =
    let th = k.thread t in
    if is_idle k t || not k.thread_mlfqs
    then k
    else set_thread t (record th { priority = clamp_pri (mlfqs_pri th.recent_cpu th.nice) }) k

-- The current thread's recent_cpu goes up by one.
unfoldable pub thread_mlfqs_tick_rcpu_update : Kernel → Option Kernel
thread_mlfqs_tick_rcpu_update k =
    if not k.thread_mlfqs then some k else if not k.in_interrupt then none else do
      cur ← thread_current k
      let th = k.thread cur
      let one_more = record th { recent_cpu = fp_add_mix th.recent_cpu (pos 1) }
      some (if is_idle k cur then k else set_thread cur one_more k)

-- (2 * load_avg) / (2 * load_avg + 1) * recent_cpu + nice.
unfoldable pub decayed : ℤ → ℤ → ℤ → ℤ
decayed load_avg recent_cpu nice =
    let twice = fp_mult_mix load_avg (pos 2) in
    fp_add_mix (fp_mult (fp_div twice (fp_add_mix twice (pos 1))) recent_cpu) nice

unfoldable pub thread_per_rcpu_update : ℕ → Kernel → Kernel
thread_per_rcpu_update t k =
    let th = k.thread t in
    if is_idle k t
    then k
    else thread_mlfqs_pri_update t
        (set_thread t (record th { recent_cpu = decayed k.load_avg th.recent_cpu th.nice }) k)

-- (59/60) * load_avg + (1/60) * ready_threads.
unfoldable pub next_load_avg : ℤ → ℕ → ℤ
next_load_avg load_avg ready_threads =
    fp_add (fp_div_mix (fp_mult_mix load_avg (pos 59)) (pos 60))
      (fp_div_mix (fp_const (pos ready_threads)) (pos 60))

-- The ready threads, and the running one if it is not the idle thread.
abbrev pub ready_threads : Kernel → ℕ → ℕ
ready_threads k cur = if is_idle k cur then length k.ready_list else length k.ready_list + 1

unfoldable pub thread_mlfqs_avg_rcpu_update : Kernel → Option Kernel
thread_mlfqs_avg_rcpu_update k =
    if not k.thread_mlfqs then some k else if not k.in_interrupt then none else do
      cur ← thread_current k
      thread_foreach (λ t k'. some (thread_per_rcpu_update t k')) k.all_list
          (record k { load_avg = next_load_avg k.load_avg (ready_threads k cur) })

unfoldable pub thread_set_nice : ℤ → Kernel → Option Kernel
thread_set_nice nice k = do
  cur ← thread_current k
  thread_yield
      (thread_mlfqs_pri_update cur (set_thread cur (record (k.thread cur) { nice = nice }) k))

unfoldable pub thread_get_load_avg : Kernel → ℤ
thread_get_load_avg k = fp_round (fp_mult_mix k.load_avg (pos 100))

unfoldable pub thread_get_recent_cpu : Kernel → Option ℤ
thread_get_recent_cpu k = do
  cur ← thread_current k
  some (fp_round (fp_mult_mix (k.thread cur).recent_cpu (pos 100)))
