-- ===== src/Timer.antt =====
-- devices/timer.c of pintos/src: the timer interrupt and sleeping. The thread_b_check of
-- threads/thread.c stands here with its only caller.
pub mod Check
pub mod Handler
pub mod Sleep
use sustech_cs.Prelude.{
  ℕ, zero, suc, ◌+◌, ◌-◌, ◌%◌, Bool, true, false, ◌&&◌, Option, none, some, ltb, ◌==◌,
  if◌then◌else◌, ◌>>=◌,
}
use sustech_cs.Prelude.Int.{ℤ, pos, negsuc, ◌-ℤ◌}
use sustech_cs.State.{Thread, Kernel, is_blocked}
use sustech_cs.Threads.{
  set_thread, thread_current, thread_unblock, thread_block, thread_yield, thread_tick,
  thread_foreach,
}
use sustech_cs.Mlfqs.{
  thread_mlfqs_tick_rcpu_update, thread_mlfqs_avg_rcpu_update, thread_mlfqs_pri_update,
}

abbrev pub timer_freq : ℕ
timer_freq = 100

-- A sleeping thread has one tick less to sleep, and is woken when none is left.
unfoldable pub thread_b_check : ℕ → Kernel → Option Kernel
thread_b_check t k =
    let th = k.thread t in
    let k' = set_thread t (record th { b_tick = th.b_tick - 1 }) k in
    if is_blocked th.status && ltb 0 th.b_tick
    then if th.b_tick - 1 == 0 then thread_unblock t k' else some k'
    else some k

-- timer_sleep, with interrupts on. Its argument is compared with 0 as a signed number.
unfoldable pub timer_sleep : ℤ → Kernel → Option Kernel
timer_sleep (pos zero) k = some k
timer_sleep (negsuc n) k = some k
timer_sleep (pos (suc n)) k = do
  cur ← thread_current k
  thread_block (set_thread cur (record (k.thread cur) { b_tick = suc n }) k)

-- The part of timer_interrupt for the multi-level feedback queue.
unfoldable pub mlfqs_interrupt : Kernel → Option Kernel
mlfqs_interrupt k = do
  k' ← thread_mlfqs_tick_rcpu_update k
  if k'.ticks % timer_freq == 0
      then thread_mlfqs_avg_rcpu_update k'
      else if k'.ticks % 4 == 0
      then (do cur ← thread_current k'; some (thread_mlfqs_pri_update cur k'))
      else some k'

unfoldable pub timer_interrupt : Kernel → Option Kernel
timer_interrupt k = do
  ticked ← thread_tick (record k { ticks = k.ticks + 1 })
  checked ← thread_foreach thread_b_check ticked.all_list ticked
  if checked.thread_mlfqs then mlfqs_interrupt checked else some checked

-- intr_handler of threads/interrupt.c of pintos_pro3/src, which the other kernels have the same, for
-- the timer's interrupt.
unfoldable pub intr_handler : Kernel → Option Kernel
intr_handler k = do
  handled ← timer_interrupt (record k { in_interrupt = true; yield_on_return = false })
  let k' = record handled { in_interrupt = false }
  if k'.yield_on_return then thread_yield k' else some k'

unfoldable pub timer_ticks : Kernel → ℕ
timer_ticks k = k.ticks

-- The difference of two numbers of ticks, as a signed number.
unfoldable pub timer_elapsed : ℕ → Kernel → ℤ
timer_elapsed since k = pos (timer_ticks k) -ℤ pos since
