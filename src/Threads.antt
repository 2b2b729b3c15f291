-- ===== src/Threads.antt =====
-- threads/thread.c of pintos/src: the states of a thread, the ready list and the scheduler.
-- A function with an ASSERT returns `none` where the ASSERT fails. After a switch of threads the
-- state is the one in which the next thread goes on; what a function does after it has given up the
-- processor is the business of its caller.
pub mod Queue
pub mod Switch
pub mod Priority
use sustech_cs.Prelude.{
  ℕ, ◌+◌, Bool, true, false, ◌&&◌, ◌||◌, not, Option, none, some, List, [], ◌∷◌, ltb, leb, ◌==◌,
  if◌then◌else◌, ◌>>=◌, update, is_empty,
}
use sustech_cs.Prelude.Int.{ℤ, pos, ltb_ℤ, eqb_ℤ}
use sustech_cs.Klist.{list_insert_ordered, list_remove}
use sustech_cs.State.{Status, Thread, Kernel, is_running, is_blocked, is_dying}

abbrev pub pri_min : ℤ
pri_min = pos 0

abbrev pub pri_default : ℤ
pri_default = pos 31

abbrev pub pri_max : ℤ
pri_max = pos 63

abbrev pub time_slice : ℕ
time_slice = 4

abbrev pub set_thread : ℕ → Thread → Kernel → Kernel
set_thread t v k = record k { thread = update k.thread t v }

-- The status of thread `t` is set.
abbrev pub set_status : ℕ → Status → Kernel → Kernel
set_status t s k = set_thread t (record (k.thread t) { status = s }) k

abbrev pub is_idle : Kernel → ℕ → Bool
is_idle k t = elim k.idle_thread [ none ↦ false | some i ↦ i == t ]

-- Whether thread `lhs` is to go before `rhs` in a list.
unfoldable pub thread_cmp_pri : Kernel → ℕ → ℕ → Bool
thread_cmp_pri k lhs rhs = ltb_ℤ (k.thread rhs).priority (k.thread lhs).priority

-- The current thread, with the ASSERT that it is running.
unfoldable pub thread_current : Kernel → Option ℕ
thread_current k = if is_running (k.thread k.current).status then some k.current else none

unfoldable pub thread_unblock : ℕ → Kernel → Option Kernel
thread_unblock t k =
    if is_blocked (k.thread t).status
    then some (
        set_status t Status.ready
          (record k { ready_list = list_insert_ordered (thread_cmp_pri k) t k.ready_list }))
    else none

-- The next thread, a null pointer if there is neither a ready nor an idle thread, and the ready
-- list without it.
unfoldable pub next_thread_to_run : Kernel → Option ℕ × List ℕ
next_thread_to_run k = elim k.ready_list [ [] ↦ (k.idle_thread, []) | t ∷ l ↦ (some t, l) ]

-- Whether `prev`, the thread that was switched from if any, is to be destroyed.
abbrev pub is_destroyed : Kernel → Option ℕ → Bool
is_destroyed k none = false
is_destroyed k (some p) = is_dying (k.thread p).status && not (p == k.initial_thread)

unfoldable pub free_page : Option ℕ → List ℕ → List ℕ
free_page none l = l
free_page (some p) l = p ∷ l

unfoldable pub thread_schedule_tail : Option ℕ → Kernel → Kernel
thread_schedule_tail prev k =
    let k' = record (set_status k.current Status.running k) { thread_ticks = 0 } in
    record k' { freed = if is_destroyed k' prev then free_page prev k.freed else k.freed }

unfoldable pub schedule : Kernel → Option Kernel
schedule k =
    if is_running (k.thread k.current).status
    then none
    else let (next, rest) = next_thread_to_run k in
      elim next [
        | none ↦ none
        | some n ↦ some (
            thread_schedule_tail (if k.current == n then none else some k.current)
              (record k { ready_list = rest; current = n }))
      ]

unfoldable pub thread_block : Kernel → Option Kernel
thread_block k =
    if k.in_interrupt
    then none
    else do cur ← thread_current k; schedule (set_status cur Status.blocked k)

-- The thread that gives up the processor goes to the ready list, except the idle thread.
unfoldable pub put_back : ℕ → Kernel → Kernel
put_back cur k = set_status cur Status.ready (record k {
  ready_list =
      if is_idle k cur
      then k.ready_list
      else list_insert_ordered (thread_cmp_pri k) cur k.ready_list;
})

unfoldable pub thread_yield : Kernel → Option Kernel
thread_yield k = do
  cur ← thread_current k
  if k.in_interrupt then none else schedule (put_back cur k)

-- thread_exit, in a kernel without user programs.
unfoldable pub thread_exit : Kernel → Option Kernel
thread_exit k = if k.in_interrupt then none else do
  cur ← thread_current k
  schedule (set_status cur Status.dying (record k { all_list = list_remove cur k.all_list }))

-- The body of thread_create from "Add to run queue" on, for the new thread `t`.
unfoldable pub thread_create_run : ℕ → ℤ → Kernel → Option Kernel
thread_create_run t priority k = do
  k' ← thread_unblock t k
  cur ← thread_current k'
  if ltb_ℤ (k'.thread cur).priority priority then thread_yield k' else some k'

-- init_thread, up to the insertion into all_list; the new thread's tid is set by the caller.
unfoldable pub init_thread : ℕ → ℤ → Kernel → Option Kernel
init_thread t priority k =
    if ltb_ℤ priority pri_min
    then none
    else if ltb_ℤ pri_max priority
    then none
    else some (
        set_thread t
          (record {
            tid = 0;
            status = Status.blocked;
            priority = priority;
            original_pri = priority;
            b_tick = 0;
            nice = pos 0;
            recent_cpu = pos 0;
            holding_locks = [];
            waiting_lock = none;
          })
          k)

-- The priority is not a donated one, no lock is held, or the new priority is higher.
unfoldable pub takes_effect : Thread → ℤ → Bool
takes_effect t new_priority =
    eqb_ℤ t.original_pri t.priority || is_empty t.holding_locks || ltb_ℤ t.priority new_priority

unfoldable pub thread_set_priority : ℤ → Kernel → Option Kernel
thread_set_priority new_priority k = if k.thread_mlfqs then some k else do
  cur ← thread_current k
  let t = k.thread cur
  let kept = set_thread cur (record t { original_pri = new_priority }) k
  let raised = set_thread cur (record t { original_pri = new_priority; priority = new_priority }) k
  if takes_effect t new_priority then thread_yield raised else some kept

-- The statistics and the end of the time slice, at each timer tick.
unfoldable pub thread_tick : Kernel → Option Kernel
thread_tick k = do
  t ← thread_current k
  let counted =
      if is_idle k t
      then record k { idle_ticks = k.idle_ticks + 1 }
      else record k { kernel_ticks = k.kernel_ticks + 1 }
  let used = k.thread_ticks + 1
  some (record counted {
    thread_ticks = used;
    yield_on_return = if leb time_slice used then true else k.yield_on_return;
  })

-- thread_foreach over the list of all threads, with an action that may fail an ASSERT.
unfoldable pub thread_foreach : (ℕ → Kernel → Option Kernel) → List ℕ → Kernel → Option Kernel
thread_foreach func [] k = some k
thread_foreach func (t ∷ l) k = func t k >>= thread_foreach func l

unfoldable pub thread_tid : Kernel → Option ℕ
thread_tid k = do cur ← thread_current k; some (k.thread cur).tid

unfoldable pub thread_get_priority : Kernel → Option ℤ
thread_get_priority k = do cur ← thread_current k; some (k.thread cur).priority

unfoldable pub thread_get_nice : Kernel → Option ℤ
thread_get_nice k = do cur ← thread_current k; some (k.thread cur).nice
