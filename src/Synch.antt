-- ===== src/Synch.antt =====
-- threads/synch.c of pintos/src: semaphores, locks and condition variables.
-- ASSERTs on null pointers have no counterpart. A thread that is switched away from inside sema_down
-- goes on with the `while` test when it runs again: `sema_down` is one round of that loop, and tells
-- whether it got through.
pub mod Wake
pub mod Down
use sustech_cs.Prelude.{
  ℕ, ◌+◌, ◌-◌, Bool, true, false, ◌&&◌, Option, none, some, List, [], ◌∷◌, ltb, ◌==◌, if◌then◌else◌,
  ◌>>=◌, update, is_empty, not, ◌++◌,
}
use sustech_cs.Prelude.Int.{ℤ, pos, ltb_ℤ}
use sustech_cs.Klist.{list_insert_ordered}
use sustech_cs.Klist.Sort.{list_sort}
use sustech_cs.State.{Semaphore, Kernel}
use sustech_cs.Threads.{
  set_thread, thread_cmp_pri, thread_current, thread_unblock, thread_block, thread_yield,
}
use sustech_cs.Donation.{set_lock, thread_get_lock, thread_remove_lock, donate}

abbrev pub set_sema : ℕ → Semaphore → Kernel → Kernel
set_sema s v k = record k { sema = update k.sema s v }

unfoldable pub sema_init : ℕ → ℕ → Kernel → Kernel
sema_init s value k = set_sema s (record { value = value; waiters = [] }) k

-- One round of the loop: `true` if the semaphore is taken, `false` if the thread has been put to
-- sleep.
unfoldable pub sema_down : ℕ → Kernel → Option (Bool × Kernel)
sema_down s k =
    if k.in_interrupt
    then none
    else let v = k.sema s in
      if v.value == 0
      then (do
        cur ← thread_current k
        let waiting = list_insert_ordered (thread_cmp_pri k) cur v.waiters
        k' ← thread_block (set_sema s (record v { waiters = waiting }) k)
        some (false, k'))
      else some (true, set_sema s (record v { value = v.value - 1 }) k)

unfoldable pub sema_try_down : ℕ → Kernel → Bool × Kernel
sema_try_down s k =
    let v = k.sema s in
    if ltb 0 v.value then (true, set_sema s (record v { value = v.value - 1 }) k) else (false, k)

-- The first of the waiters, sorted by priority, is woken.
unfoldable pub wake_first : ℕ → List ℕ → Kernel → Option Kernel
wake_first s [] k = some k
wake_first s (t ∷ l) k = thread_unblock t (set_sema s (record (k.sema s) { waiters = l }) k)

unfoldable pub sema_up : ℕ → Kernel → Option Kernel
sema_up s k = do
  k' ←
      if is_empty (k.sema s).waiters
      then some k
      else wake_first s (list_sort (thread_cmp_pri k) (k.sema s).waiters) k
  thread_yield (set_sema s (record (k'.sema s) { value = (k'.sema s).value + 1 }) k')

unfoldable pub lock_init : ℕ → Kernel → Kernel
lock_init l k =
    sema_init (k.lock l).semaphore 1 (set_lock l (record (k.lock l) { holder = none }) k)

unfoldable pub lock_held_by_current_thread : ℕ → Kernel → Option Bool
lock_held_by_current_thread l k = do
  cur ← thread_current k
  some (elim (k.lock l).holder [ none ↦ false | some h ↦ h == cur ])

-- lock_acquire up to sema_down: the checks, and the donation to the holder and those it waits for.
unfoldable pub lock_request : ℕ → ℕ → Kernel → Option Kernel
lock_request fuel l k = do
  cur ← thread_current k
  held ← lock_held_by_current_thread l k
  if k.in_interrupt then none else if held then none else elim (k.lock l).holder [
    | none ↦ some k
    | some h ↦
        if k.thread_mlfqs
        then some k
        else donate fuel cur (some l)
            (set_thread cur (record (k.thread cur) { waiting_lock = some l }) k)
  ]

-- lock_acquire behind sema_down, which may run much later. The priority of the lock is the thread's
-- own here, so that thread_get_lock does not yield.
unfoldable pub lock_obtain : ℕ → Kernel → Option Kernel
lock_obtain l k = do
  cur ← thread_current k
  let waiting = set_thread cur (record (k.thread cur) { waiting_lock = none }) k
  let claimed = set_lock l (record (k.lock l) { max_pri = (k.thread cur).priority }) waiting
  k' ← if k.thread_mlfqs then some k else thread_get_lock l claimed
  some (set_lock l (record (k'.lock l) { holder = some cur }) k')

-- lock_acquire where the lock is asked for, and each time that the waiting thread runs again:
-- `true` if the lock is taken, `false` if the thread sleeps.
unfoldable pub lock_resume : ℕ → Kernel → Option (Bool × Kernel)
lock_resume l k = do
  r ← sema_down (k.lock l).semaphore k
  let (got, k') = r
  if got then (do k'' ← lock_obtain l k'; some (true, k'')) else some (false, k')

unfoldable pub lock_acquire : ℕ → ℕ → Kernel → Option (Bool × Kernel)
lock_acquire fuel l k = do k' ← lock_request fuel l k; lock_resume l k'

unfoldable pub lock_try_acquire : ℕ → Kernel → Option (Bool × Kernel)
lock_try_acquire l k = do
  held ← lock_held_by_current_thread l k
  if held then none else (do
    let (success, k') = sema_try_down (k.lock l).semaphore k
    cur ← thread_current k'
    some
        (success, if success then set_lock l (record (k'.lock l) { holder = some cur }) k' else k'))

unfoldable pub lock_release : ℕ → Kernel → Option Kernel
lock_release l k = do
  held ← lock_held_by_current_thread l k
  if not held then none else (do
    let free = set_lock l (record (k.lock l) { holder = none }) k
    k' ← if k.thread_mlfqs then some free else thread_remove_lock l free
    sema_up (k'.lock l).semaphore k')

-- The list of a condition variable holds the semaphores of the waiting threads. The comparison
-- looks at the first thread that sleeps on each: list_front fails its ASSERT where there is none.
-- A sort of two or more elements compares each of them at least once.
unfoldable pub all_asleep : Kernel → List ℕ → Bool
all_asleep k [] = true
all_asleep k (w ∷ l) = not (is_empty (k.sema w).waiters) && all_asleep k l

abbrev pub has_two : List ℕ → Bool
has_two [] = false
has_two (w ∷ l) = not (is_empty l)

unfoldable pub front_priority : Kernel → ℕ → ℤ
front_priority k s = elim (k.sema s).waiters [ [] ↦ pos 0 | t ∷ _ ↦ (k.thread t).priority ]

unfoldable pub cond_sema_cmp_pri : Kernel → ℕ → ℕ → Bool
cond_sema_cmp_pri k lhs rhs = ltb_ℤ (front_priority k rhs) (front_priority k lhs)

unfoldable pub cond_init : ℕ → Kernel → Kernel
cond_init c k = record k { cond = update k.cond c [] }

-- cond_wait up to the point where the waiting thread sleeps on its own semaphore `w`; lock_acquire
-- follows when it is woken.
unfoldable pub cond_wait : ℕ → ℕ → ℕ → Kernel → Option Kernel
cond_wait c l w k = if k.in_interrupt then none else do
  held ← lock_held_by_current_thread l k
  let k' = sema_init w 0 k
  if held
      then lock_release l (record k' { cond = update k'.cond c (k'.cond c ++ w ∷ []) })
      else none

unfoldable pub signal_first : ℕ → List ℕ → Kernel → Option Kernel
signal_first c [] k = some k
signal_first c (w ∷ l) k = sema_up w (record k { cond = update k.cond c l })

unfoldable pub cond_signal : ℕ → ℕ → Kernel → Option Kernel
cond_signal c l k = if k.in_interrupt then none else do
  held ← lock_held_by_current_thread l k
  if not held
      then none
      else if is_empty (k.cond c)
      then some k
      else if has_two (k.cond c) && not (all_asleep k (k.cond c))
      then none
      else signal_first c (list_sort (cond_sema_cmp_pri k) (k.cond c)) k

-- One round of the loop of cond_broadcast, which the thread goes on with when it runs again: `true`
-- if nobody waits any more.
unfoldable pub cond_broadcast : ℕ → ℕ → Kernel → Option (Bool × Kernel)
cond_broadcast c l k =
    if is_empty (k.cond c) then some (true, k) else (do k' ← cond_signal c l k; some (false, k'))
