-- ===== src/Donation.antt =====
-- Priority donation: thread_donate_pri, thread_update_pri, thread_get_lock and thread_remove_lock of
-- threads/thread.c, and the donation loop of lock_acquire in threads/synch.c (pintos/src).
-- The list that list_remove takes an element out of is not named in the code; it is written out
-- here: a ready thread stands on the ready list, a held lock on the list of its holder.
pub mod Raise
use sustech_cs.Prelude.{
  ℕ, zero, suc, Bool, true, false, Option, none, some, List, [], ◌∷◌, if◌then◌else◌, ◌==◌, ◌>>=◌,
  update, is_empty,
}
use sustech_cs.Prelude.Int.{ℤ, ltb_ℤ}
use sustech_cs.Klist.{list_insert_ordered, list_remove}
use sustech_cs.Klist.Sort.{list_sort}
use sustech_cs.State.{Thread, Lock, Kernel, is_ready}
use sustech_cs.Threads.{set_thread, thread_cmp_pri, thread_current, thread_yield}

-- Whether lock `lhs` is to go before `rhs` in a list.
unfoldable pub lock_cmp_pri : Kernel → ℕ → ℕ → Bool
lock_cmp_pri k lhs rhs = ltb_ℤ (k.lock rhs).max_pri (k.lock lhs).max_pri

abbrev pub max_ℤ : ℤ → ℤ → ℤ
max_ℤ a b = if ltb_ℤ a b then b else a

-- `Max(max_pri, list_front(...)->max_pri)`.
unfoldable pub max_front : Kernel → ℤ → List ℕ → ℤ
max_front k p [] = p
max_front k p (l ∷ _) = max_ℤ p (k.lock l).max_pri

-- The thread as thread_update_pri leaves it: the locks sorted, the priority the highest.
unfoldable pub with_donations : Kernel → Thread → Thread
with_donations k th =
    if is_empty th.holding_locks
    then record th { priority = th.original_pri }
    else let sorted = list_sort (lock_cmp_pri k) th.holding_locks in
      record th { holding_locks = sorted; priority = max_front k th.original_pri sorted }

unfoldable pub thread_update_pri : ℕ → Kernel → Kernel
thread_update_pri t k = set_thread t (with_donations k (k.thread t)) k

unfoldable pub thread_donate_pri : ℕ → Kernel → Kernel
thread_donate_pri t k =
    let k' = thread_update_pri t k in
    if is_ready (k'.thread t).status
    then record k' {
      ready_list = list_insert_ordered (thread_cmp_pri k') t (list_remove t k'.ready_list);
    }
    else k'

abbrev pub set_lock : ℕ → Lock → Kernel → Kernel
set_lock l v k = record k { lock = update k.lock l v }

unfoldable pub thread_get_lock : ℕ → Kernel → Option Kernel
thread_get_lock l k = do
  cur ← thread_current k
  let th = k.thread cur
  let held = record th { holding_locks = list_insert_ordered (lock_cmp_pri k) l th.holding_locks }
  let raised = record held { priority = (k.lock l).max_pri }
  if ltb_ℤ th.priority (k.lock l).max_pri
      then thread_yield (set_thread cur raised k)
      else some (set_thread cur held k)

unfoldable pub thread_remove_lock : ℕ → Kernel → Option Kernel
thread_remove_lock l k = do
  cur ← thread_current k
  let th = k.thread cur
  some (
      thread_update_pri cur
        (set_thread cur (record th { holding_locks = list_remove l th.holding_locks }) k))

-- The loop of lock_acquire, on fuel. A lock on the way with no holder is a fault.
unfoldable pub donate : ℕ → ℕ → Option ℕ → Kernel → Option Kernel
donate zero cur lk k = none
donate (suc f) cur none k = some k
donate (suc f) cur (some l) k =
    let p = (k.thread cur).priority in
    let raised = set_lock l (record (k.lock l) { max_pri = p }) k in
    let on = (λ (h : ℕ).
      let k' = thread_donate_pri h raised in donate f cur (k'.thread h).waiting_lock k') in
    elim (ltb_ℤ (k.lock l).max_pri p) [
      | true ↦ elim (k.lock l).holder [ none ↦ none | some h ↦ on h ]
      | false ↦ some k
    ]
