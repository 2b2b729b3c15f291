-- ===== src/Donation/Raise.antt =====
-- What a donation does: the priority that thread_update_pri computes, and the ready list that
-- thread_donate_pri keeps in order.
use sustech_cs.Prelude.{
  ℕ, ◌<◌, ◌≡◌, ◌≢◌, refl, Bool, false, ◌⊎◌, inl, inr, List, [], ◌∷◌, arith, count, is_empty,
  Bool-cases, ap, subst, List-cases, if_true, sym, ==_refl, ◌∙◌,
}
use sustech_cs.Prelude.Int.{ℤ, ◌≤ℤ◌, ltb_ℤ}
use sustech_cs.Klist.{list_insert_ordered, list_remove}
use sustech_cs.Klist.Ordered.{
  above, above_asym, Descending, Descending-cong, Descending-of_is_sorted, insert-Descending,
  remove-Descending, count-insert, count-remove, All-count,
}
use sustech_cs.Klist.Sort.{list_sort, list_sort_lem}
use sustech_cs.State.{Status, Thread, Kernel, is_ready}
use sustech_cs.Threads.{thread_cmp_pri}
use sustech_cs.Threads.Queue.{IsQueued, priority_of, status_of}
use sustech_cs.Donation.{
  with_donations, lock_cmp_pri, max_front, thread_update_pri, thread_donate_pri,
}

abbrev pub max_pri_of : Kernel → ℕ → ℤ
max_pri_of k l = (k.lock l).max_pri

-- The list of held locks, sorted, has the same locks, from the highest donated priority down.
sorted_locks :
    (k : Kernel) (l : List ℕ)
    → Descending (max_pri_of k) (list_sort (lock_cmp_pri k) l)
      × ((v : ℕ) → count v (list_sort (lock_cmp_pri k) l) ≡ count v l)
unfolding lock_cmp_pri
sorted_locks k l =
    let s = list_sort_lem (above (max_pri_of k)) (above_asym (max_pri_of k)) l in
    (Descending-of_is_sorted (max_pri_of k) _ s.0, s.1)

-- The front of a descending list bounds it, and the maximum is attained.
max_front_lem :
    (k : Kernel) (p : ℤ) (l : List ℕ)
    → Descending (max_pri_of k) l
    → (p ≤ℤ max_front k p l)
      × ((v : ℕ) → 0 < count v l → max_pri_of k v ≤ℤ max_front k p l)
      × ((max_front k p l ≡ p) ⊎ ((v : ℕ) × (0 < count v l) × (max_front k p l ≡ max_pri_of k v)))
unfolding max_front
max_front_lem k p [] d = (omega arith, λ v m. absurd (omega arith), inl refl)
max_front_lem k p (x ∷ l) d = (
  ground arith,
  λ v m. ground (arith, All-count (λ y. max_pri_of k y ≤ℤ max_pri_of k x) v l d.0),
  elim (Bool-cases (ltb_ℤ p (max_pri_of k x))) [
    | inl less ↦ inr (x, ground arith, rw less)
    | inr not_less ↦ inl (rw not_less)
  ],
)

-- `th'` is `th` at the highest of its own priority and those donated through its locks.
pub record IsRaised (k : Kernel) (th th' : Thread) : Type 0 where
  pub own : th.original_pri ≤ℤ th'.priority
  pub donated : (l : ℕ) → 0 < count l th.holding_locks → max_pri_of k l ≤ℤ th'.priority
  pub attained :
      (th'.priority ≡ th.original_pri)
      ⊎ ((l : ℕ) × (0 < count l th.holding_locks) × (th'.priority ≡ max_pri_of k l))
  pub locks : (l : ℕ) → count l th'.holding_locks ≡ count l th.holding_locks
  pub rest : th' ≡ record th { priority = th'.priority; holding_locks = th'.holding_locks }

with_donations-IsRaised : (k : Kernel) (th : Thread) → IsRaised k th (with_donations k th)
unfolding with_donations
with_donations-IsRaised k th = elim (List-cases th.holding_locks) [
  | inl e ↦
      rw (e, with_donations)
        (record {
          own = omega arith;
          donated = λ l m. absurd (ground (arith, e));
          attained = inl refl;
          locks = λ l. refl;
          rest = refl;
        })
  | inr (x, l, e) ↦
      let s = sorted_locks k th.holding_locks in
      let sorted = list_sort (lock_cmp_pri k) th.holding_locks in
      let f = max_front_lem k th.original_pri sorted s.0 in
      let more : is_empty th.holding_locks ≡ false = rw e in
      rw (more, with_donations)
        (record {
          own = f.0;
          donated = λ v m. f.1 v (rw (s.1 v) m);
          attained = elim f.2 [ inl q ↦ inl q | inr (v, m, q) ↦ inr (v, rw (s.1 v) at m, q) ];
          locks = s.1;
          rest = refl;
        })
]

-- thread_update_pri gives the thread the highest of its own priority and the priorities donated
-- through the locks that it holds: none of them is higher, and it is one of them. Its locks stay
-- the same up to their order, the rest of its record does not change, nor does any other thread.
pub thread_update_pri_lem :
    (t : ℕ) (k : Kernel)
    → let k' = thread_update_pri t k in
      IsRaised k (k.thread t) (k'.thread t) × ((u : ℕ) → u ≢ t → k'.thread u ≡ k.thread u)
unfolding thread_update_pri
thread_update_pri_lem t k = (
  subst (IsRaised k (k.thread t)) (sym (if_true _ _ (==_refl t)))
      (with_donations-IsRaised k (k.thread t)),
  λ u d. ground arith,
)

-- Only the priority and the order of the locks of `t` change, so its status does not.
status-update_pri : (t u : ℕ) (k : Kernel) → status_of (thread_update_pri t k) u ≡ status_of k u
unfolding thread_update_pri
status-update_pri t u k =
    let w : (with_donations k (k.thread t)).status ≡ status_of k t =
      ap (λ (th : Thread). th.status) (with_donations-IsRaised k (k.thread t)).rest in
    ground arith

module _ (t : ℕ) (k : Kernel) (q : IsQueued k) where
  -- The ready list without `t` is in order under the new priorities too.
  others_sorted : Descending (priority_of (thread_update_pri t k)) (list_remove t k.ready_list)
  others_sorted =
      Descending-cong (priority_of k) (priority_of (thread_update_pri t k)) _
        (λ u m.
          ap (λ (th : Thread). th.priority)
            ((thread_update_pri_lem t k).1 u
              (λ e. ground (arith, count-remove u t k.ready_list, q.once t))))
        (remove-Descending (priority_of k) t k.ready_list q.sorted)

  moved_count :
      (less : ℕ → ℕ → Bool) (u : ℕ)
      → 0 < count t k.ready_list
      → count u (list_insert_ordered less t (list_remove t k.ready_list)) ≡ count u k.ready_list
  moved_count less u m =
      ground
        (arith, count-insert less u t (list_remove t k.ready_list), count-remove u t k.ready_list)

  idle-update_pri : k.idle_thread ≡ (thread_update_pri t k).idle_thread
  unfolding thread_update_pri
  idle-update_pri = refl

  list-update_pri : (thread_update_pri t k).ready_list ≡ k.ready_list
  unfolding thread_update_pri
  list-update_pri = refl

  moved-IsQueued :
      0 < count t k.ready_list
      → let j = thread_update_pri t k in
        IsQueued (record j {
          ready_list = list_insert_ordered (thread_cmp_pri j) t (list_remove t k.ready_list);
        })
  unfolding thread_cmp_pri
  moved-IsQueued m =
      let j = thread_update_pri t k in
      record {
        sorted = insert-Descending (priority_of j) t _ others_sorted;
        all_ready = λ u n.
            status-update_pri t u k ∙ q.all_ready u (rw (moved_count (thread_cmp_pri j) u m) at n);
        once = λ u. rw (moved_count (thread_cmp_pri j) u m) (q.once u);
        no_idle = λ i e. moved_count (thread_cmp_pri j) i m ∙ q.no_idle i (idle-update_pri ∙ e);
      }

  kept-IsQueued : count t k.ready_list ≡ 0 → IsQueued (thread_update_pri t k)
  kept-IsQueued z =
      let j = thread_update_pri t k in
      record {
        sorted = rw list-update_pri (
            Descending-cong (priority_of k) (priority_of j) k.ready_list
              (λ u m.
                ap (λ (th : Thread). th.priority)
                  ((thread_update_pri_lem t k).1 u (λ e. ground arith)))
              q.sorted);
        all_ready = λ u n. status-update_pri t u k ∙ q.all_ready u (rw list-update_pri at n);
        once = λ u. rw list-update_pri (q.once u);
        no_idle = λ i e. ap (count i) list-update_pri ∙ q.no_idle i (idle-update_pri ∙ e);
      }

-- If the ready list is in order, and the thread is on it if it is ready, then thread_donate_pri
-- leaves the ready list in the order of the new priorities, with the same threads on it.
pub thread_donate_pri_lem :
    (t : ℕ) (k : Kernel)
    → IsQueued k
    → (status_of k t ≡ Status.ready → 0 < count t k.ready_list)
    → let k' = thread_donate_pri t k in
      IsQueued k' × ((u : ℕ) → count u k'.ready_list ≡ count u k.ready_list)
unfolding thread_donate_pri thread_update_pri
thread_donate_pri_lem t k q listed =
    elim (Bool-cases (is_ready (status_of (thread_update_pri t k) t))) [
      | inl r ↦
          let m = listed (ground (arith, status-update_pri t t k)) in
          rw r (
            moved-IsQueued t k q m,
            λ u. moved_count t k q (thread_cmp_pri (thread_update_pri t k)) u m,
          )
      | inr n ↦
          let z : count t k.ready_list ≡ 0 =
            ground (arith, status-update_pri t t k, q.all_ready t) in
          rw n (kept-IsQueued t k q z, λ u. ap (count u) (list-update_pri t k q))
    ]
