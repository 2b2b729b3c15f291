-- ===== src/Synch/Wake.antt =====
-- What sema_up, sema_down and cond_signal do: who is woken, and where their ASSERTs fail.
use sustech_cs.Prelude.{
  ℕ, ◌+◌, ◌-◌, ◌<◌, ◌≡◌, ◌≢◌, refl, sym, ap, ◌∙◌, true, false, ◌⊎◌, inl, inr, none, some, List, [],
  ◌∷◌, arith, count, is_empty, if◌then◌else◌, ◌==◌, ◌>>=◌, Bool-cases, Option-cases, List-cases,
  if_true, if_false,
}
use sustech_cs.Prelude.Int.{◌≤ℤ◌}
use sustech_cs.Klist.{is_sorted}
use sustech_cs.Klist.Ordered.{above_asym, Descending, Descending-of_is_sorted, All-count}
use sustech_cs.Klist.Sort.{list_sort, list_sort_lem}
use sustech_cs.State.{Status, Semaphore, Kernel}
use sustech_cs.Threads.{put_back, thread_cmp_pri, thread_current, thread_unblock, thread_yield}
use sustech_cs.Threads.Queue.{IsValid, Highest, priority_of, status_of, Scheduled}
use sustech_cs.Threads.Switch.{unblocked, unblock-eq, unblocked-IsValid, thread_yield_lem}
use sustech_cs.Synch.{set_sema, sema_up, wake_first}

-- The scheduler's invariant is not about semaphores.
pub IsValid-sema : (s : ℕ) (x : Semaphore) (k : Kernel) → IsValid k → IsValid (set_sema s x k)
IsValid-sema s x k v = record {
  queued = record {
    sorted = v.queued.sorted;
    all_ready = v.queued.all_ready;
    once = v.queued.once;
    no_idle = v.queued.no_idle;
  };
  runs = v.runs;
  alone = v.alone;
}

-- Thread `t` has been woken by sema_up: it waited, no waiting thread had a higher priority, the
-- others go on waiting, and it is not asleep.
pub record Woken (s t : ℕ) (k k' : Kernel) : Type 0 where
  pub waited : 0 < count t (k.sema s).waiters
  pub first : (u : ℕ) → 0 < count u (k.sema s).waiters → priority_of k u ≤ℤ priority_of k t
  pub rest :
      (u : ℕ)
      → count u (k'.sema s).waiters
        ≡ (if t == u then count u (k.sema s).waiters - 1 else count u (k.sema s).waiters)
  pub awake : status_of k' t ≢ Status.blocked

nothing_lost : (l : List ℕ) → is_empty l ≡ false → ((u : ℕ) → count u l ≡ 0) → ⊥
nothing_lost [] n h = ground (arith, n)
nothing_lost (x ∷ l) n h = ground (arith, h x)

is_empty-eq : (l : List ℕ) → is_empty l ≡ true → l ≡ []
is_empty-eq [] h = refl
is_empty-eq (x ∷ l) h = ground (arith, h)

-- The waiters, sorted: one of the highest priority, and the others.
sorted_waiters :
    (k : Kernel) (l : List ℕ)
    → is_empty l ≡ false
    → (t : ℕ) × (r : List ℕ) × (list_sort (thread_cmp_pri k) l ≡ t ∷ r)
      × ((u : ℕ) → count u l ≡ count u (t ∷ r))
      × ((u : ℕ) → 0 < count u l → priority_of k u ≤ℤ priority_of k t)
unfolding thread_cmp_pri
sorted_waiters k l n =
    let (done, same) = list_sort_lem (thread_cmp_pri k) (above_asym (priority_of k)) l in
    elim (List-cases (list_sort (thread_cmp_pri k) l)) [
      | inl e ↦ absurd (nothing_lost l n (λ u. sym (same u) ∙ ap (count u) e))
      | inr (t, r, e) ↦
          let d : Descending (priority_of k) (t ∷ r) =
            Descending-of_is_sorted (priority_of k) (t ∷ r)
              (ap (is_sorted (thread_cmp_pri k)) (sym e) ∙ done) in
          let counts : (u : ℕ) → count u l ≡ count u (t ∷ r) = λ u. sym (same u) ∙ ap (count u) e in
          (
            t,
            r,
            e,
            counts,
            λ u w. elim (Bool-cases (t == u)) [
              | inl same ↦ ground (arith, same)
              | inr other ↦
                  All-count (λ x. priority_of k x ≤ℤ priority_of k t) u r d.0
                    (ground (arith, other, w, counts u))
            ],
          )
    ]

yield-sema : (k k' : Kernel) → Scheduled (put_back k.current k) k' → k'.sema ≡ k.sema
unfolding put_back
yield-sema k k' s = s.same_sema

yield-awake :
    (k k' : Kernel) (t : ℕ)
    → status_of k t ≡ Status.ready
    → Scheduled (put_back k.current k) k'
    → status_of k' t ≢ Status.blocked
unfolding put_back
yield-awake k k' t r s e = elim (Bool-cases (t == k'.current)) [
  | inl here ↦ ground (arith, here, e, s.valid.runs)
  | inr there ↦ ground (arith, there, e, r, s.others t)
]

thread_yield-interrupt : (k : Kernel) → k.in_interrupt ≡ true → thread_yield k ≡ none
unfolding thread_yield
thread_yield-interrupt k h = elim (Option-cases (thread_current k)) [
  | inl e ↦ rw (thread_yield, e) refl
  | inr (c, e) ↦ rw (thread_yield, e) (if_true _ _ h)
]

-- The state at the end of sema_up, before it yields.
abbrev raised : ℕ → Kernel → Kernel
raised s k = set_sema s (record (k.sema s) { value = (k.sema s).value + 1 }) k

wake_first-interrupt :
    (s : ℕ) (l : List ℕ) (k k' : Kernel)
    → wake_first s l k ≡ some k'
    → k'.in_interrupt ≡ k.in_interrupt
unfolding wake_first thread_unblock
wake_first-interrupt s [] k k' e = ground (arith, e)
wake_first-interrupt s (t ∷ l) k k' e = ground (arith, e)

-- sema_up outside an interrupt, from a valid state in which the waiting threads are blocked and
-- none of them is the idle thread, succeeds. It adds one to the value, and if there are waiting
-- threads it wakes one of the highest priority and leaves the others waiting. The state is valid
-- again, and no ready thread has a higher priority than the running one.
pub sema_up_lem :
    (s : ℕ) (k : Kernel)
    → IsValid k
    → k.in_interrupt ≡ false
    → ((t : ℕ)
        → 0 < count t (k.sema s).waiters
        → (status_of k t ≡ Status.blocked) × (k.idle_thread ≢ some t))
    → (k' : Kernel) × (sema_up s k ≡ some k')
      × IsValid k'
      × Highest k'
      × ((k'.sema s).value ≡ (k.sema s).value + 1)
      × (((k.sema s).waiters ≡ []) × ((k'.sema s).waiters ≡ []) ⊎ ((t : ℕ) × Woken s t k k'))
unfolding sema_up wake_first
sema_up_lem s k v out asleep = elim (Bool-cases (is_empty (k.sema s).waiters)) [
  | inl empty ↦
      let up = set_sema s (record (k.sema s) { value = (k.sema s).value + 1 }) k in
      let (k', e, sched) =
        thread_yield_lem up
          (IsValid-sema s (record (k.sema s) { value = (k.sema s).value + 1 }) k v) out in
      (
        k',
        ap (λ m. m >>= λ x. thread_yield (raised s x)) (if_true _ _ empty) ∙ e,
        sched.valid,
        sched.highest,
        ap (λ f. (f s).value) (yield-sema _ k' sched) ∙ ground arith,
        inl (
          is_empty-eq _ empty,
          ap (λ f. (f s).waiters) (yield-sema _ k' sched) ∙ ground (arith, is_empty-eq _ empty),
        ),
      )
  | inr waits ↦
      let (t, r, e, counts, top) = sorted_waiters k (k.sema s).waiters waits in
      let (b, busy) = asleep t (ground (arith, counts t)) in
      let rest : Semaphore = record (k.sema s) { waiters = r } in
      let less = set_sema s rest k in
      let woken = unblocked t less in
      let w = unblocked-IsValid t less (IsValid-sema s rest k v) b busy in
      let up : Semaphore = record (woken.sema s) { value = (woken.sema s).value + 1 } in
      let (k', done, sched) =
        thread_yield_lem (set_sema s up woken) (IsValid-sema s up woken w) out in
      (
        k',
        ap (λ m. m >>= λ x. thread_yield (raised s x))
              (if_false _ _ waits ∙ ap (λ l. wake_first s l k) e ∙ unblock-eq t less b)
            ∙ done,
        sched.valid,
        sched.highest,
        ap (λ f. (f s).value) (yield-sema _ k' sched) ∙ ground arith,
        inr (
          t,
          record {
            waited = ground (arith, counts t);
            first = top;
            rest = λ u.
                ap (λ f. count u (f s).waiters) (yield-sema _ k' sched) ∙ ground (arith, counts u);
            awake = yield-awake (set_sema s up woken) k' t (ground arith) sched;
          },
        ),
      )
]

-- In an interrupt sema_up always fails: it ends with thread_yield, which asserts that it is not
-- called from an interrupt handler.
sema_up_interrupt : (s : ℕ) (k : Kernel) → k.in_interrupt ≡ true → sema_up s k ≡ none
unfolding sema_up
sema_up_interrupt s k h = elim (Bool-cases (is_empty (k.sema s).waiters)) [
  | inl empty ↦ rw empty (thread_yield-interrupt (raised s k) h)
  | inr waits ↦
      elim (Option-cases (wake_first s (list_sort (thread_cmp_pri k) (k.sema s).waiters) k)) [
        | inl e ↦ rw (waits, e) refl
        | inr (k', e) ↦
            rw (waits, e)
              (thread_yield-interrupt (raised s k') (wake_first-interrupt s _ k k' e ∙ h))
      ]
]
