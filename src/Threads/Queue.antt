-- ===== src/Threads/Queue.antt =====
-- The ready list: the invariant of the scheduler, and that the running thread is never outranked by
-- a ready one after a switch.
use sustech_cs.Prelude.{
  ℕ, ◌≤◌, ◌<◌, ◌≡◌, ◌≢◌, refl, sym, ap, ◌∙◌, false, ◌⊎◌, inl, inr, Option, none, some, List, [],
  ◌∷◌, arith, count, All, if◌then◌else◌, ◌==◌, update, Option-cases, List-cases, is_empty, subst,
}
use sustech_cs.Prelude.Int.{ℤ, ◌≤ℤ◌}
use sustech_cs.Klist.{list_insert_ordered}
use sustech_cs.Klist.Ordered.{
  Descending, above, insert-Descending, count-insert, Descending-cong, All-count,
}
use sustech_cs.State.{Status, Kernel}
use sustech_cs.Threads.{
  set_status, thread_cmp_pri, thread_current, schedule, thread_schedule_tail, next_thread_to_run,
}

abbrev pub priority_of : Kernel → ℕ → ℤ
priority_of k t = (k.thread t).priority

abbrev pub status_of : Kernel → ℕ → Status
status_of k t = (k.thread t).status

-- The ready list holds ready threads, each once, from the highest priority to the lowest, and never
-- the idle thread.
pub record IsQueued (k : Kernel) : Type 0 where
  pub sorted : Descending (priority_of k) k.ready_list
  pub all_ready : (t : ℕ) → 0 < count t k.ready_list → status_of k t ≡ Status.ready
  pub once : (t : ℕ) → count t k.ready_list ≤ 1
  pub no_idle : (i : ℕ) → k.idle_thread ≡ some i → count i k.ready_list ≡ 0

-- In between two switches the current thread, and no other, is running.
pub record IsValid (k : Kernel) : Type 0 where
  pub queued : IsQueued k
  pub runs : status_of k k.current ≡ Status.running
  pub alone : (t : ℕ) → status_of k t ≡ Status.running → t ≡ k.current

-- No ready thread has a higher priority than the running one.
abbrev pub Highest : Kernel → Type 0
Highest k = (t : ℕ) → 0 < count t k.ready_list → priority_of k t ≤ℤ priority_of k k.current

-- What a call of schedule makes of `k`: a valid state in which the thread that was at the head of
-- the ready list runs, or the idle thread if the list was empty; no ready thread outranks it, the
-- other threads are as they were, of the one that runs only the status has changed, and the
-- semaphores, the list of all threads, the idle thread and the choice of the scheduler are the same.
pub record Scheduled (k k' : Kernel) : Type 0 where
  pub valid : IsValid k'
  pub highest : Highest k'
  pub picks :
      (k.ready_list ≡ k'.current ∷ k'.ready_list)
      ⊎ (k.ready_list ≡ []) × (k'.ready_list ≡ []) × (k.idle_thread ≡ some k'.current)
  pub others : (t : ℕ) → t ≢ k'.current → k'.thread t ≡ k.thread t
  pub kept : (t : ℕ) → k'.thread t ≡ record (k.thread t) { status = status_of k' t }
  pub same_sema : k'.sema ≡ k.sema
  pub same_all : k'.all_list ≡ k.all_list
  pub same_idle : k'.idle_thread ≡ k.idle_thread
  pub same_mlfqs : k'.thread_mlfqs ≡ k.thread_mlfqs

-- A list that a switch may leave: sorted, below `n`, without `n`, and part of the ready list.
record IsRest (k : Kernel) (n : ℕ) (rest : List ℕ) : Type 0 where
  sorted : Descending (priority_of k) rest
  below : All (λ t. priority_of k t ≤ℤ priority_of k n) rest
  absent : count n rest ≡ 0
  part : (t : ℕ) → count t rest ≤ count t k.ready_list

-- A change of status changes no priority.
priority-set_status :
    (t u : ℕ) (s : Status) (k : Kernel)
    → (update k.thread t (record (k.thread t) { status = s }) u).priority ≡ (k.thread u).priority
priority-set_status t u s k = ground arith

status-set_status :
    (t u : ℕ) (s : Status) (k : Kernel)
    → (update k.thread t (record (k.thread t) { status = s }) u).status
      ≡ (if t == u then s else (k.thread u).status)
status-set_status t u s k = ground arith

module _ (k : Kernel) (q : IsQueued k) (stopped : (t : ℕ) → status_of k t ≢ Status.running) where
  -- The state after a switch to `n`.
  switched-IsValid :
      (prev : Option ℕ) (n : ℕ) (rest : List ℕ)
      → IsRest k n rest
      → let k' = thread_schedule_tail prev (record k { ready_list = rest; current = n }) in
        IsValid k' × Highest k'
  unfolding thread_schedule_tail
  switched-IsValid prev n rest r = (
    record {
      queued = record {
        sorted =
            Descending-cong (priority_of k) _ rest (λ t m. priority-set_status n t Status.running k)
              r.sorted;
        all_ready = λ t m. ground (arith, q.all_ready t, r.part t, r.absent);
        once = λ t. omega (arith, q.once t, r.part t);
        no_idle = λ i e. omega (arith, q.no_idle i e, r.part i);
      };
      runs = ground arith;
      alone = λ t e. ground (arith, stopped t);
    },
    λ t m. ground (arith, All-count (λ u. priority_of k u ≤ℤ priority_of k n) t rest r.below m),
  )

  IsRest-of_head : (n : ℕ) (rest : List ℕ) → k.ready_list ≡ n ∷ rest → IsRest k n rest
  IsRest-of_head n rest e =
      let d : Descending (priority_of k) (n ∷ rest) =
        subst (Descending (priority_of k)) e q.sorted in
      record {
        sorted = d.1;
        below = d.0;
        absent = ground (arith, q.once n, e);
        part = λ t. ground (arith, e);
      }

  IsRest-of_idle : (n : ℕ) → IsRest k n []
  IsRest-of_idle n = record { sorted = tt; below = tt; absent = refl; part = λ t. omega arith }

  switched_frame :
      (prev : Option ℕ) (n : ℕ) (rest : List ℕ) (t : ℕ)
      → let k' = thread_schedule_tail prev (record k { ready_list = rest; current = n }) in
        (t ≢ n → k'.thread t ≡ k.thread t)
        × (k'.thread t ≡ record (k.thread t) { status = status_of k' t })
  unfolding thread_schedule_tail
  switched_frame prev n rest t = (λ d. ground arith, ground arith)

  -- schedule succeeds if there is a thread to switch to.
  pub schedule_lem :
      (is_empty k.ready_list ≡ false) ⊎ (k.idle_thread ≢ none)
      → (k' : Kernel) × (schedule k ≡ some k') × Scheduled k k'
  unfolding schedule next_thread_to_run thread_schedule_tail
  schedule_lem h = elim (List-cases k.ready_list) [
    | inr (n, rest, e) ↦ (
      switch_to n rest,
      ground (arith, stopped k.current),
      record {
        valid = (switched-IsValid (left n) n rest (IsRest-of_head n rest e)).0;
        highest = (switched-IsValid (left n) n rest (IsRest-of_head n rest e)).1;
        picks = inl e;
        others = λ t. (switched_frame (left n) n rest t).0;
        kept = λ t. (switched_frame (left n) n rest t).1;
        same_sema = refl;
        same_all = refl;
        same_idle = refl;
        same_mlfqs = refl;
      },
    )
    | inl e ↦ elim (Option-cases k.idle_thread) [
      | inl no_idle ↦ absurd (ground arith)
      | inr (i, idle) ↦ (
        switch_to i [],
        ground (arith, stopped k.current),
        record {
          valid = (switched-IsValid (left i) i [] (IsRest-of_idle i)).0;
          highest = (switched-IsValid (left i) i [] (IsRest-of_idle i)).1;
          picks = inr (e, refl, idle);
          others = λ t. (switched_frame (left i) i [] t).0;
          kept = λ t. (switched_frame (left i) i [] t).1;
          same_sema = refl;
          same_all = refl;
          same_idle = refl;
          same_mlfqs = refl;
        },
      )
    ]
  ]
    where
      left : ℕ → Option ℕ
      left n = if k.current == n then none else some k.current

      switch_to : ℕ → List ℕ → Kernel
      switch_to n rest = thread_schedule_tail (left n) (record k { ready_list = rest; current = n })

-- Putting a thread that is in no list on the ready list, as thread_unblock and thread_yield do.
pub enqueue-IsQueued :
    (k : Kernel) (t : ℕ)
    → IsQueued k
    → count t k.ready_list ≡ 0
    → k.idle_thread ≢ some t
    → IsQueued (
        set_status t Status.ready
          (record k { ready_list = list_insert_ordered (thread_cmp_pri k) t k.ready_list }))
unfolding thread_cmp_pri
enqueue-IsQueued k t q out busy = record {
  sorted =
      Descending-cong (priority_of k) _ _ (λ u m. priority-set_status t u Status.ready k)
        (insert-Descending (priority_of k) t k.ready_list q.sorted);
  all_ready =
      λ u m. ground (arith, q.all_ready u, count-insert (above (priority_of k)) u t k.ready_list);
  once = λ u. ground (arith, q.once u, count-insert (above (priority_of k)) u t k.ready_list);
  no_idle =
      λ i e. ground (arith, q.no_idle i e, count-insert (above (priority_of k)) i t k.ready_list);
}

-- Another status for a thread that is not on the ready list.
pub leave-IsQueued :
    (k : Kernel) (t : ℕ) (s : Status)
    → IsQueued k
    → count t k.ready_list ≡ 0
    → IsQueued (set_status t s k)
leave-IsQueued k t s q out = record {
  sorted = Descending-cong (priority_of k) _ _ (λ u m. priority-set_status t u s k) q.sorted;
  all_ready = λ u m. ground (arith, q.all_ready u);
  once = q.once;
  no_idle = q.no_idle;
}

-- A valid state stays valid if what the scheduler reads of it stays.
pub IsValid-cong :
    (k k' : Kernel)
    → ((t : ℕ) → status_of k' t ≡ status_of k t)
    → ((t : ℕ) → priority_of k' t ≡ priority_of k t)
    → k'.ready_list ≡ k.ready_list
    → k'.current ≡ k.current
    → k'.idle_thread ≡ k.idle_thread
    → IsValid k
    → IsValid k'
IsValid-cong k k' st pr rl cu id v = record {
  queued = record {
    sorted = subst (Descending (priority_of k')) (sym rl) (
        Descending-cong (priority_of k) (priority_of k') k.ready_list (λ t m. pr t)
          v.queued.sorted);
    all_ready = λ t m. st t ∙ v.queued.all_ready t (subst (λ l. 0 < count t l) rl m);
    once = λ t. subst (λ l. count t l ≤ 1) (sym rl) (v.queued.once t);
    no_idle = λ i e. ap (count i) rl ∙ v.queued.no_idle i (sym id ∙ e);
  };
  runs = ap (status_of k') cu ∙ st k.current ∙ v.runs;
  alone = λ t e. v.alone t (sym (st t) ∙ e) ∙ sym cu;
}

module _ (k : Kernel) (v : IsValid k) where
  -- The running thread is not on the ready list.
  pub current_out : count k.current k.ready_list ≡ 0
  current_out = ground (arith, v.queued.all_ready k.current, v.runs)

  pub current_lem : thread_current k ≡ some k.current
  unfolding thread_current
  current_lem = ground (arith, v.runs)

  pub stopped_lem :
      (s : Status)
      → s ≢ Status.running
      → (l : List ℕ) (t : ℕ)
      → status_of (set_status k.current s (record k { ready_list = l })) t ≢ Status.running
  stopped_lem s h l t e = ground (arith, v.alone t)
