-- ===== src/Jobs/Tick.antt =====
-- A round of the scheduler loses no job and leaves one running.
use sustech_cs.Prelude.{
  ℕ, ◌<◌, ◌≡◌, ◌≢◌, refl, sym, ap, ◌∙◌, subst, ◌⊎◌, inl, inr, false, Option, none, some, List, [],
  ◌∷◌, ◌++◌, ltb, length, length-append, All, Bool-cases, List-cases, arith,
}
use sustech_cs.Jobs.{
  JobState, ready, running, done, is_done, JobInfo, Scheduler, all_waited, enqueue, updateall,
  take_out, jobselect, start, switch, reap, kill, sigstop, jobswitch, schedule_jobs,
}
use sustech_cs.Jobs.Select.{jobselect_lem}
use sustech_cs.Jobs.Count.{
  count_jid, jobs_of, alive, ticked, count_jid-append, count_jid-all_waited, all_waited-ready,
  All-split, enqueue-ready, count_jid-enqueue, count_jid-ticked, length-ticked, length-all_waited,
  count_jid-taken,
}

-- Between two rounds: the waiting jobs are ready, the current one is not, and none is to be next.
abbrev pub IsCurrent : Option JobInfo → Type 0
IsCurrent none = Unit
IsCurrent (some job) = job.state ≢ ready

pub record IsValid (s : Scheduler) : Type 0 where
  pub waiting : All (λ p. p.state ≡ ready) s.head
  pub active : IsCurrent s.current
  pub idle : s.next ≡ none

running_of : (state : JobState) → state ≢ ready → is_done state ≡ false → state ≡ running
running_of ready a b = absurd (a refl)
running_of running a b = refl
running_of done a b = cc

-- From the jobs that are alive to the state behind a round.
pub record Round (jobs : List JobInfo) (s : Scheduler) : Type 0 where
  pub valid : IsValid s
  pub kept : (j : ℕ) → count_jid j (alive s) ≡ count_jid j jobs
  pub progress :
      (length jobs ≡ 0) ⊎ ((job : JobInfo) × (s.current ≡ some job) × (job.state ≡ running))

running_not_ready : running ≢ ready
running_not_ready e = cc

Round-start :
    (job : JobInfo) (s : Scheduler)
    → All (λ p. p.state ≡ ready) s.head
    → Round (job ∷ s.head) (start job s)
Round-start job s a = record {
  valid = record { waiting = a; active = running_not_ready; idle = refl };
  kept = λ j. refl;
  progress = inr (record job { state = running }, refl, refl);
}

Round-cong :
    (jobs jobs' : List JobInfo) (s : Scheduler)
    → ((j : ℕ) → count_jid j jobs ≡ count_jid j jobs')
    → (length jobs ≡ 0 → length jobs' ≡ 0)
    → Round jobs s
    → Round jobs' s
Round-cong jobs jobs' s e n r = record {
  valid = r.valid;
  kept = λ j. r.kept j ∙ e j;
  progress = elim r.progress [ inl e ↦ inl (n e) | inr p ↦ inr p ];
}

Round-switch :
    (job next : JobInfo) (s : Scheduler)
    → All (λ p. p.state ≡ ready) s.head
    → next.state ≡ ready
    → Round (next ∷ job ∷ s.head) (switch job next s)
unfolding switch
Round-switch job next s a b =
    let stopped : JobInfo = record job { curpri = job.defpri; wait_time = 0; state = ready } in
    let s' = kill job.pid sigstop s in
    elim (Bool-cases (ltb next.curpri job.defpri)) [
      | inl stays ↦ rw stays (
          Round-cong (stopped ∷ enqueue next s.head) (next ∷ job ∷ s.head) _
            (λ j. ground (arith, count_jid-enqueue j next s.head)) (λ e. absurd (omega (arith, e)))
            (Round-start stopped (record s' { head = enqueue next s.head })
              (enqueue-ready next s.head a b)))
      | inr goes ↦ rw goes (
          Round-cong (next ∷ enqueue stopped s.head) (next ∷ job ∷ s.head) _
            (λ j. ground (arith, count_jid-enqueue j stopped s.head))
            (λ e. absurd (omega (arith, e)))
            (Round-start next (record s' { head = enqueue stopped s.head })
              (enqueue-ready stopped s.head a refl)))
    ]

-- jobswitch where a job is next.
jobswitch-next :
    (current : Option JobInfo) (next : JobInfo) (s : Scheduler)
    → All (λ p. p.state ≡ ready) s.head
    → next.state ≡ ready
    → Round
        (next ∷ jobs_of (reap current) ++ s.head)
        (jobswitch (record s { current = current; next = some next }))
unfolding jobswitch
jobswitch-next none next s a b = Round-start next (record s { current = none; next = some next }) a
jobswitch-next (some job) next s a b = elim (Bool-cases (is_done job.state)) [
  | inl over ↦
      rw (jobswitch, over) (Round-start next (record s { current = none; next = some next }) a)
  | inr on ↦ rw (jobswitch, on) (Round-switch job next _ a b)
]

no_jobs-ready : (l : List JobInfo) → l ≡ [] → All (λ p. p.state ≡ ready) l
no_jobs-ready [] e = tt
no_jobs-ready (p ∷ l) e = absurd cc

Round-idle : (s : Scheduler) → s.head ≡ [] → Round s.head (record s { current = none; next = none })
Round-idle s e = record {
  valid = record { waiting = no_jobs-ready s.head e; active = tt; idle = refl };
  kept = λ j. refl;
  progress = inl (ap length e);
}

-- jobswitch where none is next, as no job waits.
jobswitch-none :
    (current : Option JobInfo) (s : Scheduler)
    → s.head ≡ []
    → IsCurrent current
    → Round
        (jobs_of (reap current) ++ s.head)
        (jobswitch (record s { current = current; next = none }))
unfolding jobswitch
jobswitch-none none s e c = Round-idle s e
jobswitch-none (some job) s e c = elim (Bool-cases (is_done job.state)) [
  | inl over ↦ rw (jobswitch, over) (Round-idle s e)
  | inr on ↦
      rw (jobswitch, on)
        (record {
          valid = record { waiting = no_jobs-ready s.head e; active = c; idle = refl };
          kept = λ j. rw on refl;
          progress = inr (job, refl, running_of job.state c on);
        })
]

ticked-IsCurrent : (c : Option JobInfo) → IsCurrent c → IsCurrent (ticked c)
unfolding ticked
ticked-IsCurrent none h = h
ticked-IsCurrent (some job) h = h

jobselect-none : (s : Scheduler) → s.head ≡ [] → jobselect s ≡ (none, s)
unfolding jobselect
jobselect-none s e = rw (jobselect, e) (ap (λ l. (none, record s { head = (take_out 0 l).1 })) e)

-- The selection and the switch.
Round-select :
    (s : Scheduler)
    → All (λ p. p.state ≡ ready) s.head
    → IsCurrent s.current
    → (let (job, s') = jobselect s in Round (alive s) (jobswitch (record s' { next = job })))
Round-select s a c =
    let P =
      λ (r : Option JobInfo × Scheduler). Round (alive s) (jobswitch (record r.1 { next = r.0 })) in
    elim (List-cases s.head) [
      | inl e ↦ subst P (sym (jobselect-none s e)) (jobswitch-none s.current s e c)
      | inr (p, l, e) ↦
          let some_job : 0 < length s.head = omega (arith, ap length e) in
          let (before, job, behind, split, selected, best) = jobselect_lem s some_job in
          let rest = record s { head = before ++ behind } in
          let (b, bs) = All-split before job behind (subst (All (λ p. p.state ≡ ready)) split a) in
          let current = jobs_of (reap s.current) in
          subst P (sym selected) (
            Round-cong (job ∷ current ++ (before ++ behind)) (alive s) _
              (λ j. count_jid-taken j current before job behind s.head split)
              (λ e. absurd (omega (arith, e))) (jobswitch-next s.current job rest bs b))
    ]

pub schedule_jobs_lem : (s : Scheduler) → IsValid s → Round (alive s) (schedule_jobs s)
unfolding schedule_jobs updateall ticked
schedule_jobs_lem s v =
    let s1 = updateall s in
    Round-cong (alive s1) (alive s) _
      (λ j. omega (
        arith,
        count_jid-append j (jobs_of (reap (ticked s.current))) (all_waited s.head),
        count_jid-append j (jobs_of (reap s.current)) s.head,
        count_jid-ticked j s.current,
        count_jid-all_waited j s.head,
      ))
      (λ h. omega (
        arith,
        h,
        length-append (jobs_of (reap (ticked s.current))) (all_waited s.head),
        length-append (jobs_of (reap s.current)) s.head,
        length-ticked s.current,
        length-all_waited s.head,
      ))
      (Round-select s1 (all_waited-ready s.head v.waiting) (ticked-IsCurrent s.current v.active))
