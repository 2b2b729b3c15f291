-- ===== src/Jobs/Schedule.antt =====
-- The whole of schedule: a command, and a round.
use sustech_cs.Prelude.{
  ◌≡◌, ℕ, suc, true, ◌+◌, ◌-◌, refl, sym, ◌∙◌, Bool, false, not, ◌&&◌, ◌⊎◌, if◌then◌else◌, length,
  arith, Bool-cases, inl, inr, List, [], ◌∷◌, ◌==◌, Option, none, some, All,
}
use sustech_cs.Jobs.{
  JobInfo, is_done, reap, running, Scheduler, ready, enq, deq, stat, Command, command, do_enq,
  do_deq, enqueue, allocjid, remove_jid, schedule,
}
use sustech_cs.Jobs.Count.{
  count_jid, jobs_of, alive, count_jid-append, count_jid-enqueue, enqueue-ready,
}
use sustech_cs.Jobs.Tick.{IsValid, schedule_jobs_lem}

All-remove_jid :
    (jid : ℕ) (l : List JobInfo)
    → All (λ p. p.state ≡ ready) l
    → All (λ p. p.state ≡ ready) (remove_jid jid l)
All-remove_jid jid [] a = a
All-remove_jid jid (p ∷ l) (a, rest) = elim (Bool-cases (p.jid == jid)) [
  | inl this ↦ rw this rest
  | inr other ↦ rw other (a, All-remove_jid jid l rest)
]

enq-IsValid : (defpri pid : ℕ) (s : Scheduler) → IsValid s → IsValid (do_enq defpri pid s)
unfolding do_enq allocjid
enq-IsValid defpri pid s v = record {
  waiting = enqueue-ready _ s.head v.waiting refl;
  active = v.active;
  idle = v.idle;
}

-- do_deq by the job that is current.
deq-current :
    (current : Option JobInfo) (jid : ℕ) (s : Scheduler)
    → IsValid (record s { current = current })
    → IsValid (do_deq jid (record s { current = current }))
unfolding do_deq
deq-current none jid s v = record {
  waiting = All-remove_jid jid s.head v.waiting;
  active = tt;
  idle = v.idle;
}
deq-current (some job) jid s v = elim (Bool-cases (job.jid == jid)) [
  | inl this ↦ rw (do_deq, this) (record { waiting = v.waiting; active = tt; idle = v.idle })
  | inr other ↦
      rw (do_deq, other)
        (record { waiting = All-remove_jid jid s.head v.waiting; active = v.active; idle = v.idle })
]

command-IsValid : (cmd : Command) (s : Scheduler) → IsValid s → IsValid (command cmd s)
command-IsValid (enq defpri pid) s v = enq-IsValid defpri pid s v
command-IsValid (deq jid) s v = deq-current s.current jid s v
command-IsValid stat s v = v

-- Whether the job that is current has a number, and is done.
abbrev pub is_over : ℕ → Option JobInfo → Bool
is_over jid none = false
is_over jid (some job) = (job.jid == jid) && is_done job.state

-- How many jobs of the number `j` there are to be behind a command: enq makes one of the next
-- number, and deq takes one away, if there is one, but where the job of the number is current and
-- done.
abbrev pub meant : Command → Scheduler → ℕ → ℕ
meant (enq defpri pid) s j = count_jid j (alive s) + (if (s.jobid + 1) == j then 1 else 0)
meant (deq jid) s j =
    count_jid j (alive s) - (if (jid == j) && not (is_over jid s.current) then 1 else 0)
meant stat s j = count_jid j (alive s)

count_jid-remove_jid :
    (j jid : ℕ) (l : List JobInfo)
    → count_jid j (remove_jid jid l) ≡ count_jid j l - (if jid == j then 1 else 0)
count_jid-remove_jid j jid [] = omega arith
count_jid-remove_jid j jid (p ∷ l) = ground (arith, count_jid-remove_jid j jid l)

do_deq-count :
    (current : Option JobInfo) (jid j : ℕ) (s : Scheduler)
    → count_jid j (alive (do_deq jid (record s { current = current })))
      ≡ meant (deq jid) (record s { current = current }) j
unfolding do_deq
do_deq-count none jid j s = ground (arith, count_jid-remove_jid j jid s.head)
do_deq-count (some job) jid j s = elim (Bool-cases (job.jid == jid)) [
  | inl this ↦ elim (Bool-cases (is_done job.state)) [
    | inl over ↦ rw (do_deq, this, over) (ground arith)
    | inr on ↦ rw (do_deq, this, on) (ground arith)
  ]
  | inr other ↦ elim (Bool-cases (is_done job.state)) [
    | inl over ↦ rw (do_deq, other, over) (ground (arith, count_jid-remove_jid j jid s.head))
    | inr on ↦ rw (do_deq, other, on) (ground (arith, count_jid-remove_jid j jid s.head))
  ]
]

-- A job that is put at the end counts for one more.
one_more :
    (c e h a : ℕ) (b : Bool)
    → e ≡ (if b then suc h else h)
    → a ≡ c + h
    → c + e ≡ a + (if b then 1 else 0)
one_more c e h a true f g = omega (arith, f, g)
one_more c e h a false f g = omega (arith, f, g)

command-count :
    (cmd : Command) (s : Scheduler) (j : ℕ) → count_jid j (alive (command cmd s)) ≡ meant cmd s j
unfolding do_enq allocjid
command-count (enq defpri pid) s j =
    let current = jobs_of (reap s.current) in
    let newjob : JobInfo = record {
      jid = s.jobid + 1;
      pid = pid;
      defpri = defpri;
      curpri = defpri;
      wait_time = 0;
      run_time = 0;
      state = ready;
    } in
    count_jid-append j current (enqueue newjob s.head)
    ∙ one_more (count_jid j current) (count_jid j (enqueue newjob s.head)) (count_jid j s.head)
        (count_jid j (alive s)) ((s.jobid + 1) == j) (count_jid-enqueue j newjob s.head)
        (count_jid-append j current s.head)
command-count (deq jid) s j = do_deq-count s.current jid j s
command-count stat s j = refl

count_jid-nothing : (j : ℕ) (l : List JobInfo) → length l ≡ 0 → count_jid j l ≡ 0
count_jid-nothing j [] e = refl
count_jid-nothing j (p ∷ l) e = absurd (omega (arith, e))

-- schedule, with any command, from a state in which the waiting jobs are ready, the current one is
-- not, and none is to be next: of each number there are as many jobs that are not done as there
-- were, with one more of the next number for enq, and one less of its number for deq, if there is
-- one and it is not a current job that is done; the state is such a state again; and unless there
-- is none, one is running.
pub schedule_lem :
    (cmd : Command) (s : Scheduler)
    → IsValid s
    → (let s' = schedule cmd s in
        IsValid s'
        × ((j : ℕ) → count_jid j (alive s') ≡ meant cmd s j)
        × (((j : ℕ) → meant cmd s j ≡ 0)
            ⊎ ((job : JobInfo) × (s'.current ≡ some job) × (job.state ≡ running))))
unfolding schedule
schedule_lem cmd s v =
    let round = schedule_jobs_lem (command cmd s) (command-IsValid cmd s v) in
    (
      round.valid,
      λ j. round.kept j ∙ command-count cmd s j,
      elim round.progress [
        | inl e ↦ inl (λ j. sym (command-count cmd s j) ∙ count_jid-nothing j _ e)
        | inr p ↦ inr p
      ],
    )
