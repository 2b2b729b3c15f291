-- ===== src/Jobs/Count.antt =====
-- The jobs of the scheduler, counted by their numbers.
use sustech_cs.Prelude.{
  ℕ, suc, ◌+◌, ◌≡◌, refl, ap, inl, inr, Option, none, some, List, [], ◌∷◌, ◌++◌, ◌==◌, length, All,
  Bool-cases, arith, if◌then◌else◌,
}
use sustech_cs.Jobs.{ready, is_done, JobInfo, Scheduler, all_waited, enqueue, reap}

-- How many jobs of a list have a number, and how many of all jobs.
abbrev pub count_jid : ℕ → List JobInfo → ℕ
count_jid j [] = 0
count_jid j (p ∷ l) = if p.jid == j then suc (count_jid j l) else count_jid j l

abbrev pub jobs_of : Option JobInfo → List JobInfo
jobs_of none = []
jobs_of (some job) = job ∷ []

-- The jobs that are not done: those that wait, and the current one.
abbrev pub alive : Scheduler → List JobInfo
alive s = jobs_of (reap s.current) ++ s.head

pub count_jid-append :
    (j : ℕ) (l l' : List JobInfo) → count_jid j (l ++ l') ≡ count_jid j l + count_jid j l'
count_jid-append j [] l' = omega arith
count_jid-append j (p ∷ l) l' = ground (arith, count_jid-append j l l')

pub count_jid-all_waited : (j : ℕ) (l : List JobInfo) → count_jid j (all_waited l) ≡ count_jid j l
count_jid-all_waited j [] = refl
count_jid-all_waited j (p ∷ l) = ground (arith, count_jid-all_waited j l)

pub count_jid-split :
    (j : ℕ) (before : List JobInfo) (job : JobInfo) (behind : List JobInfo)
    → count_jid j (before ++ job ∷ behind) ≡ count_jid j (job ∷ before ++ behind)
count_jid-split j [] job behind = refl
count_jid-split j (p ∷ before) job behind = ground (arith, count_jid-split j before job behind)

pub all_waited-ready :
    (l : List JobInfo) → All (λ p. p.state ≡ ready) l → All (λ p. p.state ≡ ready) (all_waited l)
all_waited-ready [] a = a
all_waited-ready (p ∷ l) (a, rest) = (a, all_waited-ready l rest)

pub All-split :
    (before : List JobInfo) (job : JobInfo) (behind : List JobInfo)
    → All (λ p. p.state ≡ ready) (before ++ job ∷ behind)
    → All (λ p. p.state ≡ ready) (job ∷ before ++ behind)
All-split [] job behind a = a
All-split (p ∷ before) job behind (a, rest) =
    let (b, rest') = All-split before job behind rest in (b, (a, rest'))

pub enqueue-ready :
    (job : JobInfo) (l : List JobInfo)
    → All (λ p. p.state ≡ ready) l
    → job.state ≡ ready
    → All (λ p. p.state ≡ ready) (enqueue job l)
enqueue-ready job [] a b = (b, tt)
enqueue-ready job (p ∷ l) (a, rest) b = (a, enqueue-ready job l rest b)

pub count_jid-enqueue :
    (j : ℕ) (job : JobInfo) (l : List JobInfo) → count_jid j (enqueue job l) ≡ count_jid j (job ∷ l)
count_jid-enqueue j job [] = refl
count_jid-enqueue j job (p ∷ l) = ground (arith, count_jid-enqueue j job l)

-- updateall changes no number and no state.
unfoldable pub ticked : Option JobInfo → Option JobInfo
ticked c = elim c [ none ↦ none | some job ↦ some (record job { run_time = job.run_time + 1 }) ]

pub count_jid-ticked :
    (j : ℕ) (c : Option JobInfo)
    → count_jid j (jobs_of (reap (ticked c))) ≡ count_jid j (jobs_of (reap c))
unfolding ticked
count_jid-ticked j none = refl
count_jid-ticked j (some job) = elim (Bool-cases (is_done job.state)) [
  | inl over ↦ rw over refl
  | inr on ↦ rw on refl
]

pub length-ticked :
    (c : Option JobInfo) → length (jobs_of (reap (ticked c))) ≡ length (jobs_of (reap c))
unfolding ticked
length-ticked none = refl
length-ticked (some job) = elim (Bool-cases (is_done job.state)) [
  | inl over ↦ rw over refl
  | inr on ↦ rw on refl
]

pub length-all_waited : (l : List JobInfo) → length (all_waited l) ≡ length l
length-all_waited [] = refl
length-all_waited (p ∷ l) = ap suc (length-all_waited l)

pub count_jid-taken :
    (j : ℕ) (current before : List JobInfo) (job : JobInfo) (behind head : List JobInfo)
    → head ≡ before ++ job ∷ behind
    → count_jid j (job ∷ current ++ (before ++ behind)) ≡ count_jid j (current ++ head)
count_jid-taken j current before job behind head split = ground (
  arith,
  count_jid-append j current (before ++ behind),
  count_jid-append j current head,
  count_jid-split j before job behind,
  ap (count_jid j) split,
)
