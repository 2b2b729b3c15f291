-- ===== src/Jobs.antt =====
-- lab4/scheduler.c: the job scheduler of the fourth exercise. The waiting jobs are a list, and
-- priorities are not negative, as enq.c lets only 0 to 3 pass. Processes are there by the signals
-- that are sent to them.
pub mod Select
pub mod Count
pub mod Tick
pub mod Schedule
use sustech_cs.Prelude.{
  ℕ, zero, suc, ◌+◌, Bool, true, false, Option, none, some, List, [], ◌∷◌, ◌++◌, ltb, ◌==◌,
  if◌then◌else◌,
}
use sustech_cs.Prelude.Int.{ℤ, pos, negsuc, ltb_ℤ, eqb_ℤ}

pub data JobState : Type 0 where
  ready : JobState
  running : JobState
  done : JobState

abbrev pub is_done : JobState → Bool
is_done ready = false
is_done running = false
is_done done = true

-- struct jobinfo, without the command, the owner and the time of creation.
pub record JobInfo : Type 0 where
  pub jid : ℕ
  pub pid : ℕ
  pub defpri : ℕ
  pub curpri : ℕ
  pub wait_time : ℕ
  pub run_time : ℕ
  pub state : JobState

-- The globals, and what kill was called with, the last call first.
pub record Scheduler : Type 0 where
  pub head : List JobInfo
  pub next : Option JobInfo
  pub current : Option JobInfo
  pub jobid : ℕ
  pub signals : List (ℕ × ℕ)

-- The numbers of the signals.
abbrev pub sigterm : ℕ
sigterm = 15

abbrev pub sigcont : ℕ
sigcont = 18

abbrev pub sigstop : ℕ
sigstop = 19

abbrev pub kill : ℕ → ℕ → Scheduler → Scheduler
kill pid sig s = record s { signals = (pid, sig) ∷ s.signals }

abbrev pub waited : JobInfo → JobInfo
waited p = record p {
  wait_time = p.wait_time + 1;
  curpri = if ltb p.curpri 3 then p.curpri + 1 else p.curpri;
}

abbrev pub all_waited : List JobInfo → List JobInfo
all_waited [] = []
all_waited (p ∷ l) = waited p ∷ all_waited l

unfoldable pub updateall : Scheduler → Scheduler
updateall s = record s {
  current = elim s.current [
    | none ↦ none
    | some job ↦ some (record job { run_time = job.run_time + 1 })
  ];
  head = all_waited s.head;
}

-- The loop of jobselect from the job of number `i` on: the number of the job that is selected.
abbrev pub select_from : List JobInfo → ℕ → ℤ → ℤ → Option ℕ → Option ℕ
select_from [] i highest highest_wait select = select
select_from (p ∷ l) i highest highest_wait select =
    let higher = select_from l (suc i) (pos p.curpri) highest_wait (some i) in
    let longer = select_from l (suc i) highest (pos p.wait_time) (some i) in
    let other = select_from l (suc i) highest highest_wait select in
    if ltb_ℤ highest (pos p.curpri)
    then higher
    else if eqb_ℤ (pos p.curpri) highest
    then (if ltb_ℤ highest_wait (pos p.wait_time) then longer else other)
    else other

-- The job of a number, and the list without it.
abbrev pub take_out : ℕ → List JobInfo → Option JobInfo × List JobInfo
take_out i [] = (none, [])
take_out zero (p ∷ l) = (some p, l)
take_out (suc i) (p ∷ l) = let (job, rest) = take_out i l in (job, p ∷ rest)

-- If there are jobs and none is selected, the first one is taken off the list.
unfoldable pub jobselect : Scheduler → Option JobInfo × Scheduler
jobselect s = elim (select_from s.head 0 (negsuc 0) (negsuc 0) none) [
  | none ↦ (none, record s { head = (take_out 0 s.head).1 })
  | some i ↦ let (job, rest) = take_out i s.head in (job, record s { head = rest })
]

abbrev pub start : JobInfo → Scheduler → Scheduler
start job s =
    kill job.pid sigcont (record s { current = some (record job { state = running }); next = none })

-- The loops to the end of the list in jobswitch and do_enq.
abbrev pub enqueue : JobInfo → List JobInfo → List JobInfo
enqueue job [] = job ∷ []
enqueue job (p ∷ l) = p ∷ enqueue job l

-- The branch of jobswitch in which there is a job to go on with and a job to stop.
unfoldable pub switch : JobInfo → JobInfo → Scheduler → Scheduler
switch current next s =
    let stopped : JobInfo = record current {
      curpri = current.defpri;
      wait_time = 0;
      state = ready;
    } in
    let s' = kill current.pid sigstop s in
    if ltb next.curpri stopped.curpri
    then start stopped (record s' { head = enqueue next s'.head })
    else start next (record s' { head = enqueue stopped s'.head })

-- The first step of jobswitch: a job that is done is removed.
abbrev pub reap : Option JobInfo → Option JobInfo
reap none = none
reap (some job) = if is_done job.state then none else some job

unfoldable pub jobswitch : Scheduler → Scheduler
jobswitch s =
    let current = reap s.current in
    let s' = record s { current = current } in
    elim s.next [
      | none ↦ s'
      | some next ↦ elim current [ none ↦ start next s' | some job ↦ switch job next s' ]
    ]

-- The part of schedule behind the switch over the command.
unfoldable pub schedule_jobs : Scheduler → Scheduler
schedule_jobs s = let (job, s') = jobselect (updateall s) in jobswitch (record s' { next = job })

unfoldable pub allocjid : Scheduler → ℕ × Scheduler
allocjid s = (s.jobid + 1, record s { jobid = s.jobid + 1 })

-- What do_enq does to the list of jobs, where fork returns `pid`.
unfoldable pub do_enq : ℕ → ℕ → Scheduler → Scheduler
do_enq defpri pid s =
    let (jid, s') = allocjid s in
    let newjob : JobInfo = record {
      jid = jid;
      pid = pid;
      defpri = defpri;
      curpri = defpri;
      wait_time = 0;
      run_time = 0;
      state = ready;
    } in
    record s' { head = enqueue newjob s'.head }

-- do_deq of the job of number `jid` takes the first such job off the list.
abbrev pub remove_jid : ℕ → List JobInfo → List JobInfo
remove_jid jid [] = []
remove_jid jid (p ∷ l) = let rest = remove_jid jid l in if p.jid == jid then l else p ∷ rest

-- It calls kill with the signal where the process is meant.
unfoldable pub do_deq : ℕ → Scheduler → Scheduler
do_deq jid s =
    let waiting = record s { head = remove_jid jid s.head } in
    elim s.current [
      | none ↦ waiting
      | some job ↦
          if job.jid == jid then record (kill sigterm job.pid s) { current = none } else waiting
    ]

-- The commands of the fifo; do_stat prints, and no command is `stat` too.
pub data Command : Type 0 where
  enq : ℕ → ℕ → Command
  deq : ℕ → Command
  stat : Command

abbrev pub command : Command → Scheduler → Scheduler
command (enq defpri pid) s = do_enq defpri pid s
command (deq jid) s = do_deq jid s
command stat s = s

unfoldable pub schedule : Command → Scheduler → Scheduler
schedule cmd s = schedule_jobs (command cmd s)
