-- ===== src/Tests/Jobs.antt =====
-- Three waiting jobs and one that runs, and the theorems on them.
use sustech_cs.Prelude.{ℕ, ◌≡◌, ◌≢◌, ◌≤◌, ◌⊎◌, refl, some, none, List, [], ◌∷◌, ◌++◌, arith, All}
use sustech_cs.Jobs.{JobInfo, Scheduler, ready, running, jobselect, enq, schedule}
use sustech_cs.Jobs.Select.{jobselect_lem}
use sustech_cs.Jobs.Count.{count_jid, alive}
use sustech_cs.Jobs.Tick.{IsValid}
use sustech_cs.Jobs.Schedule.{meant, schedule_lem}

abbrev a_job : ℕ → ℕ → JobInfo
a_job jid pri = record {
  jid = jid;
  pid = 100;
  defpri = pri;
  curpri = pri;
  wait_time = 4;
  run_time = 0;
  state = ready;
}

abbrev queue : Scheduler
queue = record {
  head = a_job 1 2 ∷ a_job 2 3 ∷ a_job 3 1 ∷ [];
  next = none;
  current = some (record (a_job 4 0) { state = running });
  jobid = 4;
  signals = [];
}

running_isnt_ready : running ≢ ready
running_isnt_ready e = cc

queue-IsValid : IsValid queue
queue-IsValid = record {
  waiting = (refl, (refl, (refl, tt)));
  active = running_isnt_ready;
  idle = refl;
}

jobselect_example :
    (before : List JobInfo) × (job : JobInfo) × (behind : List JobInfo) × (queue.head
      ≡ before ++ job ∷ behind)
    × (jobselect queue ≡ (some job, record queue { head = before ++ behind }))
    × All (λ p. p.curpri ≤ job.curpri) queue.head
jobselect_example = jobselect_lem queue (omega arith)

schedule_example :
    let s' = schedule (enq 2 101) queue in
    IsValid s'
    × ((j : ℕ) → count_jid j (alive s') ≡ meant (enq 2 101) queue j)
    × (((j : ℕ) → meant (enq 2 101) queue j ≡ 0)
        ⊎ ((job : JobInfo) × (s'.current ≡ some job) × (job.state ≡ running)))
schedule_example = schedule_lem (enq 2 101) queue queue-IsValid
