-- ===== src/Tests/Machine.antt =====
-- A machine with seven threads: thread 0 runs, 1 is the idle thread, 2 and 3 are ready, 4 sleeps,
-- and 5 and 6 wait for the semaphore 0.
use sustech_cs.Prelude.{ℕ, ◌+◌, refl, false, none, some, [], ◌∷◌, arith, ◌==◌, if◌then◌else◌}
use sustech_cs.Prelude.Int.{pos}
use sustech_cs.State.{Status, Thread, Kernel}
use sustech_cs.Threads.Queue.{IsQueued, IsValid, Highest}

abbrev pub a_thread : Status → ℕ → ℕ → Thread
a_thread s p n = record {
  tid = 1;
  status = s;
  priority = pos p;
  original_pri = pos p;
  b_tick = n;
  nice = pos 0;
  recent_cpu = pos 0;
  holding_locks = [];
  waiting_lock = none;
}

abbrev pub machine : Kernel
machine = record {
  thread = λ t.
      if t == 0
      then a_thread Status.running 31 0
      else if t == 2
      then a_thread Status.ready 20 0
      else if t == 3
      then a_thread Status.ready 10 0
      else if t == 4
      then a_thread Status.blocked 50 2
      else if t == 5
      then a_thread Status.blocked 25 0
      else if t == 6
      then a_thread Status.blocked 33 0
      else a_thread Status.blocked 0 0;
  lock = λ l. record { holder = none; semaphore = l + 10; max_pri = pos (l + 40) };
  sema = λ s.
      if s == 0
      then record { value = 0; waiters = 5 ∷ 6 ∷ [] }
      else record { value = 1; waiters = [] };
  cond = λ c. [];
  ready_list = 2 ∷ 3 ∷ [];
  all_list = 0 ∷ 1 ∷ 2 ∷ 3 ∷ 4 ∷ 5 ∷ 6 ∷ [];
  current = 0;
  idle_thread = some 1;
  initial_thread = 0;
  idle_ticks = 0;
  kernel_ticks = 0;
  thread_ticks = 0;
  thread_mlfqs = false;
  load_avg = pos 0;
  ticks = 0;
  in_interrupt = false;
  yield_on_return = false;
  freed = [];
}

pub machine-IsQueued : IsQueued machine
machine-IsQueued = record {
  sorted = ((omega arith, tt), (tt, tt));
  all_ready = λ t m. ground (arith, m);
  once = λ t. ground arith;
  no_idle = λ i e. ground (arith, e);
}

pub machine-IsValid : IsValid machine
machine-IsValid = record {
  queued = machine-IsQueued;
  runs = refl;
  alone = λ t e. ground (arith, e);
}

pub machine-Highest : Highest machine
machine-Highest t m = ground (arith, m)
