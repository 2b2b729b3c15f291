-- ===== src/State.antt =====
-- The state of the kernel of pintos/src: `struct thread` and the globals of threads/thread.c, the
-- locks, semaphores and condition variables of threads/synch.c, and `ticks` of devices/timer.c.
--
-- A pointer is a number. Memory behind pointers of one type is a function. A semaphore has an
-- address of its own also where it lies inside a lock or a semaphore_elem; the latter is named by
-- the address of its semaphore. Fields that only the machine reads (name, stack, magic) are left
-- out, and so is the interrupt level: each function is one step, as it is with interrupts off.
use sustech_cs.Prelude.{ℕ, Bool, true, false, Option, List}
use sustech_cs.Prelude.Int.{ℤ}

pub data Status : Type 0 where
  running ready blocked dying : Status

pub record Thread : Type 0 where
  pub tid : ℕ
  pub status : Status
  pub priority : ℤ
  pub original_pri : ℤ
  pub b_tick : ℕ
  pub nice : ℤ
  pub recent_cpu : ℤ
  pub holding_locks : List ℕ
  pub waiting_lock : Option ℕ

pub record Semaphore : Type 0 where
  pub value : ℕ
  pub waiters : List ℕ

pub record Lock : Type 0 where
  pub holder : Option ℕ
  pub semaphore : ℕ
  pub max_pri : ℤ

pub record Kernel : Type 0 where
  pub thread : ℕ → Thread
  pub lock : ℕ → Lock
  pub sema : ℕ → Semaphore
  pub cond : ℕ → List ℕ
  pub ready_list : List ℕ
  pub all_list : List ℕ
  pub current : ℕ
  pub idle_thread : Option ℕ
  pub initial_thread : ℕ
  pub idle_ticks : ℕ
  pub kernel_ticks : ℕ
  pub thread_ticks : ℕ
  pub thread_mlfqs : Bool
  pub load_avg : ℤ
  pub ticks : ℕ
  pub in_interrupt : Bool
  pub yield_on_return : Bool
  pub freed : List ℕ

abbrev pub is_running : Status → Bool
is_running Status.running = true
is_running _ = false

abbrev pub is_ready : Status → Bool
is_ready Status.ready = true
is_ready _ = false

abbrev pub is_blocked : Status → Bool
is_blocked Status.blocked = true
is_blocked _ = false

abbrev pub is_dying : Status → Bool
is_dying Status.dying = true
is_dying _ = false
