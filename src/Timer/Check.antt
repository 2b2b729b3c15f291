-- ===== src/Timer/Check.antt =====
-- What one timer interrupt does to the threads that sleep.
use sustech_cs.Prelude.{
  ℕ, zero, suc, ◌+◌, ◌-◌, ◌≡◌, ◌≢◌, refl, sym, true, false, ◌&&◌, some, List, [], ◌∷◌, arith, count,
  if◌then◌else◌, ◌==◌, Bool-cases, ltb, leb, if_true, if_false, ◌∙◌, ap, inl, inr,
}
use sustech_cs.State.{Status, Thread, Kernel, is_blocked}
use sustech_cs.Threads.{
  set_thread, thread_foreach, thread_tick, thread_current, is_idle, time_slice,
}
use sustech_cs.Threads.Queue.{status_of, IsValid, IsValid-cong}
use sustech_cs.Threads.Switch.{unblocked, unblock-eq, unblocked-IsValid}
use sustech_cs.Timer.{thread_b_check, timer_interrupt}

abbrev pub b_tick_of : Kernel → ℕ → ℕ
b_tick_of k t = (k.thread t).b_tick

-- What one round of thread_b_check makes of a thread's record.
abbrev pub slept : Thread → Thread
slept th =
    if is_blocked th.status && ltb 0 th.b_tick
    then record th {
      b_tick = th.b_tick - 1;
      status = if th.b_tick - 1 == 0 then Status.ready else th.status;
    }
    else th

abbrev pub slept_times : ℕ → Thread → Thread
slept_times zero th = th
slept_times (suc n) th = slept_times n (slept th)

-- The idle thread does not sleep.
abbrev pub IsAwake : Kernel → Type 0
IsAwake k = (t : ℕ) → k.idle_thread ≡ some t → b_tick_of k t ≡ 0

-- What a step changes of the parts of the state that matter to sleeping threads: the threads, each
-- by itself.
pub record Passed (f : ℕ → Thread → Thread) (k k' : Kernel) : Type 0 where
  pub each : (t : ℕ) → k'.thread t ≡ f t (k.thread t)
  pub same_all : k'.all_list ≡ k.all_list
  pub same_current : k'.current ≡ k.current
  pub same_idle : k'.idle_thread ≡ k.idle_thread
  pub same_mlfqs : k'.thread_mlfqs ≡ k.thread_mlfqs
  pub kept : IsValid k → IsAwake k → IsValid k'

awake_blocked :
    (th : Thread) → (is_blocked th.status && ltb 0 th.b_tick) ≡ true → th.status ≡ Status.blocked
awake_blocked th h = ground arith

abbrev one_less : ℕ → Kernel → Kernel
one_less u k = set_thread u (record (k.thread u) { b_tick = (k.thread u).b_tick - 1 }) k

one_less-status : (u t : ℕ) (k : Kernel) → status_of (one_less u k) t ≡ status_of k t
one_less-status u t k = ground arith

one_less-IsValid : (u : ℕ) (k : Kernel) → IsValid k → IsAwake k → IsValid (one_less u k)
one_less-IsValid u k v q =
    IsValid-cong k (one_less u k) (λ t. one_less-status u t k) (λ t. ground arith) refl refl refl v

sleeper : (th : Thread) → (is_blocked th.status && ltb 0 th.b_tick) ≡ true → th.b_tick ≢ 0
sleeper th h e = ground (arith, h, e)

still : (u t : ℕ) (th : Thread) → th.b_tick ≡ 0 → (if u == t then slept th else th).b_tick ≡ 0
still u t th e = ground (arith, e)

check_lem :
    (u : ℕ) (k : Kernel)
    → (k' : Kernel) × (thread_b_check u k ≡ some k')
      × Passed (λ t th. if u == t then slept th else th) k k'
unfolding thread_b_check
check_lem u k = elim (Bool-cases (is_blocked (status_of k u) && ltb 0 (b_tick_of k u))) [
  | inr awake ↦ (
    k,
    rw awake,
    record {
      each = λ t. ground arith;
      same_all = refl;
      same_current = refl;
      same_idle = refl;
      same_mlfqs = refl;
      kept = λ v q. v;
    },
  )
  | inl asleep ↦ elim (Bool-cases (b_tick_of k u - 1 == 0)) [
    | inr more ↦ (
      one_less u k,
      rw (asleep, more),
      record {
        each = λ t. ground arith;
        same_all = refl;
        same_current = refl;
        same_idle = refl;
        same_mlfqs = refl;
        kept = one_less-IsValid u k;
      },
    )
    | inl over ↦ (
      unblocked u (one_less u k),
      (if_true _ _ asleep)
          ∙ (if_true _ _ over)
          ∙ unblock-eq u (one_less u k) (one_less-status u u k ∙ awake_blocked (k.thread u) asleep),
      record {
        each = λ t. ground arith;
        same_all = refl;
        same_current = refl;
        same_idle = refl;
        same_mlfqs = refl;
        kept = λ v q.
            unblocked-IsValid u (one_less u k) (one_less-IsValid u k v q)
              (one_less-status u u k ∙ awake_blocked (k.thread u) asleep)
              (λ e. sleeper (k.thread u) asleep (q u e));
      },
    )
  ]
]

foreach_lem :
    (l : List ℕ) (k : Kernel)
    → (k' : Kernel) × (thread_foreach thread_b_check l k ≡ some k')
      × Passed (λ t. slept_times (count t l)) k k'
unfolding thread_foreach
foreach_lem [] k = (
  k,
  refl,
  record {
    each = λ t. refl;
    same_all = refl;
    same_current = refl;
    same_idle = refl;
    same_mlfqs = refl;
    kept = λ v q. v;
  },
)
foreach_lem (u ∷ l) k =
    let (k1, e1, p1) = check_lem u k in
    let (k2, e2, p2) = foreach_lem l k1 in
    (
      k2,
      rw e1 e2,
      record {
        each = λ t. p2.each t ∙ ap (slept_times (count t l)) (p1.each t) ∙ again u t l (k.thread t);
        same_all = p2.same_all ∙ p1.same_all;
        same_current = p2.same_current ∙ p1.same_current;
        same_idle = p2.same_idle ∙ p1.same_idle;
        same_mlfqs = p2.same_mlfqs ∙ p1.same_mlfqs;
        kept = λ v q. p2.kept (p1.kept v q) (λ t e.
            ap (λ th. th.b_tick) (p1.each t) ∙ still u t (k.thread t) (q t (sym p1.same_idle ∙ e)));
      },
    )
  where
    again :
        (u t : ℕ) (l : List ℕ) (th : Thread)
        → slept_times (count t l) (if u == t then slept th else th)
          ≡ slept_times (count t (u ∷ l)) th
    again u t l th = elim (Bool-cases (u == t)) [
      | inl same ↦ rw same refl
      | inr other ↦ rw other refl
    ]

pub slept_times-awake : (n : ℕ) (th : Thread) → is_blocked th.status ≡ false → slept_times n th ≡ th
slept_times-awake zero th e = refl
slept_times-awake (suc n) th e = ap (slept_times n) (rw e refl) ∙ slept_times-awake n th e

-- The state after thread_tick, where `counted` has one tick more on record.
abbrev ticked : Kernel → Kernel → Kernel
ticked counted k = record counted {
  thread_ticks = k.thread_ticks + 1;
  yield_on_return = if leb time_slice (k.thread_ticks + 1) then true else k.yield_on_return;
}

thread_tick_lem :
    (k : Kernel)
    → status_of k k.current ≡ Status.running
    → (k' : Kernel) × (thread_tick k ≡ some k') × Passed (λ t th. th) k k'
unfolding thread_tick thread_current
thread_tick_lem k runs = elim (Bool-cases (is_idle k k.current)) [
  | inl idle ↦ (
    ticked (record k { idle_ticks = k.idle_ticks + 1 }) k,
    simp (runs, idle),
    record {
      each = λ t. refl;
      same_all = refl;
      same_current = refl;
      same_idle = refl;
      same_mlfqs = refl;
      kept = λ v q.
          IsValid-cong k (ticked (record k { idle_ticks = k.idle_ticks + 1 }) k) (λ t. refl)
            (λ t. refl) refl refl refl v;
    },
  )
  | inr busy ↦ (
    ticked (record k { kernel_ticks = k.kernel_ticks + 1 }) k,
    simp (runs, busy),
    record {
      each = λ t. refl;
      same_all = refl;
      same_current = refl;
      same_idle = refl;
      same_mlfqs = refl;
      kept = λ v q.
          IsValid-cong k (ticked (record k { kernel_ticks = k.kernel_ticks + 1 }) k) (λ t. refl)
            (λ t. refl) refl refl refl v;
    },
  )
]

-- Without the feedback queue, a timer interrupt is a round of thread_b_check over all threads.
pub tick_lem :
    (k : Kernel)
    → status_of k k.current ≡ Status.running
    → k.thread_mlfqs ≡ false
    → (k' : Kernel) × (timer_interrupt k ≡ some k')
      × Passed (λ t. slept_times (count t k.all_list)) k k'
unfolding timer_interrupt
tick_lem k runs off =
    let (k1, e1, p1) = thread_tick_lem (record k { ticks = k.ticks + 1 }) runs in
    let (k2, e2, p2) = foreach_lem k1.all_list k1 in
    (
      k2,
      rw (e1, e2) (if_false _ _ (p2.same_mlfqs ∙ p1.same_mlfqs ∙ off)),
      record {
        each = λ t.
            p2.each t
            ∙ ap (slept_times (count t k1.all_list)) (p1.each t)
            ∙ ap (λ l. slept_times (count t l) (k.thread t)) p1.same_all;
        same_all = p2.same_all ∙ p1.same_all;
        same_current = p2.same_current ∙ p1.same_current;
        same_idle = p2.same_idle ∙ p1.same_idle;
        same_mlfqs = p2.same_mlfqs ∙ p1.same_mlfqs;
        kept = λ v q.
            p2.kept
              (p1.kept
                (IsValid-cong k (record k { ticks = k.ticks + 1 }) (λ t. refl) (λ t. refl) refl refl
                  refl v)
                q)
              (λ t e. ap (λ th. th.b_tick) (p1.each t) ∙ q t (sym p1.same_idle ∙ e));
      },
    )
