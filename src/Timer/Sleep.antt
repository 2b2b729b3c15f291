-- ===== src/Timer/Sleep.antt =====
-- Sleeping: how many timer interrupts a thread sleeps through.
use sustech_cs.Prelude.{
  ℕ, zero, suc, ◌-◌, ◌≤◌, ◌<◌, ◌≡◌, ◌≢◌, refl, sym, false, inl, inr, ◌⊎◌, Option, some, arith,
  count, ◌>>=◌, ◌∙◌, ap,
}
use sustech_cs.State.{Status, Thread, Kernel}
use sustech_cs.Threads.Queue.{status_of, IsValid}
use sustech_cs.Timer.{intr_handler}
use sustech_cs.Timer.Check.{b_tick_of, IsAwake, slept, slept_times}
use sustech_cs.Timer.Handler.{handler_lem}

-- A run of timer interrupts, with the switches of threads that they make, and in which no thread
-- does anything in between.
abbrev pub interrupts : ℕ → Kernel → Option Kernel
interrupts zero k = some k
interrupts (suc m) k = intr_handler k >>= interrupts m

slept_times-still : (n : ℕ) (th : Thread) → th.b_tick ≡ 0 → (slept_times n th).b_tick ≡ 0
slept_times-still zero th e = e
slept_times-still (suc n) th e = slept_times-still n (slept th) (ground (arith, e))

slept-up : (th : Thread) → th.status ≢ Status.blocked → (slept th).status ≢ Status.blocked
slept-up th d e = ground (arith, d, e)

-- The last tick, and one before.
slept-last :
    (th : Thread) → th.b_tick ≡ 1 → th.status ≡ Status.blocked → (slept th).status ≡ Status.ready
slept-last th e b = ground (arith, e, b)

slept-more :
    (n : ℕ) (th : Thread)
    → th.b_tick ≡ suc (suc n)
    → th.status ≡ Status.blocked
    → ((slept th).status ≡ Status.blocked) × ((slept th).b_tick ≡ suc n)
slept-more n th e b = (ground (arith, e, b), ground (arith, e, b))

number-cases : (n : ℕ) → (n ≡ 0) ⊎ ((i : ℕ) × (n ≡ suc i))
number-cases zero = inl refl
number-cases (suc i) = inr (i, refl)

-- What a run does to one thread.
interrupts_lem :
    (m t : ℕ) (k : Kernel)
    → IsValid k
    → IsAwake k
    → k.thread_mlfqs ≡ false
    → k.idle_thread ≢ some t
    → count t k.all_list ≡ 1
    → (k' : Kernel) × (interrupts m k ≡ some k')
      × IsValid k'
      × ((n : ℕ)
          → status_of k t ≡ Status.blocked
          → b_tick_of k t ≡ suc n
          → (m ≤ n → (status_of k' t ≡ Status.blocked) × (b_tick_of k' t ≡ suc n - m))
            × (n < m → status_of k' t ≢ Status.blocked))
      × (status_of k t ≢ Status.blocked → status_of k' t ≢ Status.blocked)
interrupts_lem zero t k v q off other once =
    (k, refl, v, λ n b e. (λ h. (b, omega (arith, e)), λ h. absurd (omega (arith, h))), λ d. d)
interrupts_lem (suc m) t k v q off other once =
    let (k1, e1, h) = handler_lem k v q off in
    let awake : IsAwake k1 = λ u idle.
      h.ticks u
      ∙ slept_times-still (count u k.all_list) (k.thread u) (q u (sym h.same_idle ∙ idle)) in
    let (k2, e2, v2, asleep, up) =
      interrupts_lem m t k1 h.valid awake (h.same_mlfqs ∙ off) (λ i. other (sym h.same_idle ∙ i))
        (ap (count t) h.same_all ∙ once) in
    let now : slept_times (count t k.all_list) (k.thread t) ≡ slept (k.thread t) =
      ap (λ c. slept_times c (k.thread t)) once in
    let up1 : (slept (k.thread t)).status ≢ Status.blocked → status_of k1 t ≢ Status.blocked =
      λ d. h.up t (λ f. d (sym (ap (λ th. th.status) now) ∙ f)) in
    (
      k2,
      rw e1 e2,
      v2,
      λ n b e. elim (number-cases n) [
        | inl last ↦
            let ready = slept-last (k.thread t) (e ∙ ap suc last) b in
            let woken =
              up (up1 (λ f. let g : Status.ready ≡ Status.blocked = sym ready ∙ f in cc)) in
            (λ le. absurd (omega (arith, le, last)), λ lt. woken)
        | inr (n', more) ↦
            let (b', e') = slept-more n' (k.thread t) (e ∙ ap suc more) b in
            let (before, after) =
              asleep n' (h.asleep t other (ap (λ th. th.status) now ∙ b'))
                (h.ticks t ∙ ap (λ th. th.b_tick) now ∙ e') in
            (
              λ le. let (s, l) = before (omega (arith, le, more)) in (s, l ∙ omega (arith, more)),
              λ lt. after (omega (arith, lt, more)),
            )
      ],
      λ d. up (up1 (slept-up (k.thread t) d)),
    )

-- From a valid state, without the feedback queue, and where the idle thread does not sleep: a
-- thread other than the idle one, which is on the list of all threads once, and which sleeps with n
-- + 1 ticks to go, stays blocked through the first n of the following timer interrupts, with one
-- tick less to go after each, and is not blocked any more after n + 1 and more of them, if no
-- thread does anything in between. None of the interrupts fails, the switches of threads that they
-- make included, and the state is valid after them.
pub interrupts-wake :
    (m n t : ℕ) (k : Kernel)
    → IsValid k
    → IsAwake k
    → k.thread_mlfqs ≡ false
    → k.idle_thread ≢ some t
    → count t k.all_list ≡ 1
    → status_of k t ≡ Status.blocked
    → b_tick_of k t ≡ suc n
    → (k' : Kernel) × (interrupts m k ≡ some k')
      × IsValid k'
      × (m ≤ n → (status_of k' t ≡ Status.blocked) × (b_tick_of k' t ≡ suc n - m))
      × (n < m → status_of k' t ≢ Status.blocked)
interrupts-wake m n t k v q off other once b e =
    let (k', eq, v', asleep, up) = interrupts_lem m t k v q off other once in
    (k', eq, v', λ h. (asleep n b e).0 h, (asleep n b e).1)
