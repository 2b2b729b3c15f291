-- ===== src/Timer/Handler.antt =====
-- What one interrupt of the timer does to the threads, with the switch that it may end in.
use sustech_cs.Prelude.{
  ℕ, ◌<◌, ◌≡◌, ◌≢◌, refl, sym, subst, true, false, inl, inr, some, arith, ◌==◌, eq_of_==, ne_of_==,
  count, Bool-cases, if_true, if_false, ◌∙◌, ap,
}
use sustech_cs.State.{Status, Kernel}
use sustech_cs.Threads.{put_back}
use sustech_cs.Threads.Queue.{status_of, IsValid, IsValid-cong, Scheduled}
use sustech_cs.Threads.Switch.{put_back-IsQueued, thread_yield_lem}
use sustech_cs.Timer.{intr_handler}
use sustech_cs.Timer.Check.{b_tick_of, IsAwake, slept_times, tick_lem}

-- What a timer interrupt leaves of the threads: each has slept, and may have been switched.
pub record Handled (k k' : Kernel) : Type 0 where
  pub valid : IsValid k'
  pub same_all : k'.all_list ≡ k.all_list
  pub same_idle : k'.idle_thread ≡ k.idle_thread
  pub same_mlfqs : k'.thread_mlfqs ≡ k.thread_mlfqs
  pub ticks : (t : ℕ) → b_tick_of k' t ≡ (slept_times (count t k.all_list) (k.thread t)).b_tick
  pub asleep :
      (t : ℕ)
      → k.idle_thread ≢ some t
      → (slept_times (count t k.all_list) (k.thread t)).status ≡ Status.blocked
      → status_of k' t ≡ Status.blocked
  pub up :
      (t : ℕ)
      → (slept_times (count t k.all_list) (k.thread t)).status ≢ Status.blocked
      → status_of k' t ≢ Status.blocked

put_back-thread :
    (k : Kernel) (t : ℕ) → t ≢ k.current → (put_back k.current k).thread t ≡ k.thread t
unfolding put_back
put_back-thread k t d = ground arith

put_back-up :
    (k : Kernel) (t : ℕ)
    → status_of k t ≢ Status.blocked
    → status_of (put_back k.current k) t ≢ Status.blocked
unfolding put_back
put_back-up k t d e = ground (arith, d, e)

put_back-ticks : (k : Kernel) (t : ℕ) → b_tick_of (put_back k.current k) t ≡ b_tick_of k t
unfolding put_back
put_back-ticks k t = ground arith

module _ (k k' : Kernel) (v : IsValid k) (s : Scheduled (put_back k.current k) k') where
  same_idle_thread : (put_back k.current k).idle_thread ≡ k.idle_thread
  unfolding put_back
  same_idle_thread = refl

  -- A thread that is blocked is not switched to, but the idle thread.
  yield-asleep :
      (t : ℕ)
      → k.idle_thread ≢ some t
      → status_of k t ≡ Status.blocked
      → status_of k' t ≡ Status.blocked
  yield-asleep t other b =
      let away : t ≢ k.current =
        λ e. absurd (let c : status_of k t ≡ Status.running = ap (status_of k) e ∙ v.runs in cc) in
      let before : status_of (put_back k.current k) t ≡ Status.blocked =
        ap (λ th. th.status) (put_back-thread k t away) ∙ b in
      let not_next : t ≢ k'.current = λ e. elim s.picks [
        | inl first ↦
            let ready =
              (put_back-IsQueued k v).all_ready k'.current
                (subst (λ l. 0 < count k'.current l) (sym first) (ground arith)) in
            let ready' : status_of (put_back k.current k) t ≡ Status.ready =
              ap (status_of (put_back k.current k)) e ∙ ready in
            absurd cc
        | inr (no_ready, rest, idle) ↦
            absurd (other (sym same_idle_thread ∙ idle ∙ ap some (sym e)))
      ] in
      ap (λ th. th.status) (s.others t not_next) ∙ before

  yield-up : (t : ℕ) → status_of k t ≢ Status.blocked → status_of k' t ≢ Status.blocked
  yield-up t d e = elim (Bool-cases (t == k'.current)) [
    | inl same ↦ let runs = ap (status_of k') (eq_of_== _ _ same) ∙ s.valid.runs in absurd cc
    | inr other ↦
        put_back-up k t d (sym (ap (λ th. th.status) (s.others t (ne_of_== _ _ other))) ∙ e)
  ]

  yield-ticks : (t : ℕ) → b_tick_of k' t ≡ b_tick_of k t
  yield-ticks t = ap (λ th. th.b_tick) (s.kept t) ∙ put_back-ticks k t

put_back-all : (k : Kernel) → (put_back k.current k).all_list ≡ k.all_list
unfolding put_back
put_back-all k = refl

put_back-mlfqs : (k : Kernel) → (put_back k.current k).thread_mlfqs ≡ k.thread_mlfqs
unfolding put_back
put_back-mlfqs k = refl

pub handler_lem :
    (k : Kernel)
    → IsValid k
    → IsAwake k
    → k.thread_mlfqs ≡ false
    → (k' : Kernel) × (intr_handler k ≡ some k') × Handled k k'
unfolding intr_handler
handler_lem k v q off =
    let k0 = record k { in_interrupt = true; yield_on_return = false } in
    let v0 : IsValid k0 = IsValid-cong k k0 (λ t. refl) (λ t. refl) refl refl refl v in
    let (mid, e, p) = tick_lem k0 v.runs off in
    let k1 = record mid { in_interrupt = false } in
    let v1 : IsValid k1 =
      IsValid-cong mid k1 (λ t. refl) (λ t. refl) refl refl refl (p.kept v0 q) in
    elim (Bool-cases k1.yield_on_return) [
      | inr on ↦ (
        k1,
        rw e (if_false _ _ on),
        record {
          valid = v1;
          same_all = p.same_all;
          same_idle = p.same_idle;
          same_mlfqs = p.same_mlfqs;
          ticks = λ t. ap (λ th. th.b_tick) (p.each t);
          asleep = λ t other b. ap (λ th. th.status) (p.each t) ∙ b;
          up = λ t d b. d (sym (ap (λ th. th.status) (p.each t)) ∙ b);
        },
      )
      | inl yields ↦
          let (k', done, s) = thread_yield_lem k1 v1 refl in
          (
            k',
            rw e (if_true _ _ yields) ∙ done,
            record {
              valid = s.valid;
              same_all = s.same_all ∙ put_back-all k1 ∙ p.same_all;
              same_idle = s.same_idle ∙ same_idle_thread k1 k' v1 s ∙ p.same_idle;
              same_mlfqs = s.same_mlfqs ∙ put_back-mlfqs k1 ∙ p.same_mlfqs;
              ticks = λ t. yield-ticks k1 k' v1 s t ∙ ap (λ th. th.b_tick) (p.each t);
              asleep = λ t other b.
                  yield-asleep k1 k' v1 s t (λ f. other (sym p.same_idle ∙ f))
                    (ap (λ th. th.status) (p.each t) ∙ b);
              up =
                  λ t d. yield-up k1 k' v1 s t (λ b. d (sym (ap (λ th. th.status) (p.each t)) ∙ b));
            },
          )
    ]
