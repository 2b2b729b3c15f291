-- ===== src/Mlfqs/Bounds.antt =====
-- The feedback queue: ranges of the load average and of the priorities, where no computation in 32
-- bits overflows, and where one does.
use sustech_cs.Prelude.{
  ℕ, suc, ◌+◌, ◌-◌, ◌*◌, ◌/◌, ◌^◌, ◌≤◌, ◌<◌, ◌≡◌, ◌≢◌, true, false, some, arith, ◌||◌, not, ==_refl,
  ap, ◌∙◌, ltb, if◌then◌else◌,
}
use sustech_cs.Prelude.Int.{ℤ, pos, negsuc, ◌≤ℤ◌, ◌*ℤ◌, sub_ℕ}
use sustech_cs.FixedPoint.{int32, shr16, fp_mult_mix, fp_int_part, fp_round}
use sustech_cs.FixedPoint.Round.{
  const-pos, mult_mix-pos, add-pos, div_mix-pos, shr16_mono, twice-pos, twice-negsuc, sub-pos,
  sub_mix-pos, sub_mix-negsuc, round-pos, round-negsuc,
}
use sustech_cs.State.{Kernel}
use sustech_cs.Threads.{pri_min, pri_max, is_idle, thread_current}
use sustech_cs.Mlfqs.{
  clamp_pri, mlfqs_pri, thread_mlfqs_pri_update, next_load_avg, thread_get_recent_cpu,
}

-- If the load average is from 0 to n in fixed point, for an n of at most 500, and at most n threads
-- are to run, then its next value is 59/60 of it plus 1/60 of the number of threads, each term
-- rounded down and none wrapped around, and is at most n again.
next_load_avg_bounds :
    (a r n : ℕ)
    → a ≤ n * 65536
    → r ≤ n
    → n ≤ 500
    → (next_load_avg (pos a) r ≡ pos (a * 59 / 60 + r * 65536 / 60))
      × (a * 59 / 60 + r * 65536 / 60 ≤ n * 65536)
unfolding next_load_avg
next_load_avg_bounds a r n ha hr hn = (
  rw (
    mult_mix-pos a 59 (omega arith),
    div_mix-pos (a * 59) 60 (omega arith),
    const-pos r (omega arith),
    div_mix-pos (r * 65536) 60 (omega arith),
    add-pos (a * 59 / 60) (r * 65536 / 60) (omega arith),
  ),
  omega arith,
)

clamp_bounds : (p : ℤ) → (pri_min ≤ℤ clamp_pri p) × (clamp_pri p ≤ℤ pri_max)
clamp_bounds p = ground arith

updated :
    (t : ℕ) (k : Kernel)
    → (is_idle k t || not k.thread_mlfqs) ≡ false
    → ((thread_mlfqs_pri_update t k).thread t).priority
      ≡ clamp_pri (mlfqs_pri (k.thread t).recent_cpu (k.thread t).nice)
unfolding thread_mlfqs_pri_update
updated t k e = rw (e, ==_refl t)

-- No step overflows: the priority is PRI_MAX - recent_cpu / 4 - nice * 2, rounded down.
mlfqs_pri-pos :
    (c i : ℕ)
    → c < 2 ^ 31
    → i ≤ 20
    → mlfqs_pri (pos c) (pos i) ≡ shr16 (sub_ℕ 4128768 (c / 4 + 2 * i * 65536))
unfolding mlfqs_pri fp_int_part
mlfqs_pri-pos c i h hi = rw (
  const-pos 63 (omega arith),
  div_mix-pos c 4 (omega arith),
  twice-pos i (omega arith),
  sub-pos (63 * 65536) (c / 4) (omega arith) (omega arith),
  sub_mix-pos (63 * 65536) (c / 4) (2 * i) (omega arith) (omega arith),
)

mlfqs_pri-negsuc :
    (c i : ℕ)
    → c < 2 ^ 31
    → i < 20
    → mlfqs_pri (pos c) (negsuc i) ≡ shr16 (sub_ℕ (4128768 + suc (2 * i + 1) * 65536) (c / 4))
unfolding mlfqs_pri fp_int_part
mlfqs_pri-negsuc c i h hi = rw (
  const-pos 63 (omega arith),
  div_mix-pos c 4 (omega arith),
  twice-negsuc i (omega arith),
  sub-pos (63 * 65536) (c / 4) (omega arith) (omega arith),
  sub_mix-negsuc (63 * 65536) (c / 4) (2 * i + 1) (omega arith) (omega arith),
)

clamp_inside-pos : (a b : ℕ) → a ≤ 4128768 → clamp_pri (shr16 (sub_ℕ a b)) ≡ pos ((a - b) / 65536)
unfolding shr16
clamp_inside-pos a b h = ground (arith, h)

clamp_inside-negsuc :
    (a b : ℕ)
    → clamp_pri (shr16 (sub_ℕ a b)) ≡ pos (if ltb 63 ((a - b) / 65536) then 63 else (a - b) / 65536)
unfolding shr16
clamp_inside-negsuc a b = ground arith

formula-pos :
    (r n : ℤ) (c i : ℕ)
    → c < 2 ^ 31
    → i ≤ 20
    → r ≡ pos c
    → n ≡ pos i
    → clamp_pri (mlfqs_pri r n) ≡ pos ((63 * 65536 - (c / 4 + 2 * i * 65536)) / 65536)
formula-pos r n c i h hi e f =
    ap (λ r. clamp_pri (mlfqs_pri r n)) e
    ∙ ap (λ n. clamp_pri (mlfqs_pri (pos c) n)) f
    ∙ ap clamp_pri (mlfqs_pri-pos c i h hi)
    ∙ clamp_inside-pos _ _ (omega arith)

formula-negsuc :
    (r n : ℤ) (c i : ℕ)
    → c < 2 ^ 31
    → r ≡ pos c
    → n ≡ negsuc i
    → i ≤ 19
    → (let q = (63 * 65536 + 2 * (i + 1) * 65536 - c / 4) / 65536 in
        clamp_pri (mlfqs_pri r n) ≡ pos (if ltb 63 q then 63 else q))
formula-negsuc r n c i h e f less =
    ap (λ r. clamp_pri (mlfqs_pri r n)) e
    ∙ ap (λ n. clamp_pri (mlfqs_pri (pos c) n)) f
    ∙ ap clamp_pri (mlfqs_pri-negsuc c i h (omega (arith, less)))
    ∙ clamp_inside-negsuc _ _
    ∙ ap (λ a. pos (if ltb 63 ((a - c / 4) / 65536) then 63 else (a - c / 4) / 65536)) (omega arith)

-- thread_mlfqs_pri_update of a thread that is not the idle one, with the feedback queue on, gives
-- it a priority between PRI_MIN and PRI_MAX. If its recent_cpu is not negative and its nice from -20
-- to 20, this is PRI_MAX - recent_cpu / 4 - nice * 2 in fixed point, rounded down, where it is not
-- below 0 or above PRI_MAX, and 0 or PRI_MAX where it is.
pub thread_mlfqs_pri_update_bounds :
    (t : ℕ) (k : Kernel)
    → k.thread_mlfqs ≡ true
    → k.idle_thread ≢ some t
    → let p = ((thread_mlfqs_pri_update t k).thread t).priority in
      let th = k.thread t in
      (pri_min ≤ℤ p)
      × (p ≤ℤ pri_max)
      × ((c i : ℕ)
          → c < 2 ^ 31
          → i ≤ 20
          → th.recent_cpu ≡ pos c
          → (th.nice ≡ pos i → p ≡ pos ((63 * 65536 - (c / 4 + 2 * i * 65536)) / 65536))
            × (th.nice ≡ negsuc i
                → i ≤ 19
                → (let q = (63 * 65536 + 2 * (i + 1) * 65536 - c / 4) / 65536 in
                    p ≡ pos (if ltb 63 q then 63 else q))))
thread_mlfqs_pri_update_bounds t k on busy =
    let th = k.thread t in
    let q = mlfqs_pri th.recent_cpu th.nice in
    let stay : (is_idle k t || not k.thread_mlfqs) ≡ false = ground arith in
    let set : ((thread_mlfqs_pri_update t k).thread t).priority ≡ clamp_pri q = updated t k stay in
    rw set (
      (clamp_bounds q).0,
      (clamp_bounds q).1,
      λ c i h hi e. (
        formula-pos th.recent_cpu th.nice c i h hi e,
        formula-negsuc th.recent_cpu th.nice c i h e,
      ),
    )

-- With the same nice from -20 to 20, of two values of recent_cpu from 0 on that fit in an int, the
-- higher one gives no higher priority.
mlfqs_pri_antitone :
    (c d : ℕ) (n : ℤ)
    → c ≤ d
    → d < 2 ^ 31
    → negsuc 19 ≤ℤ n
    → n ≤ℤ pos 20
    → mlfqs_pri (pos d) n ≤ℤ mlfqs_pri (pos c) n
mlfqs_pri_antitone c d (pos i) h hd lo hi =
    rw (mlfqs_pri-pos c i (omega arith) (omega arith), mlfqs_pri-pos d i hd (omega arith))
      (shr16_mono _ _ (ground arith))
mlfqs_pri_antitone c d (negsuc i) h hd lo hi =
    rw (mlfqs_pri-negsuc c i (omega arith) (omega arith), mlfqs_pri-negsuc d i hd (omega arith))
      (shr16_mono _ _ (ground arith))

hundred_fits :
    (c : ℕ)
    → c ≤ 21474508
    → fp_round (fp_mult_mix (pos c) (pos 100)) ≡ pos ((c * 100 + 32768) / 65536)
hundred_fits c h = rw (mult_mix-pos c 100 (omega arith), round-pos (c * 100) (omega arith))

mult_wraps :
    (c : ℕ)
    → 21475165 ≤ c
    → c ≤ 42949000
    → fp_mult_mix (pos c) (pos 100) ≡ negsuc (2 ^ 32 - 1 - c * 100)
unfolding fp_mult_mix int32 ◌*ℤ◌
mult_wraps c lo hi = ground arith

-- The result wraps to a negative number, and stays one when it is rounded.
hundred_wraps :
    (c : ℕ)
    → 21475165 ≤ c
    → c ≤ 42949000
    → (n : ℕ) × (fp_round (fp_mult_mix (pos c) (pos 100)) ≡ negsuc n)
hundred_wraps c lo hi = (
  (2 ^ 32 - 1 - c * 100 + 32768) / 65536,
  rw (mult_wraps c lo hi, round-negsuc (2 ^ 32 - 1 - c * 100) (omega arith)),
)

-- thread_get_recent_cpu of a thread that is running, for a recent_cpu that is not negative: 100
-- times it, rounded to the nearest whole number, if it is at most 21474508 (about 327.67); a
-- negative number if it is from 21475165 (about 327.69) to 42949000 (about 655.3).
pub thread_get_recent_cpu_lem :
    (k : Kernel) (c : ℕ)
    → thread_current k ≡ some k.current
    → (k.thread k.current).recent_cpu ≡ pos c
    → (c ≤ 21474508 → thread_get_recent_cpu k ≡ some (pos ((c * 100 + 32768) / 65536)))
      × (21475165 ≤ c → c ≤ 42949000 → (n : ℕ) × (thread_get_recent_cpu k ≡ some (negsuc n)))
unfolding thread_get_recent_cpu
thread_get_recent_cpu_lem k c cur e = (
  λ h. rw (cur, e, hundred_fits c h),
  λ lo hi. ((hundred_wraps c lo hi).0, rw (cur, e, (hundred_wraps c lo hi).1)),
)
