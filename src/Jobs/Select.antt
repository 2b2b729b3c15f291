-- ===== src/Jobs/Select.antt =====
-- jobselect takes a job of the highest priority.
use sustech_cs.Prelude.{
  ℕ, suc, ◌+◌, ◌≤◌, ◌<◌, ◌≡◌, refl, ap, ◌∙◌, ◌⊎◌, inl, inr, Option, none, some, List, [], ◌∷◌, ◌++◌,
  length, All, Bool-cases, arith,
}
use sustech_cs.Prelude.Int.{ℤ, pos, negsuc, ltb_ℤ, eqb_ℤ, ◌≤ℤ◌}
use sustech_cs.Jobs.{JobInfo, Scheduler, select_from, take_out, jobselect}

-- The loop ends with a job of `l`, which none outranks, nor does `h`.
record Picked (l : List JobInfo) (i : ℕ) (h : ℤ) (r : Option ℕ) : Type 0 where
  before : List JobInfo
  job : JobInfo
  behind : List JobInfo
  split : l ≡ before ++ job ∷ behind
  place : r ≡ some (i + length before)
  highest : All (λ p. p.curpri ≤ job.curpri) l
  least : h ≤ℤ pos job.curpri

-- Or with what it began with, which then none outranks.
Selects : List JobInfo → ℕ → ℤ → Option ℕ → Option ℕ → Type 0
Selects l i h s r = ((r ≡ s) × All (λ p. pos p.curpri ≤ℤ h) l) ⊎ Picked l i h r

Picked-cons :
    (p : JobInfo) (l : List JobInfo) (i : ℕ) (h h' : ℤ) (r : Option ℕ)
    → pos p.curpri ≤ℤ h'
    → h ≤ℤ h'
    → Picked l (suc i) h' r
    → Picked (p ∷ l) i h r
Picked-cons p l i h h' r b b' k = record {
  before = p ∷ k.before;
  job = k.job;
  behind = k.behind;
  split = ap (λ l. p ∷ l) k.split;
  place = k.place ∙ ap some (omega arith);
  highest = (omega (arith, b, k.least), k.highest);
  least = omega (arith, b', k.least);
}

-- The first job, where the rest of the loop keeps it.
Picked-first :
    (p : JobInfo) (l : List JobInfo) (i : ℕ) (h h' : ℤ) (s : Option ℕ) (r : Option ℕ)
    → h' ≤ℤ pos p.curpri
    → pos p.curpri ≤ℤ h'
    → h ≤ℤ h'
    → Selects l (suc i) h' (some i) r
    → Selects (p ∷ l) i h s r
unfolding Selects
Picked-first p l i h h' s r a b c (inr k) = inr (Picked-cons p l i h h' r b c k)
Picked-first p l i h h' s r a b c (inl (e, below)) = inr (record {
  before = [];
  job = p;
  behind = l;
  split = refl;
  place = e ∙ ap some (omega arith);
  highest = (omega arith, All-below p.curpri h' l a below);
  least = omega (arith, a, c);
})
  where
    All-below :
        (n : ℕ) (h : ℤ) (l : List JobInfo)
        → h ≤ℤ pos n
        → All (λ p. pos p.curpri ≤ℤ h) l
        → All (λ p. p.curpri ≤ n) l
    All-below n h [] b a = tt
    All-below n h (p ∷ l) b (a, rest) = (omega (arith, a, b), All-below n h l b rest)

-- Any job but the last that the loop kept.
Selects-cons :
    (p : JobInfo) (l : List JobInfo) (i : ℕ) (h : ℤ) (s : Option ℕ) (r : Option ℕ)
    → pos p.curpri ≤ℤ h
    → Selects l (suc i) h s r
    → Selects (p ∷ l) i h s r
unfolding Selects
Selects-cons p l i h s r b (inl (e, below)) = inl (e, (b, below))
Selects-cons p l i h s r b (inr k) = inr (Picked-cons p l i h h r b (omega arith) k)

select_from_lem :
    (l : List JobInfo) (i : ℕ) (h w : ℤ) (s : Option ℕ) → Selects l i h s (select_from l i h w s)
unfolding Selects
select_from_lem [] i h w s = inl (refl, tt)
select_from_lem (p ∷ l) i h w s = elim (Bool-cases (ltb_ℤ h (pos p.curpri))) [
  | inl higher ↦ rw higher (
      Picked-first p l i h (pos p.curpri) s _ (omega arith) (omega arith) (ground (arith, higher))
        (select_from_lem l (suc i) (pos p.curpri) w (some i)))
  | inr low ↦
      let below : pos p.curpri ≤ℤ h = ground (arith, low) in
      let other = Selects-cons p l i h s _ below (select_from_lem l (suc i) h w s) in
      elim (Bool-cases (eqb_ℤ (pos p.curpri) h)) [
        | inr differ ↦ rw (low, differ) other
        | inl same ↦ elim (Bool-cases (ltb_ℤ w (pos p.wait_time))) [
          | inr shorter ↦ rw (low, same, shorter) other
          | inl longer ↦
              rw (low, same, longer)
                (Picked-first p l i h h s _ (ground (arith, same)) below (omega arith)
                  (select_from_lem l (suc i) h (pos p.wait_time) (some i)))
        ]
      ]
]

take_out_lem :
    (before : List JobInfo) (job : JobInfo) (behind : List JobInfo)
    → take_out (length before) (before ++ job ∷ behind) ≡ (some job, before ++ behind)
take_out_lem [] job behind = refl
take_out_lem (p ∷ before) job behind = rw (take_out_lem before job behind) refl

-- jobselect, if there are waiting jobs, returns one of the highest priority among them and takes it
-- out of the list; the others stay in their order.
pub jobselect_lem :
    (s : Scheduler)
    → 0 < length s.head
    → (before : List JobInfo) × (job : JobInfo) × (behind : List JobInfo) × (s.head
        ≡ before ++ job ∷ behind)
      × (jobselect s ≡ (some job, record s { head = before ++ behind }))
      × All (λ p. p.curpri ≤ job.curpri) s.head
unfolding jobselect Selects
jobselect_lem s h = elim (select_from_lem s.head 0 (negsuc 0) (negsuc 0) none) [
  | inl (e, below) ↦ absurd (none-below s.head h below)
  | inr k ↦
      let place : select_from s.head 0 (negsuc 0) (negsuc 0) none ≡ some (length k.before) =
        k.place ∙ ap some (omega arith) in
      (
        k.before,
        k.job,
        k.behind,
        k.split,
        rw (jobselect, place)
            (ap (λ r. (r.0, record s { head = r.1 }))
              (ap (take_out (length k.before)) k.split ∙ take_out_lem k.before k.job k.behind)),
        k.highest,
      )
]
  where
    none-below : (l : List JobInfo) → 0 < length l → All (λ p. pos p.curpri ≤ℤ negsuc 0) l → ⊥
    none-below [] h b = omega (arith, h)
    none-below (p ∷ l) h (b, rest) = omega (arith, b)
