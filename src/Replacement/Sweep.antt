-- ===== src/Replacement/Sweep.antt =====
-- The loop of a miss in _clock of lab9/main.cpp ends, and stays inside the vector.
use sustech_cs.Prelude.{
  update-same, update-other, ℕ, zero, suc, ◌+◌, ◌-◌, ◌≤◌, ◌<◌, ◌≡◌, ◌≢◌, refl, ap, ◌∙◌, subst, inl,
  inr, true, false, some, leb, ◌==◌, ◌>>=◌, arith, Bool-cases, if_true, eq_of_==, ne_of_==,
}
use sustech_cs.Replacement.Clock.{Slot, Clock, advance, place, give_chance, sweep}
use sustech_cs.Replacement.Slots.{
  Found, next_place, next_place-last, next_place-inner, advance-next, place-Placed,
  give_chance-Found,
}

-- The loop of a miss ends with the page in a place of the vector.
pub record Swept (n k h : ℕ) (s' : Clock) : Type 0 where
  pub found : Found n s'
  pub low : 1 ≤ s'.hand
  pub high : s'.hand ≤ k
  pub counted : s'.hit ≡ h

abbrev pub Sweeps : ℕ → ℕ → ℕ → ℕ → Clock → Type 0
Sweeps turns k n p s = (s' : Clock) × (sweep turns k n p s ≡ some s') × Swept n k s.hit s'

pub sweep-place :
    (turns k n p : ℕ) (s : Clock)
    → s.hand ≤ n
    → (s.vec s.hand).used ≡ false
    → sweep (suc turns) k n p s ≡ place p s
unfolding sweep
sweep-place turns k n p s h e =
    let inside : leb s.hand n ≡ true = ground arith in rw (inside, e) refl

sweep-on :
    (turns k n p : ℕ) (s : Clock)
    → s.hand ≤ n
    → 1 ≤ k
    → s.hand ≤ k
    → (s.vec s.hand).used ≡ true
    → sweep (suc turns) k n p s
      ≡ sweep turns k n p (record (give_chance s) { hand = next_place k s.hand })
unfolding sweep
sweep-on turns k n p s h le lt e =
    let inside : leb s.hand n ≡ true = ground arith in
    let moved = advance-next k (give_chance s) le lt in
    let rest = advance k (give_chance s) >>= sweep turns k n p in
    if_true _ _ inside ∙ (if_true rest (place p s) e ∙ ap (λ m. m >>= sweep turns k n p) moved)

Sweeps-place :
    (turns k n p : ℕ) (s : Clock)
    → s.hand ≤ n
    → Found n s
    → 1 ≤ s.hand
    → s.hand ≤ k
    → (s.vec s.hand).used ≡ false
    → Sweeps (suc turns) k n p s
Sweeps-place turns k n p s h f low high e =
    let (s', made, placed) = place-Placed n p s h f in
    (
      s',
      sweep-place turns k n p s h e ∙ made,
      record {
        found = placed.found;
        low = omega (arith, placed.stays, low);
        high = omega (arith, placed.stays, high);
        counted = placed.counted;
      },
    )

-- A place whose bit is clear lies `d` places ahead.
Sweeps-ahead :
    (d turns k n p : ℕ) (s : Clock)
    → d < turns
    → k ≤ n
    → Found n s
    → 1 ≤ s.hand
    → s.hand + d ≤ k
    → (s.vec (s.hand + d)).used ≡ false
    → Sweeps turns k n p s
Sweeps-ahead d zero k n p s h small f low high e = absurd (omega (arith, h))
Sweeps-ahead zero (suc turns) k n p s h small f low high e =
    let same : s.hand + 0 ≡ s.hand = omega arith in
    Sweeps-place turns k n p s (omega (arith, high, small)) f low (omega (arith, high))
      (subst (λ i. (s.vec i).used ≡ false) same e)
Sweeps-ahead (suc d) (suc turns) k n p s h small f low high e =
    elim (Bool-cases (s.vec s.hand).used) [
      | inl u ↦
          let next_hand : next_place k s.hand ≡ suc s.hand =
            next_place-inner k s.hand (λ g. omega (arith, g, high)) in
          let t = record (give_chance s) { hand = next_place k s.hand } in
          let target : t.hand + d ≡ s.hand + suc d = omega (arith, next_hand) in
          let apart : s.hand ≢ t.hand + d = λ g. omega (arith, g, next_hand) in
          let clear : (t.vec (t.hand + d)).used ≡ false =
            ap (λ (v : Slot). v.used) (update-other s.vec s.hand (t.hand + d) _ apart)
            ∙ (ap (λ i. (s.vec i).used) target ∙ e) in
          let (s', made, swept) =
            Sweeps-ahead d turns k n p t (omega (arith, h)) small (give_chance-Found n s f)
              (omega (arith, next_hand)) (omega (arith, target, high)) clear in
          (
            s',
            sweep-on turns k n p s (omega (arith, high, small)) (omega (arith, low, high))
                  (omega (arith, high)) u
                ∙ made,
            swept,
          )
      | inr u ↦
          Sweeps-place turns k n p s (omega (arith, high, small)) f low (omega (arith, high)) u
    ]

kept-clear :
    (s : Clock) (c : ℕ) → c < s.hand → (s.vec c).used ≡ false → ((give_chance s).vec c).used ≡ false
kept-clear s c passed e =
    ap (λ (v : Slot). v.used) (update-other s.vec s.hand c _ (λ g. omega (arith, g, passed))) ∙ e

-- The hand has left the place `c` with a clear bit, and has `d` places to go to the last.
Sweeps-round :
    (d c turns k n p : ℕ) (s : Clock)
    → d + c < turns
    → k ≤ n
    → Found n s
    → s.hand + d ≡ k
    → 1 ≤ c
    → c < s.hand
    → (s.vec c).used ≡ false
    → Sweeps turns k n p s
Sweeps-round d c zero k n p s h small f last low passed e = absurd (omega (arith, h))
Sweeps-round zero c (suc turns) k n p s h small f last low passed e =
    elim (Bool-cases (s.vec s.hand).used) [
      | inl u ↦
          let wraps : next_place k s.hand ≡ 1 = next_place-last k s.hand (omega (arith, last)) in
          let t = record (give_chance s) { hand = next_place k s.hand } in
          let target : c ≡ t.hand + (c - 1) = omega (arith, wraps, low) in
          let (s', made, swept) =
            Sweeps-ahead (c - 1) turns k n p t (omega (arith, h, low)) small
              (give_chance-Found n s f) (omega (arith, wraps)) (omega (arith, target, passed, last))
              (subst (λ i. ((give_chance s).vec i).used ≡ false) target
                (kept-clear s c passed e)) in
          (
            s',
            sweep-on turns k n p s (omega (arith, last, small)) (omega (arith, passed, last))
                  (omega (arith, last)) u
                ∙ made,
            swept,
          )
      | inr u ↦
          Sweeps-place turns k n p s (omega (arith, last, small)) f (omega (arith, passed))
            (omega (arith, last)) u
    ]
Sweeps-round (suc d) c (suc turns) k n p s h small f last low passed e =
    elim (Bool-cases (s.vec s.hand).used) [
      | inl u ↦
          let on : next_place k s.hand ≡ suc s.hand =
            next_place-inner k s.hand (λ g. omega (arith, g, last)) in
          let t = record (give_chance s) { hand = next_place k s.hand } in
          let (s', made, swept) =
            Sweeps-round d c turns k n p t (omega (arith, h)) small (give_chance-Found n s f)
              (omega (arith, on, last)) low (omega (arith, on, passed)) (kept-clear s c passed e) in
          (
            s',
            sweep-on turns k n p s (omega (arith, last, small)) (omega (arith, passed, last))
                  (omega (arith, last)) u
                ∙ made,
            swept,
          )
      | inr u ↦
          Sweeps-place turns k n p s (omega (arith, last, small)) f (omega (arith, passed))
            (omega (arith, last)) u
    ]

-- Once round the places, and one more, is enough.
pub Sweeps-all :
    (k n p : ℕ) (s : Clock) → k ≤ n → Found n s → 1 ≤ s.hand → s.hand ≤ k → Sweeps (suc k) k n p s
Sweeps-all k n p s small f low high = elim (Bool-cases (s.vec s.hand).used) [
  | inr u ↦ Sweeps-place k k n p s (omega (arith, high, small)) f low high u
  | inl u ↦
      let t = record (give_chance s) { hand = next_place k s.hand } in
      let cleared : (t.vec s.hand).used ≡ false =
        ap (λ (v : Slot). v.used) (update-same s.vec s.hand _) in
      let found = give_chance-Found n s f in
      let (s', made, swept) : Sweeps k k n p t = elim (Bool-cases (s.hand == k)) [
        | inl g ↦
            let last = eq_of_== s.hand k g in
            let wraps = next_place-last k s.hand last in
            let target : s.hand ≡ t.hand + (s.hand - 1) = omega (arith, wraps, low) in
            Sweeps-ahead (s.hand - 1) k k n p t (omega (arith, last, low)) small found
              (omega (arith, wraps)) (omega (arith, target, high))
              (subst (λ i. (t.vec i).used ≡ false) target cleared)
        | inr g ↦
            let before = ne_of_== s.hand k g in
            let on = next_place-inner k s.hand before in
            Sweeps-round (k - suc s.hand) s.hand k k n p t (omega (arith, high, before)) small found
              (omega (arith, on, high, before)) low (omega (arith, on)) cleared
      ] in
      (
        s',
        sweep-on k k n p s (omega (arith, high, small)) (omega (arith, low, high)) high u ∙ made,
        swept,
      )
]
