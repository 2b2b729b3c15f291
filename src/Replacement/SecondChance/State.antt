-- ===== src/Replacement/SecondChance/State.antt =====
-- The state of second_chance in lab9/main.cpp between two accesses, and what a hit does to it.
use sustech_cs.Prelude.{
  ℕ, ◌+◌, ◌-◌, ◌/◌, ◌≤◌, ◌≡◌, refl, ◌∙◌, ◌⊎◌, inl, inr, Bool, true, false, ◌||◌, some, List, [],
  ◌∷◌, length, arith, Bool-cases, if_true, if_false,
}
use sustech_cs.Replacement.Pages.{contains}
use sustech_cs.Replacement.SecondChance.{Chance, access}
use sustech_cs.Replacement.SecondChance.Halves.{Halves}
use sustech_cs.Replacement.SecondChance.Moves.{promote-Moved}

-- Between two accesses, for `k` places.
pub record Valid (k : ℕ) (s : Chance) : Type 0 where
  pub halves : Halves s
  pub que_small : length s.que ≤ k / 2
  pub ls_small : length s.ls ≤ k - k / 2
  pub filled : (length s.ls ≡ 0) ⊎ (length s.que ≡ k / 2)

abbrev pub cached : ℕ → Chance → Bool
cached p s = contains p s.que || contains p s.ls

abbrev pub Stepped : ℕ → ℕ → Chance → ℕ → Type 0
Stepped k p s hit =
    (s' : Chance) × (access k p s ≡ some s')
    × (Valid k s' × (contains p s'.que ≡ true) × (s'.hit ≡ hit))

pub contains-length : (p : ℕ) (l : List ℕ) → contains p l ≡ true → 1 ≤ length l
contains-length p [] e = cc
contains-length p (q ∷ l) e = omega arith

pub half_positive : (k : ℕ) → 2 ≤ k → 1 ≤ k / 2
half_positive k h = omega arith

pub access-hit :
    (k p : ℕ) (s : Chance) → 2 ≤ k → Valid k s → cached p s ≡ true → Stepped k p s (s.hit + 1)
unfolding access
access-hit k p s h v e =
    let in_que = v.halves.que_step.same p in
    let in_ls = v.halves.ls_step.same p in
    let there_is : (s.ele_set.mem p || s.pos_map.mem p) ≡ true = rw (in_que, in_ls) e in
    let t = record s { hit = s.hit + 1 } in
    let halves : Halves t = record {
      que_distinct = v.halves.que_distinct;
      ls_distinct = v.halves.ls_distinct;
      que_step = v.halves.que_step;
      ls_step = v.halves.ls_step;
      apart = v.halves.apart;
    } in
    elim (Bool-cases (contains p s.ls)) [
      | inr f ↦ (
        t,
        if_true _ _ there_is ∙ if_false _ _ (in_ls ∙ f),
        (
          record {
            halves = halves;
            que_small = v.que_small;
            ls_small = v.ls_small;
            filled = v.filled;
          },
          ground arith,
          refl,
        ),
      )
      | inl f ↦
          let not_in_que : contains p s.que ≡ false = elim (Bool-cases (contains p s.que)) [
            | inl g ↦ let g' = v.halves.apart p g in cc
            | inr g ↦ g
          ] in
          let some_ls : 1 ≤ length s.ls = contains-length p s.ls f in
          let full : length s.que ≡ k / 2 = elim v.filled [
            | inl z ↦ absurd (omega (arith, z, some_ls))
            | inr g ↦ g
          ] in
          let positive = half_positive k h in
          let (s', made, m) =
            promote-Moved p t halves not_in_que f (omega (arith, full, positive)) in
          (
            s',
            if_true _ _ there_is ∙ (if_true _ _ (in_ls ∙ f) ∙ made),
            (
              record {
                halves = m.halves;
                que_small = omega (arith, m.que_size, v.que_small);
                ls_small = omega (arith, m.ls_size, v.ls_small);
                filled = inr (m.que_size ∙ full);
              },
              m.cached,
              m.hit_kept,
            ),
          )
    ]
