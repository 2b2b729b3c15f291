-- ===== src/Klist/Merge.antt =====
-- inplace_merge: two rising ranges become one rising range of the same elements.
use sustech_cs.Prelude.{ℕ, ◌+◌, ◌≡◌, Bool, true, false, List, [], ◌∷◌, arith, length, count}
use sustech_cs.Klist.{inplace_merge}
use sustech_cs.Klist.Runs.{descents, descents_from}

module _ (less : ℕ → ℕ → Bool) where
  pub merge_count :
      (v : ℕ) (a b : List ℕ) → count v (inplace_merge less a b) ≡ count v a + count v b
  unfolding inplace_merge
  merge_count v [] b = omega arith
  merge_count v (x ∷ a) [] = omega arith
  merge_count v (x ∷ a) (y ∷ b) = ground (arith, merge_count v a (y ∷ b), merge_count v (x ∷ a) b)

  pub merge_length : (a b : List ℕ) → length (inplace_merge less a b) ≡ length a + length b
  unfolding inplace_merge
  merge_length [] b = omega arith
  merge_length (x ∷ a) [] = omega arith
  merge_length (x ∷ a) (y ∷ b) = ground (arith, merge_length a (y ∷ b), merge_length (x ∷ a) b)

  module _ (asym : (x y : ℕ) → less x y ≡ true → less y x ≡ false) where
    -- A merge after `p`, an element not above the heads of both ranges.
    merge_rises_from :
        (p : ℕ) (a b : List ℕ)
        → descents_from less p a ≡ 0
        → descents_from less p b ≡ 0
        → descents_from less p (inplace_merge less a b) ≡ 0
    unfolding inplace_merge
    merge_rises_from p [] b ha hb = hb
    merge_rises_from p (x ∷ a) [] ha hb = ha
    merge_rises_from p (x ∷ a) (y ∷ b) ha hb =
        ground (arith, asym y x, merge_rises_from x a (y ∷ b), merge_rises_from y (x ∷ a) b)

    pub merge_rises :
        (a b : List ℕ)
        → descents less a ≡ 0
        → descents less b ≡ 0
        → descents less (inplace_merge less a b) ≡ 0
    unfolding inplace_merge
    merge_rises [] b ha hb = hb
    merge_rises (x ∷ a) [] ha hb = ha
    merge_rises (x ∷ a) (y ∷ b) ha hb =
        ground (arith, asym y x, merge_rises_from x a (y ∷ b), merge_rises_from y (x ∷ a) b)
