-- ===== src/Klist/Runs.antt =====
-- Runs: how find_end_of_run cuts a list, and how many cuts a list needs.
use sustech_cs.Prelude.{
  ℕ, suc, ◌+◌, ◌≤◌, ◌≡◌, refl, inl, inr, Bool, List, [], ◌∷◌, ◌++◌, arith, length, count,
  if◌then◌else◌, Bool-cases,
}
use sustech_cs.Klist.{find_end_of_run}

-- How many elements of `x ∷ l` are less than the one before them.
abbrev pub descents_from : (ℕ → ℕ → Bool) → ℕ → List ℕ → ℕ
descents_from less x [] = 0
descents_from less x (y ∷ l) = (if less y x then 1 else 0) + descents_from less y l

abbrev pub descents : (ℕ → ℕ → Bool) → List ℕ → ℕ
descents less [] = 0
descents less (x ∷ l) = descents_from less x l

module _ (less : ℕ → ℕ → Bool) where
  pub run_starts : (x : ℕ) (l : List ℕ) → (t : List ℕ) × ((find_end_of_run less x l).0 ≡ x ∷ t)
  unfolding find_end_of_run
  run_starts x [] = ([], refl)
  run_starts x (y ∷ l) = elim (Bool-cases (less y x)) [
    | inl e ↦ ([], rw e)
    | inr e ↦ ((find_end_of_run less y l).0, rw e)
  ]

  pub run_rises : (x : ℕ) (l : List ℕ) → descents less (find_end_of_run less x l).0 ≡ 0
  unfolding find_end_of_run
  run_rises x [] = refl
  run_rises x (y ∷ l) = ground (arith, run_rises y l, run_starts y l)

  pub run_length :
      (x : ℕ) (l : List ℕ)
      → length (find_end_of_run less x l).0 + length (find_end_of_run less x l).1 ≡ suc (length l)
  unfolding find_end_of_run
  run_length x [] = refl
  run_length x (y ∷ l) = ground (arith, run_length y l)

  pub run_count :
      (v x : ℕ) (l : List ℕ)
      → count v (find_end_of_run less x l).0 + count v (find_end_of_run less x l).1
        ≡ count v (x ∷ l)
  unfolding find_end_of_run
  run_count v x [] = ground arith
  run_count v x (y ∷ l) = ground (arith, run_count v y l)

  pub run_whole :
      (x : ℕ) (l : List ℕ) → (find_end_of_run less x l).1 ≡ [] → descents_from less x l ≡ 0
  unfolding find_end_of_run
  run_whole x [] h = refl
  run_whole x (y ∷ l) h = ground (arith, run_whole y l)

  pub run_cut :
      (x y : ℕ) (l r : List ℕ)
      → (find_end_of_run less x l).1 ≡ y ∷ r
      → descents_from less x l ≡ suc (descents_from less y r)
  unfolding find_end_of_run
  run_cut x y [] r h = absurd (ground arith)
  run_cut x y (z ∷ l) r h = ground (arith, run_cut z y l r)

  pub descents_from-append :
      (x : ℕ) (l r : List ℕ)
      → descents_from less x (l ++ r) ≤ suc (descents_from less x l + descents less r)
  descents_from-append x [] [] = omega arith
  descents_from-append x [] (y ∷ r) = ground arith
  descents_from-append x (z ∷ l) r = ground (arith, descents_from-append z l r)

  pub descents-append :
      (l r : List ℕ) → descents less (l ++ r) ≤ suc (descents less l + descents less r)
  descents-append [] r = omega arith
  descents-append (x ∷ l) r = descents_from-append x l r

pub count-append : (v : ℕ) (l r : List ℕ) → count v (l ++ r) ≡ count v l + count v r
count-append v [] r = omega arith
count-append v (x ∷ l) r = ground (arith, count-append v l r)
