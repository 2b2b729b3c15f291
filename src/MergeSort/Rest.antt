-- ===== src/MergeSort/Rest.antt =====
-- What is left to merge in merge of Bonus_Lab4/OS_BONUS1_11612917.c, and a turn of its first loop.
use sustech_cs.Prelude.{
  ℕ, suc, ◌-◌, ◌≤◌, ◌<◌, ◌≡◌, refl, ap, sym, ◌∙◌, inl, inr, true, false, List, [], ◌∷◌, leb,
  if◌then◌else◌, update, arith, Bool-cases,
}
use sustech_cs.Prelude.Int.{ℤ, ltb_ℤ}
use sustech_cs.MergeSort.{Array, Merging, take_1, take_2}
use sustech_cs.MergeSort.Lists.{slice, write, merged}

pub leb-true : (a b : ℕ) → a ≤ b → leb a b ≡ true
leb-true a b h = ground arith

pub le_of_leb : (a b : ℕ) → leb a b ≡ true → a ≤ b
le_of_leb a b e = ground arith

pub lt_of_leb : (a b : ℕ) → leb a b ≡ false → b < a
lt_of_leb a b e = ground arith

-- The elements from `i` to `last`.
abbrev pub span : Array → ℕ → ℕ → List ℤ
span f i last = slice f i (suc last - i)

pub span-cons : (f : Array) (i last : ℕ) → i ≤ last → span f i last ≡ f i ∷ span f (suc i) last
span-cons f i last h =
    let one : suc last - i ≡ suc (suc last - suc i) = omega (arith, h) in ap (λ n. slice f i n) one

pub span-nil : (f : Array) (i last : ℕ) → last < i → span f i last ≡ []
span-nil f i last h =
    let none_left : suc last - i ≡ 0 = omega (arith, h) in ap (λ n. slice f i n) none_left

-- The array when what is left of the two slices has been merged.
abbrev pub rest_of : ℕ → ℕ → Array → Merging → Array
rest_of mid r f m = write m.arr m.iter (merged (span f m.iter_1 mid) (span f m.iter_2 r))

pub take-rest_of :
    (mid r : ℕ) (f : Array) (m : Merging)
    → m.iter_1 ≤ mid
    → m.iter_2 ≤ r
    → rest_of mid r f (if ltb_ℤ (f m.iter_1) (f m.iter_2) then take_1 f m else take_2 f m)
      ≡ rest_of mid r f m
take-rest_of mid r f m h h' =
    let xs = span-cons f m.iter_1 mid h in
    let ys = span-cons f m.iter_2 r h' in
    let both = λ (a b : List ℤ). write m.arr m.iter (merged a b) in
    elim (Bool-cases (ltb_ℤ (f m.iter_1) (f m.iter_2))) [
      | inl e ↦ rw e (
          ap (λ b. rest_from (take_1 f m) (merged (span f (suc m.iter_1) mid) b)) ys
          ∙ sym (
              ap (λ a. both a (span f m.iter_2 r)) xs
              ∙ (ap (λ b. both (f m.iter_1 ∷ span f (suc m.iter_1) mid) b) ys
                  ∙ first m.arr m.iter (f m.iter_1) (f m.iter_2) (span f (suc m.iter_1) mid)
                      (span f (suc m.iter_2) r) e)))
      | inr e ↦ rw e (
          ap (λ a. rest_from (take_2 f m) (merged a (span f (suc m.iter_2) r))) xs
          ∙ sym (
              ap (λ a. both a (span f m.iter_2 r)) xs
              ∙ (ap (λ b. both (f m.iter_1 ∷ span f (suc m.iter_1) mid) b) ys
                  ∙ second m.arr m.iter (f m.iter_1) (f m.iter_2) (span f (suc m.iter_1) mid)
                      (span f (suc m.iter_2) r) e)))
    ]
  where
    rest_from : Merging → List ℤ → Array
    rest_from m l = write m.arr m.iter l

    first :
        (g : Array) (i : ℕ) (x y : ℤ) (xs ys : List ℤ)
        → ltb_ℤ x y ≡ true
        → write g i (merged (x ∷ xs) (y ∷ ys)) ≡ write (update g i x) (suc i) (merged xs (y ∷ ys))
    first g i x y xs ys e = rw e refl

    second :
        (g : Array) (i : ℕ) (x y : ℤ) (xs ys : List ℤ)
        → ltb_ℤ x y ≡ false
        → write g i (merged (x ∷ xs) (y ∷ ys)) ≡ write (update g i y) (suc i) (merged (x ∷ xs) ys)
    second g i x y xs ys e = rw e refl
