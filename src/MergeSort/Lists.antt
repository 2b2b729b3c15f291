-- ===== src/MergeSort/Lists.antt =====
-- Slices of an array as lists, and the merging of lists.
use sustech_cs.Prelude.{
  ℕ, zero, suc, ◌+◌, ◌≤◌, ◌<◌, ◌≡◌, refl, ap, ◌∙◌, inl, inr, true, false, List, [], ◌∷◌, ◌++◌,
  if◌then◌else◌, update, length, All, arith, Bool-cases, ==_refl, ==_of_ne,
}
use sustech_cs.Prelude.Int.{ℤ, ltb_ℤ, eqb_ℤ, ◌≤ℤ◌}
use sustech_cs.MergeSort.{Array}

abbrev pub slice : Array → ℕ → ℕ → List ℤ
slice f a zero = []
slice f a (suc n) = f a ∷ slice f (suc a) n

abbrev pub write : Array → ℕ → List ℤ → Array
write f a [] = f
write f a (x ∷ xs) = write (update f a x) (suc a) xs

abbrev pub merged : List ℤ → List ℤ → List ℤ
merged [] ys = ys
merged (x ∷ xs) [] = x ∷ xs
merged (x ∷ xs) (y ∷ ys) =
    let first = merged xs (y ∷ ys) in
    let second = merged (x ∷ xs) ys in if ltb_ℤ x y then x ∷ first else y ∷ second

abbrev pub Sorted : List ℤ → Type 0
Sorted [] = Unit
Sorted (x ∷ xs) = All (λ y. x ≤ℤ y) xs × Sorted xs

abbrev pub occurrences : ℤ → List ℤ → ℕ
occurrences v [] = 0
occurrences v (x ∷ xs) = let rest = occurrences v xs in if eqb_ℤ x v then suc rest else rest

pub length-slice : (f : Array) (a n : ℕ) → length (slice f a n) ≡ n
length-slice f a zero = refl
length-slice f a (suc n) = ap suc (length-slice f (suc a) n)

pub slice-cong :
    (f g : Array) (a n : ℕ) → ((j : ℕ) → a ≤ j → j < a + n → f j ≡ g j) → slice f a n ≡ slice g a n
slice-cong f g a zero h = refl
slice-cong f g a (suc n) h =
    let head = h a (omega arith) (omega arith) in
    let rest = slice-cong f g (suc a) n (λ j lo hi. h j (omega (arith, lo)) (omega (arith, hi))) in
    rw (head, rest) refl

pub slice-append : (f : Array) (a n m : ℕ) → slice f a (n + m) ≡ slice f a n ++ slice f (a + n) m
slice-append f a zero m =
    let none_before : 0 + m ≡ m = omega arith in
    let same : a + 0 ≡ a = omega arith in rw (none_before, same) refl
slice-append f a (suc n) m =
    let one : suc n + m ≡ suc (n + m) = omega arith in
    let on : suc a + n ≡ a + suc n = omega arith in rw (one, slice-append f (suc a) n m, on) refl

pub write-before : (f : Array) (a j : ℕ) (xs : List ℤ) → j < a → write f a xs j ≡ f j
write-before f a j [] h = refl
write-before f a j (x ∷ xs) h =
    write-before (update f a x) (suc a) j xs (omega (arith, h))
    ∙ rw (==_of_ne a j (λ e. omega (arith, e, h))) refl

pub write-behind : (f : Array) (a j : ℕ) (xs : List ℤ) → a + length xs ≤ j → write f a xs j ≡ f j
write-behind f a j [] h = refl
write-behind f a j (x ∷ xs) h =
    write-behind (update f a x) (suc a) j xs (omega (arith, h))
    ∙ rw (==_of_ne a j (λ e. omega (arith, e, h))) refl

pub slice-write : (f : Array) (a : ℕ) (xs : List ℤ) → slice (write f a xs) a (length xs) ≡ xs
slice-write f a [] = refl
slice-write f a (x ∷ xs) =
    let head : write (update f a x) (suc a) xs a ≡ x =
      write-before (update f a x) (suc a) a xs (omega arith) ∙ rw (==_refl a) refl in
    rw (head, slice-write (update f a x) (suc a) xs) refl

pub merged-nil : (xs : List ℤ) → merged xs [] ≡ xs
merged-nil [] = refl
merged-nil (x ∷ xs) = refl

pub length-merged : (xs ys : List ℤ) → length (merged xs ys) ≡ length xs + length ys
length-merged [] ys = omega arith
length-merged (x ∷ xs) [] = omega arith
length-merged (x ∷ xs) (y ∷ ys) =
    ground (arith, length-merged xs (y ∷ ys), length-merged (x ∷ xs) ys)

pub occurrences-append :
    (v : ℤ) (xs ys : List ℤ) → occurrences v (xs ++ ys) ≡ occurrences v xs + occurrences v ys
occurrences-append v [] ys = omega arith
occurrences-append v (x ∷ xs) ys = ground (arith, occurrences-append v xs ys)

pub occurrences-merged :
    (v : ℤ) (xs ys : List ℤ) → occurrences v (merged xs ys) ≡ occurrences v xs + occurrences v ys
occurrences-merged v [] ys = omega arith
occurrences-merged v (x ∷ xs) [] = omega arith
occurrences-merged v (x ∷ xs) (y ∷ ys) =
    let a = occurrences-merged v xs (y ∷ ys) in
    let b = occurrences-merged v (x ∷ xs) ys in
    elim (Bool-cases (ltb_ℤ x y)) [
      | inl e ↦ rw e (ground (arith, a))
      | inr e ↦ rw e (ground (arith, b))
    ]

merged-All : (P : ℤ → Type 0) (xs ys : List ℤ) → All P xs → All P ys → All P (merged xs ys)
merged-All P [] ys a b = b
merged-All P (x ∷ xs) [] a b = a
merged-All P (x ∷ xs) (y ∷ ys) (p, a) (q, b) = elim (Bool-cases (ltb_ℤ x y)) [
  | inl e ↦ rw e (p, merged-All P xs (y ∷ ys) a (q, b))
  | inr e ↦ rw e (q, merged-All P (x ∷ xs) ys (p, a) b)
]

≤ℤ-trans : (a b c : ℤ) → a ≤ℤ b → b ≤ℤ c → a ≤ℤ c
≤ℤ-trans a b c h h' = omega (arith, h, h')

All-≤ℤ : (x y : ℤ) (l : List ℤ) → x ≤ℤ y → All (λ z. y ≤ℤ z) l → All (λ z. x ≤ℤ z) l
All-≤ℤ x y [] h a = tt
All-≤ℤ x y (z ∷ l) h (b, a) = (≤ℤ-trans x y z h b, All-≤ℤ x y l h a)

le_of_ltb : (x y : ℤ) → ltb_ℤ x y ≡ true → x ≤ℤ y
le_of_ltb x y e = ground arith

ge_of_ltb : (x y : ℤ) → ltb_ℤ x y ≡ false → y ≤ℤ x
ge_of_ltb x y e = ground arith

pub merged-Sorted : (xs ys : List ℤ) → Sorted xs → Sorted ys → Sorted (merged xs ys)
merged-Sorted [] ys s t = t
merged-Sorted (x ∷ xs) [] s t = s
merged-Sorted (x ∷ xs) (y ∷ ys) (a, s) (b, t) = elim (Bool-cases (ltb_ℤ x y)) [
  | inl e ↦
      let h = le_of_ltb x y e in
      rw e (
        merged-All (λ z. x ≤ℤ z) xs (y ∷ ys) a (h, All-≤ℤ x y ys h b),
        merged-Sorted xs (y ∷ ys) s (b, t),
      )
  | inr e ↦
      let h = ge_of_ltb x y e in
      rw e (
        merged-All (λ z. y ≤ℤ z) (x ∷ xs) ys (h, All-≤ℤ y x xs h a) b,
        merged-Sorted (x ∷ xs) ys (a, s) t,
      )
]
