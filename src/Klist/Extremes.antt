-- ===== src/Klist/Extremes.antt =====
-- list_unique, list_max, list_min, list_reverse and list_size do what they say.
use sustech_cs.Prelude.{
  ℕ, suc, ◌+◌, ◌<◌, ◌≡◌, refl, ap, sym, ◌∙◌, Bool, true, false, ◌||◌, inl, inr, some, List, [], ◌∷◌,
  ◌++◌, arith, count, if◌then◌else◌, Bool-cases, length, if_true, if_false,
}
use sustech_cs.Prelude.Int.{ℤ, ◌≤ℤ◌, ltb_ℤ}
use sustech_cs.Klist.Basic.{
  list_insert, list_push_back, list_unique, unique_from, list_max, max_from, list_min, min_from,
  list_reverse, reverse_onto, list_size, size_from,
}

-- The comparison of elements by a rank.
abbrev below : (ℕ → ℤ) → ℕ → ℕ → Bool
below rank x y = ltb_ℤ (rank x) (rank y)

-- No element equals the one before it.
abbrev apart : (ℕ → ℕ → Bool) → List ℕ → Bool
apart less [] = true
apart less (x ∷ []) = true
apart less (x ∷ y ∷ l) = if less x y || less y x then apart less (y ∷ l) else false

count-push_back :
    (v x : ℕ) (l : List ℕ) → count v (list_push_back l x) ≡ count v l + count v (x ∷ [])
unfolding list_push_back list_insert
count-push_back v x [] = ground arith
count-push_back v x (e ∷ l) = ground (arith, count-push_back v x l)

unique_from-count :
    (less : ℕ → ℕ → Bool) (v x : ℕ) (l ds : List ℕ)
    → let r = unique_from less x l ds in count v r.0 + count v r.1 ≡ count v (x ∷ l) + count v ds
unfolding unique_from
unique_from-count less v x [] ds = refl
unique_from-count less v x (y ∷ l) ds = elim (Bool-cases (less x y || less y x)) [
  | inl differ ↦ rw differ (ground (arith, unique_from-count less v y l ds))
  | inr same ↦
      rw same
        (ground (arith, unique_from-count less v x l (list_push_back ds y), count-push_back v y ds))
]

-- What is left starts with the element at which the loop stands.
unique_from-head :
    (less : ℕ → ℕ → Bool) (x : ℕ) (l ds : List ℕ)
    → (r : List ℕ) × ((unique_from less x l ds).0 ≡ x ∷ r) × (apart less (x ∷ r) ≡ true)
unfolding unique_from
unique_from-head less x [] ds = ([], refl, refl)
unique_from-head less x (y ∷ l) ds = elim (Bool-cases (less x y || less y x)) [
  | inl differ ↦
      let (r, e, a) = unique_from-head less y l ds in
      (
        y ∷ r,
        ap (λ (p : List ℕ × List ℕ). p.0) (if_true _ _ differ) ∙ ap (λ q. x ∷ q) e,
        if_true _ _ differ ∙ a,
      )
  | inr same ↦
      let (r, e, a) = unique_from-head less x l (list_push_back ds y) in
      (r, ap (λ (p : List ℕ × List ℕ). p.0) (if_false _ _ same) ∙ e, a)
]

-- list_unique leaves no two neighbours that are equal under the comparison, and every element is
-- afterwards in the list or among the duplicates, as often as before.
list_unique_lem :
    (less : ℕ → ℕ → Bool) (l ds : List ℕ)
    → let r = list_unique less l ds in
      (apart less r.0 ≡ true) × ((v : ℕ) → count v r.0 + count v r.1 ≡ count v l + count v ds)
unfolding list_unique
list_unique_lem less [] ds = (refl, λ v. refl)
list_unique_lem less (x ∷ l) ds =
    let (r, e, a) = unique_from-head less x l ds in
    (ap (apart less) e ∙ a, λ v. unique_from-count less v x l ds)

max_from_lem :
    (rank : ℕ → ℤ) (x : ℕ) (l : List ℕ)
    → let m = max_from (below rank) x l in
      (0 < count m (x ∷ l)) × ((v : ℕ) → 0 < count v (x ∷ l) → rank v ≤ℤ rank m)
unfolding max_from
max_from_lem rank x [] = (ground arith, λ v h. ground (arith, h))
max_from_lem rank x (y ∷ l) =
    let z : ℕ = if below rank x y then y else x in
    let (m, h) = max_from_lem rank z l in (ground (arith, m), λ v g. ground (arith, g, h v, h z))

min_from_lem :
    (rank : ℕ → ℤ) (x : ℕ) (l : List ℕ)
    → let m = min_from (below rank) x l in
      (0 < count m (x ∷ l)) × ((v : ℕ) → 0 < count v (x ∷ l) → rank m ≤ℤ rank v)
unfolding min_from
min_from_lem rank x [] = (ground arith, λ v h. ground (arith, h))
min_from_lem rank x (y ∷ l) =
    let z : ℕ = if below rank y x then y else x in
    let (m, h) = min_from_lem rank z l in (ground (arith, m), λ v g. ground (arith, g, h v, h z))

-- For a comparison by rank and a list that is not empty, list_max returns an element of the list of
-- the largest rank, and list_min one of the smallest.
list_max-list_min :
    (rank : ℕ → ℤ) (x : ℕ) (l : List ℕ)
    → (m : ℕ) × (n : ℕ) × (list_max (below rank) (x ∷ l) ≡ some m)
      × (list_min (below rank) (x ∷ l) ≡ some n)
      × (0 < count m (x ∷ l))
      × (0 < count n (x ∷ l))
      × ((v : ℕ) → 0 < count v (x ∷ l) → (rank v ≤ℤ rank m) × (rank n ≤ℤ rank v))
unfolding list_max list_min
list_max-list_min rank x l =
    let (m, h) = max_from_lem rank x l in
    let (n, g) = min_from_lem rank x l in
    (max_from (below rank) x l, min_from (below rank) x l, refl, refl, m, n, λ v i. (h v i, g v i))

reverse_onto-twice :
    (xs ys zs : List ℕ) → reverse_onto ys (reverse_onto xs zs) ≡ reverse_onto (zs ++ ys) xs
unfolding reverse_onto
reverse_onto-twice xs ys [] = refl
reverse_onto-twice xs ys (z ∷ zs) = reverse_onto-twice (z ∷ xs) ys zs

append_nothing : (l : List ℕ) → l ++ [] ≡ l
append_nothing [] = refl
append_nothing (x ∷ l) = ap (λ r. x ∷ r) (append_nothing l)

size_from-length : (c : ℕ) (l : List ℕ) → size_from c l ≡ c + length l
unfolding size_from
size_from-length c [] = omega arith
size_from-length c (x ∷ l) = omega (arith, size_from-length (suc c) l)

reverse_onto-length : (d l : List ℕ) → length (reverse_onto d l) ≡ length d + length l
unfolding reverse_onto
reverse_onto-length d [] = omega arith
reverse_onto-length d (x ∷ l) = omega (arith, reverse_onto-length (x ∷ d) l)

-- list_reverse undoes itself and keeps the size, and list_size is the number of elements.
list_reverse_lem :
    (l : List ℕ)
    → (list_reverse (list_reverse l) ≡ l)
      × (list_size (list_reverse l) ≡ list_size l)
      × (list_size l ≡ length l)
unfolding list_reverse list_size reverse_onto
list_reverse_lem l = (
  reverse_onto-twice [] [] l ∙ append_nothing l,
  size_from-length 0 (list_reverse l)
      ∙ omega (arith, reverse_onto-length [] l)
      ∙ sym (size_from-length 0 l),
  size_from-length 0 l ∙ omega arith,
)
