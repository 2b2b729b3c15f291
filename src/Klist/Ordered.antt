-- ===== src/Klist/Ordered.antt =====
-- Lists kept from the highest rank to the lowest: what list_insert_ordered, list_remove and
-- list_sort do to such a list.
use sustech_cs.Prelude.{
  ℕ, ◌-◌, ◌<◌, ◌≡◌, refl, Bool, true, false, List, [], ◌∷◌, arith, count, All, is_empty,
  if◌then◌else◌, ◌==◌, Bool-cases, eq_of_==, inl, inr, subst,
}
use sustech_cs.Prelude.Int.{ℤ, ◌≤ℤ◌, ltb_ℤ}
use sustech_cs.Klist.{list_insert_ordered, list_remove, is_sorted}

-- The shape of the kernel's three comparisons: `x` goes before `y` if its rank is higher.
abbrev pub above : (ℕ → ℤ) → ℕ → ℕ → Bool
above rank x y = ltb_ℤ (rank y) (rank x)

abbrev pub Descending : (ℕ → ℤ) → List ℕ → Type 0
Descending rank [] = Unit
Descending rank (x ∷ l) = All (λ y. rank y ≤ℤ rank x) l × Descending rank l

pub above_asym : (rank : ℕ → ℤ) (x y : ℕ) → above rank x y ≡ true → above rank y x ≡ false
above_asym rank x y h = ground arith

pub All-count : (P : ℕ → Type 0) (x : ℕ) (l : List ℕ) → All P l → 0 < count x l → P x
All-count P x [] a h = absurd (omega arith)
All-count P x (y ∷ l) a h = elim (Bool-cases (y == x)) [
  | inl same ↦ subst P (eq_of_== y x same) a.0
  | inr other ↦ All-count P x l a.1 (ground arith)
]

pub count-insert :
    (less : ℕ → ℕ → Bool) (v x : ℕ) (l : List ℕ)
    → count v (list_insert_ordered less x l) ≡ count v (x ∷ l)
unfolding list_insert_ordered
count-insert less v x [] = refl
count-insert less v x (y ∷ l) = ground (arith, count-insert less v x l)

pub insert-not_empty :
    (less : ℕ → ℕ → Bool) (x : ℕ) (l : List ℕ) → is_empty (list_insert_ordered less x l) ≡ false
unfolding list_insert_ordered
insert-not_empty less x [] = refl
insert-not_empty less x (y ∷ l) = ground arith

pub count-remove :
    (v x : ℕ) (l : List ℕ)
    → count v (list_remove x l) ≡ (if x == v then count v l - 1 else count v l)
unfolding list_remove
count-remove v x [] = ground arith
count-remove v x (y ∷ l) = ground (arith, count-remove v x l)

pub All-remove : (P : ℕ → Type 0) (x : ℕ) (l : List ℕ) → All P l → All P (list_remove x l)
unfolding list_remove
All-remove P x [] a = tt
All-remove P x (y ∷ l) a = elim (Bool-cases (y == x)) [
  | inl same ↦ rw same a.1
  | inr other ↦ rw other (a.0, All-remove P x l a.1)
]

module _ (rank : ℕ → ℤ) where
  All-insert :
      (b : ℤ) (x : ℕ) (l : List ℕ)
      → rank x ≤ℤ b
      → All (λ y. rank y ≤ℤ b) l
      → All (λ y. rank y ≤ℤ b) (list_insert_ordered (above rank) x l)
  unfolding list_insert_ordered
  All-insert b x [] h a = (h, tt)
  All-insert b x (y ∷ l) h a = ground (arith, All-insert b x l)

  All-le : (b c : ℤ) (l : List ℕ) → b ≤ℤ c → All (λ y. rank y ≤ℤ b) l → All (λ y. rank y ≤ℤ c) l
  All-le b c [] h a = tt
  All-le b c (y ∷ l) h a = (omega arith, All-le b c l h a.1)

  -- An ordered insertion keeps the order.
  pub insert-Descending :
      (x : ℕ) (l : List ℕ)
      → Descending rank l
      → Descending rank (list_insert_ordered (above rank) x l)
  unfolding list_insert_ordered
  insert-Descending x [] d = (tt, tt)
  insert-Descending x (y ∷ l) d = elim (Bool-cases (above rank x y)) [
    | inl before ↦
        let le : rank y ≤ℤ rank x = ground arith in
        rw before ((le, All-le (rank y) (rank x) l le d.0), d)
    | inr behind ↦ rw behind (All-insert (rank y) x l (ground arith) d.0, insert-Descending x l d.1)
  ]

  pub remove-Descending :
      (x : ℕ) (l : List ℕ) → Descending rank l → Descending rank (list_remove x l)
  unfolding list_remove
  remove-Descending x [] d = tt
  remove-Descending x (y ∷ l) d = elim (Bool-cases (y == x)) [
    | inl same ↦ rw same d.1
    | inr other ↦ rw other (All-remove (λ z. rank z ≤ℤ rank y) x l d.0, remove-Descending x l d.1)
  ]

  pub Descending-of_is_sorted : (l : List ℕ) → is_sorted (above rank) l ≡ true → Descending rank l
  unfolding is_sorted
  Descending-of_is_sorted [] h = tt
  Descending-of_is_sorted (x ∷ []) h = (tt, tt)
  Descending-of_is_sorted (x ∷ y ∷ l) h =
      let step : (rank y ≤ℤ rank x) × (is_sorted (above rank) (y ∷ l) ≡ true) = ground arith in
      let rest = Descending-of_is_sorted (y ∷ l) step.1 in
      ((step.0, All-le (rank y) (rank x) l step.0 rest.0), rest)

-- The order depends only on the ranks of the elements.
pub Descending-cong :
    (rank rank' : ℕ → ℤ) (l : List ℕ)
    → ((x : ℕ) → 0 < count x l → rank' x ≡ rank x)
    → Descending rank l
    → Descending rank' l
Descending-cong rank rank' [] e d = tt
Descending-cong rank rank' (y ∷ l) e d = (
  All-cong l (λ x m. e x (ground arith)) (e y (ground arith)) d.0,
  Descending-cong rank rank' l (λ x m. e x (ground arith)) d.1,
)
  where
    All-cong :
        (m : List ℕ)
        → ((x : ℕ) → 0 < count x m → rank' x ≡ rank x)
        → rank' y ≡ rank y
        → All (λ z. rank z ≤ℤ rank y) m
        → All (λ z. rank' z ≤ℤ rank' y) m
    All-cong [] f g a = tt
    All-cong (z ∷ m) f g a =
        (rw (f z (ground arith), g) a.0, All-cong m (λ x c. f x (ground arith)) g a.1)
