-- ===== src/Allocator/Fit.antt =====
-- first_fit, best_fit and worst_fit of lab8/mm.cpp against what their names say.
use sustech_cs.Prelude.{
  ℕ, zero, suc, ◌+◌, ◌≤◌, ◌<◌, ◌≡◌, refl, ap, subst, inl, inr, true, false, Option, none, some,
  List, [], ◌∷◌, ◌++◌, leb, length, All, arith, Bool-cases, some-injective,
}
use sustech_cs.Allocator.{FreeBlock, Algorithm, first_fit, best_fit, worst_fit, first_from}

abbrev pub get_elem? : ℕ → List FreeBlock → Option FreeBlock
get_elem? i [] = none
get_elem? zero (b ∷ l) = some b
get_elem? (suc i) (b ∷ l) = get_elem? i l

-- Why an algorithm takes the block `b`, of number `i`.
abbrev pub IsBest : Algorithm → ℕ → List FreeBlock → ℕ → FreeBlock → Type 0
IsBest first_fit size l i b =
    (j : ℕ) (c : FreeBlock) → j < i → get_elem? j l ≡ some c → c.size < size
IsBest best_fit size l i b = All (λ c. size ≤ c.size → b.size ≤ c.size) l
IsBest worst_fit size l i b = All (λ c. c.size ≤ b.size) l

abbrev pub IsFit : Algorithm → ℕ → List FreeBlock → Option ℕ → Type 0
IsFit func size l none = All (λ c. c.size < size) l
IsFit func size l (some i) =
    (b : FreeBlock) × (get_elem? i l ≡ some b) × (size ≤ b.size) × IsBest func size l i b

pub le_of_leb : (a b : ℕ) → leb a b ≡ true → a ≤ b
le_of_leb a b e = ground arith

pub lt_of_leb : (a b : ℕ) → leb a b ≡ false → b < a
lt_of_leb a b e = ground arith

-- first_fit, from the block of number `i` on.
abbrev pub IsFirst : ℕ → List FreeBlock → ℕ → Option ℕ → Type 0
IsFirst size l i none = All (λ c. c.size < size) l
IsFirst size l i (some n) =
    (k : ℕ) × (b : FreeBlock) × (n ≡ i + k)
    × (get_elem? k l ≡ some b)
    × (size ≤ b.size)
    × ((j : ℕ) (c : FreeBlock) → j < k → get_elem? j l ≡ some c → c.size < size)

before-cons :
    (size k : ℕ) (b : FreeBlock) (l : List FreeBlock)
    → b.size < size
    → ((j : ℕ) (c : FreeBlock) → j < k → get_elem? j l ≡ some c → c.size < size)
    → (j : ℕ) (c : FreeBlock) → j < suc k
    → get_elem? j (b ∷ l) ≡ some c
    → c.size < size
before-cons size k b l h rest zero c lt e =
    subst (λ (x : FreeBlock). x.size < size) (some-injective b c e) h
before-cons size k b l h rest (suc j) c lt e = rest j c (omega (arith, lt)) e

IsFirst-cons :
    (size i : ℕ) (b : FreeBlock) (l : List FreeBlock) (o : Option ℕ)
    → b.size < size
    → IsFirst size l (suc i) o
    → IsFirst size (b ∷ l) i o
IsFirst-cons size i b l none h a = (h, a)
IsFirst-cons size i b l (some n) h (k, c, at_k, e, le, before) =
    (suc k, c, omega (arith, at_k), e, le, before-cons size k b l h before)

pub first_from-IsFirst :
    (size : ℕ) (l : List FreeBlock) (i : ℕ) → IsFirst size l i (first_from size l i)
first_from-IsFirst size [] i = tt
first_from-IsFirst size (b ∷ l) i = elim (Bool-cases (leb size b.size)) [
  | inl e ↦
      rw e
        (0, b, omega arith, refl, le_of_leb size b.size e, λ j c lt h. absurd (omega (arith, lt)))
  | inr e ↦ rw e (
      IsFirst-cons size i b l (first_from size l (suc i)) (lt_of_leb size b.size e)
        (first_from-IsFirst size l (suc i)))
]

pub IsFirst-IsFit :
    (size : ℕ) (l : List FreeBlock) (o : Option ℕ) → IsFirst size l 0 o → IsFit first_fit size l o
IsFirst-IsFit size l none a = a
IsFirst-IsFit size l (some n) (k, b, at_k, e, le, before) =
    let same : k ≡ n = omega (arith, at_k) in
    (
      b,
      subst (λ x. get_elem? x l ≡ some b) same e,
      le,
      subst (λ x. (j : ℕ) (c : FreeBlock) → j < x → get_elem? j l ≡ some c → c.size < size) same
          before,
    )

-- What the other two have found in the blocks before the one they look at.
pub get_elem?-append :
    (i : ℕ) (l m : List FreeBlock) (b : FreeBlock)
    → get_elem? i l ≡ some b
    → get_elem? i (l ++ m) ≡ some b
get_elem?-append i [] m b e = cc
get_elem?-append zero (c ∷ l) m b e = e
get_elem?-append (suc i) (c ∷ l) m b e = get_elem?-append i l m b e

pub get_elem?-last :
    (l m : List FreeBlock) (b : FreeBlock) → get_elem? (length l) (l ++ (b ∷ m)) ≡ some b
get_elem?-last [] m b = refl
get_elem?-last (c ∷ l) m b = get_elem?-last l m b

pub All-snoc :
    (P : FreeBlock → Type 0) (l : List FreeBlock) (b : FreeBlock)
    → All P l
    → P b
    → All P (l ++ (b ∷ []))
All-snoc P [] b a p = (p, tt)
All-snoc P (c ∷ l) b (q, a) p = (q, All-snoc P l b a p)

pub All-map :
    (P Q : FreeBlock → Type 0) (l : List FreeBlock)
    → ((b : FreeBlock) → P b → Q b)
    → All P l
    → All Q l
All-map P Q [] f a = tt
All-map P Q (b ∷ l) f (p, a) = (f b p, All-map P Q l f a)

pub snoc-append : (l m : List FreeBlock) (b : FreeBlock) → (l ++ (b ∷ [])) ++ m ≡ l ++ (b ∷ m)
snoc-append [] m b = refl
snoc-append (c ∷ l) m b = ap (λ x. c ∷ x) (snoc-append l m b)

pub length-snoc : (l : List FreeBlock) (b : FreeBlock) → length (l ++ (b ∷ [])) ≡ suc (length l)
length-snoc [] b = refl
length-snoc (c ∷ l) b = ap suc (length-snoc l b)
