-- ===== src/Allocator/Cover.antt =====
-- The addresses that the blocks of lab8/mm.cpp cover.
use sustech_cs.Prelude.{
  ℕ, zero, suc, ◌+◌, ◌-◌, ◌≤◌, ◌<◌, ◌≡◌, refl, ap, sym, ◌∙◌, subst, inl, inr, ◌&&◌, some, List, [],
  ◌∷◌, ltb, leb, ◌==◌, if◌then◌else◌, length, All, arith, Bool-cases, eq_of_==, some-injective,
}
use sustech_cs.Allocator.{
  FreeBlock, AllocatedBlock, find_process, insert_before, start_of, carve, exchange, sort, join,
  rearrange, free_mem, dispose,
}
use sustech_cs.Allocator.Fit.{get_elem?}

-- How many of the blocks have the address `x`.
abbrev pub covers : ℕ → ℕ → ℕ → ℕ
covers x start size = if leb start x && ltb x (start + size) then 1 else 0

abbrev pub free_covers : ℕ → List FreeBlock → ℕ
free_covers x [] = 0
free_covers x (b ∷ l) = covers x b.start_addr b.size + free_covers x l

abbrev pub allocated_covers : ℕ → List AllocatedBlock → ℕ
allocated_covers x [] = 0
allocated_covers x (b ∷ l) = covers x b.start_addr b.size + allocated_covers x l

covers-split : (x a n m : ℕ) → covers x a (n + m) ≡ covers x a n + covers x (a + n) m
covers-split x a n m = ground arith

covers-part :
    (x a n size : ℕ) → size ≤ n → covers x a n ≡ covers x a size + covers x (a + size) (n - size)
covers-part x a n size h =
    let whole : size + (n - size) ≡ n = omega (arith, h) in
    subst (λ k. covers x a k ≡ covers x a size + covers x (a + size) (n - size)) whole
      (covers-split x a size (n - size))

pub free_covers-carve :
    (x i size : ℕ) (l : List FreeBlock) (b : FreeBlock)
    → get_elem? i l ≡ some b
    → size ≤ b.size
    → free_covers x l ≡ covers x (start_of i l) size + free_covers x (carve i size l)
free_covers-carve x i size [] b e h = cc
free_covers-carve x zero size (c ∷ l) b e h =
    let same = some-injective c b e in
    let h' : size ≤ c.size = subst (λ (d : FreeBlock). size ≤ d.size) (sym same) h in
    elim (Bool-cases (c.size == size)) [
      | inl f ↦ rw f (ap (λ n. covers x c.start_addr n + free_covers x l) (eq_of_== c.size size f))
      | inr f ↦ rw f (omega (arith, covers-part x c.start_addr c.size size h'))
    ]
free_covers-carve x (suc i) size (c ∷ l) b e h = omega (arith, free_covers-carve x i size l b e h)

pub allocated_covers-insert :
    (x : ℕ) (ab : AllocatedBlock) (l : List AllocatedBlock)
    → allocated_covers x (insert_before ab l)
      ≡ covers x ab.start_addr ab.size + allocated_covers x l
allocated_covers-insert x ab [] = refl
allocated_covers-insert x ab (b ∷ l) = elim (Bool-cases (ltb ab.start_addr b.start_addr)) [
  | inl f ↦ rw f refl
  | inr f ↦ rw f (omega (arith, allocated_covers-insert x ab l))
]

pub allocated_covers-dispose :
    (x id : ℕ) (l : List AllocatedBlock) (ab : AllocatedBlock)
    → find_process id l ≡ some ab
    → allocated_covers x l ≡ covers x ab.start_addr ab.size + allocated_covers x (dispose id l)
allocated_covers-dispose x id [] ab e = cc
allocated_covers-dispose x id (b ∷ l) ab e = elim (Bool-cases (b.pid == id)) [
  | inl f ↦
      let e' : some b ≡ some ab = rw f at e in
      rw f (
        ap (λ (c : AllocatedBlock). covers x c.start_addr c.size + allocated_covers x l)
          (some-injective b ab e'))
  | inr f ↦
      let e' : find_process id l ≡ some ab = rw f at e in
      rw f (omega (arith, allocated_covers-dispose x id l ab e'))
]

free_covers-exchange :
    (x : ℕ) (t : FreeBlock) (l : List FreeBlock)
    → covers x (exchange t l).0.start_addr (exchange t l).0.size + free_covers x (exchange t l).1
      ≡ covers x t.start_addr t.size + free_covers x l
free_covers-exchange x t [] = refl
free_covers-exchange x t (b ∷ l) = elim (Bool-cases (ltb b.start_addr t.start_addr)) [
  | inl f ↦ rw f (omega (arith, free_covers-exchange x b l))
  | inr f ↦ rw f (omega (arith, free_covers-exchange x t l))
]

free_covers-sort :
    (x rounds : ℕ) (l : List FreeBlock) → free_covers x (sort rounds l) ≡ free_covers x l
free_covers-sort x zero [] = refl
free_covers-sort x (suc rounds) [] = refl
free_covers-sort x zero (b ∷ l) = refl
free_covers-sort x (suc rounds) (b ∷ l) =
    omega (arith, free_covers-exchange x b l, free_covers-sort x rounds (exchange b l).1)

free_covers-join : (x : ℕ) (l : List FreeBlock) → free_covers x (join l) ≡ free_covers x l
free_covers-join x [] = refl
free_covers-join x (b ∷ []) = refl
free_covers-join x (b ∷ (c ∷ l)) = elim (Bool-cases (b.start_addr + b.size == c.start_addr)) [
  | inl f ↦
      rw (join, f)
        (omega (
          arith,
          free_covers-join x l,
          covers-split x b.start_addr b.size c.size,
          ap (λ a. covers x a c.size) (eq_of_== (b.start_addr + b.size) c.start_addr f),
        ))
  | inr f ↦ rw (join, f) (omega (arith, free_covers-join x (c ∷ l)))
]

pub free_covers-free_mem :
    (x : ℕ) (ab : AllocatedBlock) (l : List FreeBlock)
    → free_covers x (free_mem ab l) ≡ covers x ab.start_addr ab.size + free_covers x l
unfolding free_mem rearrange
free_covers-free_mem x ab [] = refl
free_covers-free_mem x ab (b ∷ l) =
    let m = b ∷ (record { start_addr = ab.start_addr; size = ab.size } ∷ l) in
    free_covers-join x (sort (length m) m)
    ∙ (free_covers-sort x (length m) m
        ∙ swap (covers x b.start_addr b.size) (covers x ab.start_addr ab.size) (free_covers x l))
  where
    swap : (a b c : ℕ) → a + (b + c) ≡ b + (a + c)
    swap a b c = omega arith

covers-last : (x a n : ℕ) → 1 ≤ n → x ≡ a + (n - 1) → covers x a n ≡ 1
covers-last x a n h e = ground arith

-- A block that lies in the memory is no larger than it.
pub free_covers-size :
    (total : ℕ) (l : List FreeBlock)
    → ((x : ℕ) → total ≤ x → free_covers x l ≡ 0)
    → All (λ b. b.size ≤ total) l
free_covers-size total [] h = tt
free_covers-size total (b ∷ l) h = (
  elim (Bool-cases (leb b.size total)) [
    | inl e ↦ ground arith
    | inr e ↦
        let large : total < b.size = ground arith in
        let last = b.start_addr + (b.size - 1) in
        let one = covers-last last b.start_addr b.size (omega (arith, large)) refl in
        absurd (omega (arith, one, h last (omega (arith, large))))
  ],
  free_covers-size total l (λ x le. omega (arith, h x le)),
)
