-- ===== src/Allocator/Extremes.antt =====
-- The loops of best_fit and worst_fit in lab8/mm.cpp.
use sustech_cs.Prelude.{
  ℕ, suc, ◌-◌, ◌≤◌, ◌<◌, ◌≡◌, refl, sym, ◌∙◌, subst, inl, inr, true, false, ◌&&◌, Option, none,
  some, List, [], ◌∷◌, ◌++◌, ltb, leb, length, All, arith, Bool-cases,
}
use mathlib.Core.List.{append-nil}
use sustech_cs.Prelude.Int.{ℤ, negsuc, sub_ℕ, ltb_ℤ}
use sustech_cs.Allocator.{
  FreeBlock, Algorithm, first_fit, best_fit, worst_fit, first_from, best_from, worst_from, int_max,
  fit,
}
use sustech_cs.Allocator.Fit.{
  get_elem?, IsFit, first_from-IsFirst, IsFirst-IsFit, get_elem?-append, get_elem?-last, All-snoc,
  All-map, snoc-append, length-snoc, le_of_leb, lt_of_leb,
}

-- What best_fit has found among the blocks before the one it looks at.
data BestSoFar (size : ℕ) (before : List FreeBlock) : ℕ → Option ℕ → Type 0 where
  none_yet : All (λ c. c.size < size) before → BestSoFar size before int_max none
  so_far :
      (i : ℕ) (b : FreeBlock)
      → get_elem? i before ≡ some b
      → size ≤ b.size
      → All (λ c. size ≤ c.size → b.size ≤ c.size) before
      → BestSoFar size before (b.size - size) (some i)

best-better :
    (size best : ℕ) (before : List FreeBlock) (chosen : Option ℕ) (b : FreeBlock)
    → size ≤ b.size
    → b.size - size < best
    → BestSoFar size before best chosen
    → BestSoFar size (before ++ (b ∷ [])) (b.size - size) (some (length before))
best-better size _ before _ b h lt (none_yet a) =
    so_far (length before) b (get_elem?-last before [] b) h (
      All-snoc (λ c. size ≤ c.size → b.size ≤ c.size) before b
        (All-map (λ c. c.size < size) (λ c. size ≤ c.size → b.size ≤ c.size) before
          (λ c small large. absurd (omega (arith, small, large))) a)
        (λ le. omega arith))
best-better size _ before _ b h lt (so_far i c at_i le a) =
    so_far (length before) b (get_elem?-last before [] b) h (
      All-snoc (λ d. size ≤ d.size → b.size ≤ d.size) before b
        (All-map (λ d. size ≤ d.size → c.size ≤ d.size) (λ d. size ≤ d.size → b.size ≤ d.size)
          before (λ d f large. omega (arith, f large, lt)) a)
        (λ le. omega arith))

best-same :
    (size best : ℕ) (before : List FreeBlock) (chosen : Option ℕ) (b : FreeBlock)
    → 1 ≤ size
    → b.size ≤ int_max
    → (size ≤ b.size → best ≤ b.size - size)
    → BestSoFar size before best chosen
    → BestSoFar size (before ++ (b ∷ [])) best chosen
best-same size _ before _ b one max h (none_yet a) =
    none_yet (All-snoc (λ c. c.size < size) before b a (small size b.size one max h))
  where
    small : (size n : ℕ) → 1 ≤ size → n ≤ int_max → (size ≤ n → int_max ≤ n - size) → n < size
    small size n one max h = elim (Bool-cases (leb size n)) [
      | inl e ↦ absurd (
          let f = h (le_of_leb size n e) in
          let g = le_of_leb size n e in omega (arith, f, g, one, max))
      | inr e ↦ lt_of_leb size n e
    ]
best-same size _ before _ b one max h (so_far i c at_i le a) =
    so_far i c (get_elem?-append i before (b ∷ []) c at_i) le
      (All-snoc (λ d. size ≤ d.size → c.size ≤ d.size) before b a (λ l. omega (arith, h l, le, l)))

best-IsFit :
    (size best : ℕ) (l : List FreeBlock) (chosen : Option ℕ)
    → BestSoFar size l best chosen
    → IsFit best_fit size l chosen
best-IsFit size _ l _ (none_yet a) = a
best-IsFit size _ l _ (so_far i b at_i le a) = (b, at_i, le, a)

best_from-IsFit :
    (size : ℕ) (l before : List FreeBlock) (i best : ℕ) (chosen : Option ℕ)
    → 1 ≤ size
    → All (λ b. b.size ≤ int_max) l
    → i ≡ length before
    → BestSoFar size before best chosen
    → IsFit best_fit size (before ++ l) (best_from size l i best chosen)
best_from-IsFit size [] before i best chosen one max n s =
    subst (λ m. IsFit best_fit size m chosen) (sym (append-nil before))
      (best-IsFit size best before chosen s)
best_from-IsFit size (b ∷ l) before i best chosen one (max, rest) n s =
    let n' : suc i ≡ length (before ++ (b ∷ [])) = omega (arith, n, length-snoc before b) in
    let on = λ (best' : ℕ) (chosen' : Option ℕ).
      λ (t : BestSoFar size (before ++ (b ∷ [])) best' chosen').
        subst (λ m. IsFit best_fit size m (best_from size l (suc i) best' chosen'))
          (snoc-append before l b)
          (best_from-IsFit size l (before ++ (b ∷ [])) (suc i) best' chosen' one rest n' t) in
    elim (Bool-cases (leb size b.size && ltb (b.size - size) best)) [
      | inl e ↦ rw e (
          on (b.size - size) (some i) (
            subst (λ k. BestSoFar size (before ++ (b ∷ [])) (b.size - size) (some k)) (sym n)
              (best-better size best before chosen b (ground arith) (ground arith) s)))
      | inr e ↦
          rw e (on best chosen (best-same size best before chosen b one max (λ le. ground arith) s))
    ]

-- The same for worst_fit.
data WorstSoFar (size : ℕ) (before : List FreeBlock) : ℤ → Option ℕ → Type 0 where
  none_yet : All (λ c. c.size < size) before → WorstSoFar size before (negsuc 0) none
  so_far :
      (i : ℕ) (b : FreeBlock)
      → get_elem? i before ≡ some b
      → size ≤ b.size
      → All (λ c. c.size ≤ b.size) before
      → WorstSoFar size before (sub_ℕ b.size size) (some i)

worse-than_none : (n size : ℕ) → ltb_ℤ (negsuc 0) (sub_ℕ n size) ≡ leb size n
worse-than_none n size = ground arith

worse-than : (n m size : ℕ) → size ≤ m → ltb_ℤ (sub_ℕ m size) (sub_ℕ n size) ≡ ltb m n
worse-than n m size h = ground arith

worst-worse :
    (size : ℕ) (worst : ℤ) (before : List FreeBlock) (chosen : Option ℕ) (b : FreeBlock)
    → ltb_ℤ worst (sub_ℕ b.size size) ≡ true
    → WorstSoFar size before worst chosen
    → WorstSoFar size (before ++ (b ∷ [])) (sub_ℕ b.size size) (some (length before))
worst-worse size _ before _ b e (none_yet a) =
    let h = le_of_leb size b.size (sym (worse-than_none b.size size) ∙ e) in
    so_far (length before) b (get_elem?-last before [] b) h (
      All-snoc (λ c. c.size ≤ b.size) before b
        (All-map (λ c. c.size < size) (λ c. c.size ≤ b.size) before
          (λ c small. omega (arith, small, h)) a)
        (omega arith))
worst-worse size _ before _ b e (so_far i c at_i le a) =
    let e' = sym (worse-than b.size c.size size le) ∙ e in
    let h : c.size < b.size = ground arith in
    so_far (length before) b (get_elem?-last before [] b) (omega (arith, h, le)) (
      All-snoc (λ d. d.size ≤ b.size) before b
        (All-map (λ d. d.size ≤ c.size) (λ d. d.size ≤ b.size) before (λ d f. omega (arith, f, h))
          a)
        (omega arith))

worst-same :
    (size : ℕ) (worst : ℤ) (before : List FreeBlock) (chosen : Option ℕ) (b : FreeBlock)
    → ltb_ℤ worst (sub_ℕ b.size size) ≡ false
    → WorstSoFar size before worst chosen
    → WorstSoFar size (before ++ (b ∷ [])) worst chosen
worst-same size _ before _ b e (none_yet a) = none_yet (
    All-snoc (λ c. c.size < size) before b a
      (lt_of_leb size b.size (sym (worse-than_none b.size size) ∙ e)))
worst-same size _ before _ b e (so_far i c at_i le a) =
    let e' = sym (worse-than b.size c.size size le) ∙ e in
    so_far i c (get_elem?-append i before (b ∷ []) c at_i) le
      (All-snoc (λ d. d.size ≤ c.size) before b a (ground arith))

worst-IsFit :
    (size : ℕ) (worst : ℤ) (l : List FreeBlock) (chosen : Option ℕ)
    → WorstSoFar size l worst chosen
    → IsFit worst_fit size l chosen
worst-IsFit size _ l _ (none_yet a) = a
worst-IsFit size _ l _ (so_far i b at_i le a) = (b, at_i, le, a)

worst_from-IsFit :
    (size : ℕ) (l before : List FreeBlock) (i : ℕ) (worst : ℤ) (chosen : Option ℕ)
    → i ≡ length before
    → WorstSoFar size before worst chosen
    → IsFit worst_fit size (before ++ l) (worst_from size l i worst chosen)
worst_from-IsFit size [] before i worst chosen n s =
    subst (λ m. IsFit worst_fit size m chosen) (sym (append-nil before))
      (worst-IsFit size worst before chosen s)
worst_from-IsFit size (b ∷ l) before i worst chosen n s =
    let n' : suc i ≡ length (before ++ (b ∷ [])) = omega (arith, n, length-snoc before b) in
    let on = λ (worst' : ℤ) (chosen' : Option ℕ).
      λ (t : WorstSoFar size (before ++ (b ∷ [])) worst' chosen').
        subst (λ m. IsFit worst_fit size m (worst_from size l (suc i) worst' chosen'))
          (snoc-append before l b)
          (worst_from-IsFit size l (before ++ (b ∷ [])) (suc i) worst' chosen' n' t) in
    elim (Bool-cases (ltb_ℤ worst (sub_ℕ b.size size))) [
      | inl e ↦ rw e (
          on (sub_ℕ b.size size) (some i) (
            subst (λ k. WorstSoFar size (before ++ (b ∷ [])) (sub_ℕ b.size size) (some k)) (sym n)
              (worst-worse size worst before chosen b e s)))
      | inr e ↦ rw e (on worst chosen (worst-same size worst before chosen b e s))
    ]

-- For a positive size and blocks whose sizes are ints: if no block is taken, all are too small; a
-- block that is taken is large enough, and it is the first such block with first_fit, a smallest of
-- them with best_fit and a largest of all with worst_fit.
pub fit-IsFit :
    (func : Algorithm) (size : ℕ) (l : List FreeBlock)
    → 1 ≤ size
    → All (λ b. b.size ≤ int_max) l
    → IsFit func size l (fit func size l)
unfolding fit
fit-IsFit first_fit size l one max =
    IsFirst-IsFit size l (first_from size l 0) (first_from-IsFirst size l 0)
fit-IsFit best_fit size l one max =
    best_from-IsFit size l [] 0 int_max none one max refl (none_yet tt)
fit-IsFit worst_fit size l one max = worst_from-IsFit size l [] 0 (negsuc 0) none refl (none_yet tt)
