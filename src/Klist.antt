-- ===== src/Klist.antt =====
-- The kernel's list routines that depend on an order: lib/kernel/list.c of pintos_pro3.
-- A `struct list` is the list of its elements from front to back, each named by its address, and
-- `less` is the comparison that the caller passes in. ASSERTs on null pointers have no counterpart.
pub mod Ordered
pub mod Basic
pub mod Extremes
pub mod Runs
pub mod Merge
pub mod Sort
use sustech_cs.Prelude.{
  ℕ, zero, suc, Bool, true, false, List, [], ◌∷◌, ◌++◌, ltb, ◌==◌, if◌then◌else◌,
}

-- list_insert_ordered: before the first element that `x` is less than.
pub list_insert_ordered : (ℕ → ℕ → Bool) → ℕ → List ℕ → List ℕ
list_insert_ordered less x [] = x ∷ []
list_insert_ordered less x (e ∷ l) =
    if less x e then x ∷ e ∷ l else e ∷ list_insert_ordered less x l

-- list_remove: takes the element out of the list that it stands in.
unfoldable pub list_remove : ℕ → List ℕ → List ℕ
list_remove x [] = []
list_remove x (e ∷ l) = if e == x then l else e ∷ list_remove x l

-- is_sorted: no element is less than the one before it.
pub is_sorted : (ℕ → ℕ → Bool) → List ℕ → Bool
is_sorted less [] = true
is_sorted less (x ∷ []) = true
is_sorted less (x ∷ y ∷ l) = if less y x then false else is_sorted less (y ∷ l)

-- find_end_of_run on `x ∷ l`: the run from `x` on, and what stands behind its end.
pub find_end_of_run : (ℕ → ℕ → Bool) → ℕ → List ℕ → List ℕ × List ℕ
find_end_of_run less x [] = (x ∷ [], [])
find_end_of_run less x (y ∷ l) =
    let (run, rest) = find_end_of_run less y l in
    if less y x then (x ∷ [], y ∷ l) else (x ∷ run, rest)

-- inplace_merge of two neighbouring ranges. An element of the second range goes before one of the
-- first only if it is less.
pub inplace_merge : (ℕ → ℕ → Bool) → List ℕ → List ℕ → List ℕ
inplace_merge less [] bs = bs
inplace_merge less (a ∷ xs) [] = a ∷ xs
inplace_merge less (a ∷ xs) (b ∷ bs) = elim (less b a) [
  | false ↦ a ∷ inplace_merge less xs (b ∷ bs)
  | true ↦ b ∷ inplace_merge less (a ∷ xs) bs
]

-- One round of the `for` loop of list_sort on the list `x ∷ l` that is left of the pass, and the
-- pass, which returns output_run_cnt and the list that it leaves. The first argument is fuel.
pub sort_pass : (ℕ → ℕ → Bool) → ℕ → List ℕ → ℕ × List ℕ
sort_pass less zero l = (0, l)
sort_pass less (suc k) [] = (0, [])
sort_pass less (suc k) (x ∷ l) =
    let (a, rest) = find_end_of_run less x l in
    elim rest [
      | [] ↦ (1, a)
      | y ∷ r ↦
          let (b, rest') = find_end_of_run less y r in
          let (cnt, out) = sort_pass less k rest' in (suc cnt, inplace_merge less a b ++ out)
    ]

-- The `do … while (output_run_cnt > 1)` of list_sort, on fuel.
pub sort_loop : (ℕ → ℕ → Bool) → ℕ → ℕ → List ℕ → List ℕ
sort_loop less k zero l = l
sort_loop less k (suc f) l =
    let (cnt, out) = sort_pass less k l in
    elim (ltb 1 cnt) [ true ↦ sort_loop less k f out | false ↦ out ]
