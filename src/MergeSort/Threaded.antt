-- ===== src/MergeSort/Threaded.antt =====
-- The threads of main in Bonus_Lab4/OS_BONUS1_11612917.c and the merging of their slices sort the
-- array.
use sustech_cs.Prelude.{
  ℕ, zero, suc, ◌+◌, ◌-◌, ◌*◌, ◌≤◌, ◌<◌, ◌≡◌, ◌≢◌, refl, ap, sym, ◌∙◌, subst, inl, inr, true, false,
  List, [], ◌∷◌, leb, ◌==◌, count, All, arith, Bool-cases, eq_of_==,
}
use sustech_cs.Prelude.Int.{ℤ}
use sustech_cs.MergeSort.{Array, Arrays, merge, merge_sort, nodelist, run_threads, merge_from, sort}
use sustech_cs.MergeSort.Lists.{slice, Sorted, occurrences, slice-cong}
use sustech_cs.MergeSort.Sorted.{
  Sorts, occurrences-split, merge-Sorts, slice-kept, merge_sort-Sorts,
}

nodelist-l : (i : ℕ) → (nodelist i).l ≡ i * 125
unfolding nodelist
nodelist-l i = refl

nodelist-r : (i : ℕ) → i < 8 → suc (nodelist i).r ≡ i * 125 + 125
unfolding nodelist
nodelist-r i h = ground arith

-- The slice of a thread behind its run.
thread-Sorts :
    (i : ℕ) (s : Arrays)
    → i < 8
    → Sorts (i * 125) 125 s.arr (merge_sort 1000 (nodelist i).l (nodelist i).r s).arr
thread-Sorts i s h =
    let size : suc (nodelist i).r - i * 125 ≡ 125 = omega (arith, nodelist-r i h) in
    let sorts = merge_sort-Sorts 1000 (i * 125) (nodelist i).r s (omega (arith, size)) in
    let run = λ (l : ℕ). (merge_sort 1000 l (nodelist i).r s).arr in
    subst (λ l. Sorts (i * 125) 125 s.arr (run l)) (sym (nodelist-l i))
      (subst (λ n. Sorts (i * 125) n s.arr (run (i * 125))) size sorts)

count-here : (k i : ℕ) (l : List ℕ) → k ≡ i → ¬ (count i (k ∷ l) ≡ 0)
count-here k i l e = ground arith

count-rest : (k i : ℕ) (l : List ℕ) → count i (k ∷ l) ≡ 0 → count i l ≡ 0
count-rest k i l e = ground arith

le_of_leb : (a b : ℕ) → leb a b ≡ true → a ≤ b
le_of_leb a b e = ground arith

lt_of_leb : (a b : ℕ) → leb a b ≡ false → b < a
lt_of_leb a b e = ground arith

Sorts-same :
    (v : ℤ) (l n : ℕ) (f g : Array)
    → Sorts l n f g
    → occurrences v (slice g (0 + l) n) ≡ occurrences v (slice f (0 + l) n)
Sorts-same v l n f g s =
    let start : l ≡ 0 + l = omega arith in
    subst (λ a. occurrences v (slice g a n) ≡ occurrences v (slice f a n)) start (s.same v)

Sorts-whole :
    (v : ℤ) (l n rest : ℕ) (f g : Array)
    → Sorts l n f g
    → occurrences v (slice g 0 (l + (n + rest))) ≡ occurrences v (slice f 0 (l + (n + rest)))
Sorts-whole v l n rest f g s = omega (
  arith,
  occurrences-split v g 0 l (n + rest),
  occurrences-split v g (0 + l) n rest,
  occurrences-split v f 0 l (n + rest),
  occurrences-split v f (0 + l) n rest,
  Sorts-same v l n f g s,
  ap (occurrences v) (slice-kept f g l n 0 l s (inl (omega arith))),
  ap (occurrences v) (slice-kept f g l n (0 + l + n) rest s (inr (omega arith))),
)

Sorts-all :
    (v : ℤ) (l n : ℕ) (f g : Array)
    → l + n ≤ 1000
    → Sorts l n f g
    → occurrences v (slice g 0 1000) ≡ occurrences v (slice f 0 1000)
Sorts-all v l n f g h s =
    let whole : l + (n + (1000 - (l + n))) ≡ 1000 = omega (arith, h) in
    subst (λ t. occurrences v (slice g 0 t) ≡ occurrences v (slice f 0 t)) whole
      (Sorts-whole v l n (1000 - (l + n)) f g s)

-- What the threads leave.
run_threads-kept :
    (order : List ℕ) (s : Arrays) (i j : ℕ)
    → All (λ k. k < 8) order
    → count i order ≡ 0
    → i * 125 ≤ j
    → j < i * 125 + 125
    → (run_threads order s).arr j ≡ s.arr j
unfolding run_threads
run_threads-kept [] s i j a e lo hi = refl
run_threads-kept (k ∷ order) s i j (h, a) e lo hi =
    let other : k ≢ i = λ g. count-here k i order g e in
    let s' = merge_sort 1000 (nodelist k).l (nodelist k).r s in
    let t = thread-Sorts k s h in
    run_threads-kept order s' i j a (count-rest k i order e) lo hi ∙ elim (Bool-cases (leb i k)) [
      | inl f ↦ t.under j (omega (arith, le_of_leb i k f, other, hi))
      | inr f ↦ t.over j (omega (arith, lt_of_leb i k f, lo))
    ]

run_threads-Sorted :
    (order : List ℕ) (s : Arrays) (i : ℕ)
    → All (λ k. k < 8) order
    → i < 8
    → count i order ≡ 1
    → Sorted (slice (run_threads order s).arr (i * 125) 125)
unfolding run_threads
run_threads-Sorted [] s i a lt e = absurd (omega (arith, e))
run_threads-Sorted (k ∷ order) s i (h, a) lt e =
    let s' = merge_sort 1000 (nodelist k).l (nodelist k).r s in
    elim (Bool-cases (k == i)) [
      | inl f ↦
          let g = eq_of_== k i f in
          let e' : suc (count i order) ≡ 1 = rw f at e in
          let t = subst (λ x. Sorted (slice s'.arr (x * 125) 125)) g (thread-Sorts k s h).sorted in
          subst Sorted
            (sym (
              slice-cong (run_threads order s').arr s'.arr (i * 125) 125
                (λ j lo hi. run_threads-kept order s' i j a (omega (arith, e')) lo hi)))
            t
      | inr f ↦ let e' : count i order ≡ 1 = rw f at e in run_threads-Sorted order s' i a lt e'
    ]

run_threads-occurrences :
    (v : ℤ) (order : List ℕ) (s : Arrays)
    → All (λ k. k < 8) order
    → occurrences v (slice (run_threads order s).arr 0 1000) ≡ occurrences v (slice s.arr 0 1000)
unfolding run_threads
run_threads-occurrences v [] s a = refl
run_threads-occurrences v (k ∷ order) s (h, a) =
    let s' = merge_sort 1000 (nodelist k).l (nodelist k).r s in
    run_threads-occurrences v order s' a
    ∙ Sorts-all v (k * 125) 125 s.arr s'.arr (omega (arith, h)) (thread-Sorts k s h)

-- Merging the slices from `i` on, when those before are merged already.
merge_from-Sorted :
    (left i : ℕ) (s : Arrays)
    → 1 ≤ i
    → i + left ≡ 8
    → Sorted (slice s.arr 0 (i * 125))
    → ((k : ℕ) → i ≤ k → k < 8 → Sorted (slice s.arr (k * 125) 125))
    → Sorted (slice (merge_from left i s).arr 0 1000)
      × ((v : ℤ)
          → occurrences v (slice (merge_from left i s).arr 0 1000)
            ≡ occurrences v (slice s.arr 0 1000))
unfolding merge_from
merge_from-Sorted zero i s h e first later =
    let all : i * 125 ≡ 1000 = omega (arith, e) in
    (subst (λ n. Sorted (slice s.arr 0 n)) all first, λ v. refl)
merge_from-Sorted (suc left) i s h e first later =
    let mid = (nodelist i).l - 1 in
    let r = (nodelist i).r in
    let inside : i < 8 = omega (arith, e) in
    let at_l = nodelist-l i in
    let at_r = nodelist-r i inside in
    let s' = merge 0 mid r s in
    let start : suc mid ≡ i * 125 = omega (arith, at_l, h) in
    let len : r - mid ≡ 125 = omega (arith, at_l, at_r, h) in
    let start' : suc mid - 0 ≡ i * 125 = omega (arith, start) in
    let first' = subst (λ n. Sorted (slice s.arr 0 n)) (sym start') first in
    let second = later i (omega arith) inside in
    let second' =
      subst (λ n. Sorted (slice s.arr (suc mid) n)) (sym len)
        (subst (λ a. Sorted (slice s.arr a 125)) (sym start) second) in
    let both = merge-Sorts 0 mid r s (omega arith) (omega (arith, start, at_r)) first' second' in
    let size : suc r - 0 ≡ suc i * 125 = omega (arith, at_r) in
    let sorts = subst (λ n. Sorts 0 n s.arr s'.arr) size both in
    let (sorted, same) =
      merge_from-Sorted left (suc i) s' (omega arith) (omega (arith, e)) sorts.sorted (λ k le lt.
        subst Sorted
          (sym
            (slice-kept s.arr s'.arr 0 (suc i * 125) (k * 125) 125 sorts (inr (omega (arith, le)))))
          (later k (omega (arith, le)) lt)) in
    (sorted, λ v. same v ∙ Sorts-all v 0 (suc i * 125) s.arr s'.arr (omega (arith, inside)) sorts)

-- Whatever the order in which the eight threads sort their slices, main puts the whole array in
-- order and keeps each number as often as it was there.
pub sort-Sorted :
    (order : List ℕ) (s : Arrays)
    → All (λ k. k < 8) order
    → ((k : ℕ) → k < 8 → count k order ≡ 1)
    → Sorted (slice (sort order s).arr 0 1000)
      × ((v : ℤ)
          → occurrences v (slice (sort order s).arr 0 1000) ≡ occurrences v (slice s.arr 0 1000))
unfolding sort
sort-Sorted order s a once =
    let s' = run_threads order s in
    let slices = λ (k : ℕ) (lt : k < 8). run_threads-Sorted order s k a lt (once k lt) in
    let (sorted, same) =
      merge_from-Sorted 7 1 s' (omega arith) (omega arith) (slices 0 (omega arith))
        (λ k le lt. slices k lt) in
    (sorted, λ v. same v ∙ run_threads-occurrences v order s a)
