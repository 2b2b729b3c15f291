-- ===== src/MergeSort/Sorted.antt =====
-- merge_sort of Bonus_Lab4/OS_BONUS1_11612917.c sorts its slice.
use sustech_cs.Prelude.{
  ℕ, zero, suc, ◌+◌, ◌-◌, ◌/◌, ◌≤◌, ◌<◌, ◌≡◌, refl, ap, sym, ◌∙◌, subst, ◌⊎◌, inl, inr, List, leb,
  length, arith, Bool-cases,
}
use sustech_cs.Prelude.Int.{ℤ}
use sustech_cs.MergeSort.{Array, Arrays, merge, merge_sort}
use sustech_cs.MergeSort.Lists.{
  slice, write, merged, Sorted, occurrences, length-slice, slice-cong, slice-append, write-before,
  write-behind, slice-write, length-merged, occurrences-append, occurrences-merged, merged-Sorted,
}
use sustech_cs.MergeSort.Merged.{merge-write}

-- From one array to another: the `n` elements from `l` on are put in order, the others stay.
pub record Sorts (l n : ℕ) (before after : Array) : Type 0 where
  pub sorted : Sorted (slice after l n)
  pub same : (v : ℤ) → occurrences v (slice after l n) ≡ occurrences v (slice before l n)
  pub under : (j : ℕ) → j < l → after j ≡ before j
  pub over : (j : ℕ) → l + n ≤ j → after j ≡ before j

pub occurrences-split :
    (v : ℤ) (f : Array) (a n m : ℕ)
    → occurrences v (slice f a (n + m))
      ≡ occurrences v (slice f a n) + occurrences v (slice f (a + n) m)
occurrences-split v f a n m =
    ap (occurrences v) (slice-append f a n m)
    ∙ occurrences-append v (slice f a n) (slice f (a + n) m)

merge-Sorts-sized :
    (l n m : ℕ) (f g : Array) (xs ys : List ℤ)
    → xs ≡ slice f l n
    → ys ≡ slice f (l + n) m
    → g ≡ write f l (merged xs ys)
    → Sorted xs
    → Sorted ys
    → Sorts l (n + m) f g
merge-Sorts-sized l n m f g xs ys ex ey eg sx sy =
    let size : length (merged xs ys) ≡ n + m = omega (
      arith,
      length-merged xs ys,
      ap length ex,
      ap length ey,
      length-slice f l n,
      length-slice f (l + n) m,
    ) in
    let result : slice g l (n + m) ≡ merged xs ys =
      ap (λ h. slice h l (n + m)) eg
      ∙ (ap (slice (write f l (merged xs ys)) l) (sym size) ∙ slice-write f l (merged xs ys)) in
    record {
      sorted = subst Sorted (sym result) (merged-Sorted xs ys sx sy);
      same = λ v. omega (
        arith,
        ap (occurrences v) result,
        occurrences-merged v xs ys,
        ap (occurrences v) ex,
        ap (occurrences v) ey,
        occurrences-split v f l n m,
      );
      under = λ j h. ap (λ k. k j) eg ∙ write-before f l j (merged xs ys) h;
      over = λ j h. ap (λ k. k j) eg ∙ write-behind f l j (merged xs ys) (omega (arith, size, h));
    }

-- merge of two slices that are sorted.
pub merge-Sorts :
    (l mid r : ℕ) (s : Arrays)
    → l ≤ mid
    → mid ≤ r
    → Sorted (slice s.arr l (suc mid - l))
    → Sorted (slice s.arr (suc mid) (r - mid))
    → Sorts l (suc r - l) s.arr (merge l mid r s).arr
merge-Sorts l mid r s h h' sx sy =
    let sizes : (suc mid - l) + (r - mid) ≡ suc r - l = omega (arith, h, h') in
    let start : suc mid ≡ l + (suc mid - l) = omega (arith, h) in
    subst (λ n. Sorts l n s.arr (merge l mid r s).arr) sizes
      (merge-Sorts-sized l (suc mid - l) (r - mid) s.arr (merge l mid r s).arr
        (slice s.arr l (suc mid - l)) (slice s.arr (suc mid) (r - mid)) refl
        (ap (λ a. slice s.arr a (r - mid)) start) (merge-write l mid r s h h') sx sy)

short-Sorted : (f : Array) (a n : ℕ) → n ≤ 1 → Sorted (slice f a n)
short-Sorted f a zero h = tt
short-Sorted f a (suc zero) h = (tt, tt)
short-Sorted f a (suc (suc n)) h = absurd (omega (arith, h))

-- A slice that the sorting of another one leaves alone.
pub slice-kept :
    (f g : Array) (l n a m : ℕ)
    → Sorts l n f g
    → (a + m ≤ l) ⊎ (l + n ≤ a)
    → slice g a m ≡ slice f a m
slice-kept f g l n a m s (inl h) = slice-cong g f a m (λ j lo hi. s.under j (omega (arith, hi, h)))
slice-kept f g l n a m s (inr h) = slice-cong g f a m (λ j lo hi. s.over j (omega (arith, lo, h)))

-- Two neighbouring slices are sorted, then both of them together.
Sorts-both :
    (l n m : ℕ) (f g h k : Array)
    → Sorts l n f g
    → Sorts (l + n) m g h
    → Sorts l (n + m) h k
    → Sorts l (n + m) f k
Sorts-both l n m f g h k a b c = record {
  sorted = c.sorted;
  same = λ v. omega (
    arith,
    c.same v,
    occurrences-split v h l n m,
    occurrences-split v f l n m,
    b.same v,
    a.same v,
    ap (occurrences v) (slice-kept g h (l + n) m l n b (inl (omega arith))),
    ap (occurrences v) (slice-kept f g l n (l + n) m a (inr (omega arith))),
  );
  under = λ j lt. c.under j lt ∙ (b.under j (omega (arith, lt)) ∙ a.under j lt);
  over = λ j le. c.over j le ∙ (b.over j (omega (arith, le)) ∙ a.over j (omega (arith, le)));
}

-- merge_sort, for a depth that the length of the slice does not exceed, puts the elements from `l`
-- to `r` in order and changes no other.
pub merge_sort-Sorts :
    (depth l r : ℕ) (s : Arrays)
    → suc r - l ≤ depth
    → Sorts l (suc r - l) s.arr (merge_sort depth l r s).arr
unfolding merge_sort
merge_sort-Sorts zero l r s h = record {
  sorted = short-Sorted s.arr l (suc r - l) (omega (arith, h));
  same = λ v. refl;
  under = λ j lt. refl;
  over = λ j le. refl;
}
merge_sort-Sorts (suc depth) l r s h = elim (Bool-cases (leb r l)) [
  | inl e ↦
      let short : suc r - l ≤ 1 = ground arith in
      rw (merge_sort, e)
        (record {
          sorted = short-Sorted s.arr l (suc r - l) short;
          same = λ v. refl;
          under = λ j lt. refl;
          over = λ j le. refl;
        })
  | inr e ↦
      let more : l < r = ground arith in
      let mid = (l + r) / 2 in
      let lo : l ≤ mid = omega (arith, more) in
      let hi : mid < r = omega (arith, more) in
      let s1 = merge_sort depth l (suc mid - 1) s in
      let s2 = merge_sort depth (suc mid) r s1 in
      let s3 = merge l mid r s2 in
      let n = suc mid - l in
      let m = r - mid in
      let a : Sorts l n s.arr s1.arr =
        subst (λ x. Sorts l (suc x - l) s.arr s1.arr) (omega arith)
          (merge_sort-Sorts depth l (suc mid - 1) s (omega (arith, h, lo, hi))) in
      let start : l + n ≡ suc mid = omega (arith, lo) in
      let size : suc r - suc mid ≡ m = omega arith in
      let b' : Sorts (suc mid) m s1.arr s2.arr =
        subst (λ x. Sorts (suc mid) x s1.arr s2.arr) size
          (merge_sort-Sorts depth (suc mid) r s1 (omega (arith, h, lo, hi))) in
      let b : Sorts (l + n) m s1.arr s2.arr = subst (λ x. Sorts x m s1.arr s2.arr) (sym start) b' in
      let sizes : n + m ≡ suc r - l = omega (arith, lo, hi) in
      let first =
        subst Sorted (sym (slice-kept s1.arr s2.arr (l + n) m l n b (inl (omega arith))))
          a.sorted in
      let c = merge-Sorts l mid r s2 lo (omega (arith, hi)) first b'.sorted in
      let c' = subst (λ x. Sorts l x s2.arr s3.arr) (sym sizes) c in
      rw (merge_sort, e)
        (subst (λ x. Sorts l x s.arr s3.arr) sizes
          (Sorts-both l n m s.arr s1.arr s2.arr s3.arr a b c'))
]
