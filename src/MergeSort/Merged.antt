-- ===== src/MergeSort/Merged.antt =====
-- merge of Bonus_Lab4/OS_BONUS1_11612917.c merges the two slices.
use sustech_cs.Prelude.{
  ℕ, zero, suc, ◌+◌, ◌-◌, ◌≤◌, ◌<◌, ◌≡◌, refl, ap, sym, ◌∙◌, subst, ◌⊎◌, inl, inr, true, false,
  ◌&&◌, leb, if◌then◌else◌, arith, Bool-cases, if_true, if_false,
}
use sustech_cs.Prelude.Int.{ltb_ℤ}
use sustech_cs.MergeSort.{
  Array, Arrays, memcpy, Merging, take_1, take_2, both_loop, loop_1, loop_2, merge,
}
use sustech_cs.MergeSort.Lists.{slice, write, merged, slice-cong, merged-nil}
use sustech_cs.MergeSort.Rest.{
  leb-true, le_of_leb, lt_of_leb, span, span-cons, span-nil, rest_of, take-rest_of,
}

-- The end of the first loop: one of the slices is used up.
record Ended (mid r : ℕ) (f : Array) (m m' : Merging) : Type 0 where
  rest : rest_of mid r f m' ≡ rest_of mid r f m
  over : (mid < m'.iter_1) ⊎ (r < m'.iter_2)
  grown_1 : m.iter_1 ≤ m'.iter_1
  grown_2 : m.iter_2 ≤ m'.iter_2

abbrev taken : Array → Merging → Merging
taken f m = if ltb_ℤ (f m.iter_1) (f m.iter_2) then take_1 f m else take_2 f m

taken-counts :
    (mid r turns : ℕ) (f : Array) (m : Merging)
    → m.iter_1 ≤ mid
    → m.iter_2 ≤ r
    → (suc mid - m.iter_1) + (suc r - m.iter_2) ≤ suc turns
    → ((suc mid - (taken f m).iter_1) + (suc r - (taken f m).iter_2) ≤ turns)
      × (m.iter_1 ≤ (taken f m).iter_1)
      × (m.iter_2 ≤ (taken f m).iter_2)
taken-counts mid r turns f m h h' le = elim (Bool-cases (ltb_ℤ (f m.iter_1) (f m.iter_2))) [
  | inl e ↦ rw e (omega (arith, h, h', le), omega arith, omega arith)
  | inr e ↦ rw e (omega (arith, h, h', le), omega arith, omega arith)
]

both_loop-Ended :
    (turns mid r : ℕ) (f : Array) (m : Merging)
    → (suc mid - m.iter_1) + (suc r - m.iter_2) ≤ turns
    → Ended mid r f m (both_loop turns mid r f m)
unfolding both_loop
both_loop-Ended zero mid r f m le = record {
  rest = refl;
  over = inl (omega (arith, le));
  grown_1 = omega arith;
  grown_2 = omega arith;
}
both_loop-Ended (suc turns) mid r f m le =
    let go = both_loop turns mid r f (taken f m) in
    elim (Bool-cases (leb m.iter_1 mid)) [
      | inl e ↦ elim (Bool-cases (leb m.iter_2 r)) [
        | inl e' ↦
            let h = le_of_leb m.iter_1 mid e in
            let h' = le_of_leb m.iter_2 r e' in
            let (fewer, g1, g2) = taken-counts mid r turns f m h h' le in
            let ended = both_loop-Ended turns mid r f (taken f m) fewer in
            let both : (leb m.iter_1 mid && leb m.iter_2 r) ≡ true = rw (e, e') refl in
            subst (Ended mid r f m) (sym (if_true go m both)) (record {
              rest = ended.rest ∙ take-rest_of mid r f m h h';
              over = ended.over;
              grown_1 = omega (arith, g1, ended.grown_1);
              grown_2 = omega (arith, g2, ended.grown_2);
            })
        | inr e' ↦
            let both : (leb m.iter_1 mid && leb m.iter_2 r) ≡ false = rw (e, e') refl in
            subst (Ended mid r f m) (sym (if_false go m both)) (record {
              rest = refl;
              over = inr (lt_of_leb m.iter_2 r e');
              grown_1 = omega arith;
              grown_2 = omega arith;
            })
      ]
      | inr e ↦
          let both : (leb m.iter_1 mid && leb m.iter_2 r) ≡ false = rw e refl in
          subst (Ended mid r f m) (sym (if_false go m both)) (record {
            rest = refl;
            over = inl (lt_of_leb m.iter_1 mid e);
            grown_1 = omega arith;
            grown_2 = omega arith;
          })
    ]

loop_1-write :
    (turns mid : ℕ) (f : Array) (m : Merging)
    → suc mid - m.iter_1 ≤ turns
    → (loop_1 turns mid f m).arr ≡ write m.arr m.iter (span f m.iter_1 mid)
unfolding loop_1
loop_1-write zero mid f m le =
    sym (ap (write m.arr m.iter) (span-nil f m.iter_1 mid (omega (arith, le))))
loop_1-write (suc turns) mid f m le =
    let go = loop_1 turns mid f (take_1 f m) in
    elim (Bool-cases (leb m.iter_1 mid)) [
      | inl e ↦
          let h = le_of_leb m.iter_1 mid e in
          ap (λ (x : Merging). x.arr) (if_true go m e)
          ∙ (loop_1-write turns mid f (take_1 f m) (omega (arith, le, h))
              ∙ sym (ap (write m.arr m.iter) (span-cons f m.iter_1 mid h)))
      | inr e ↦
          ap (λ (x : Merging). x.arr) (if_false go m e)
          ∙ sym (ap (write m.arr m.iter) (span-nil f m.iter_1 mid (lt_of_leb m.iter_1 mid e)))
    ]

loop_2-write :
    (turns r : ℕ) (f : Array) (m : Merging)
    → suc r - m.iter_2 ≤ turns
    → (loop_2 turns r f m).arr ≡ write m.arr m.iter (span f m.iter_2 r)
unfolding loop_2
loop_2-write zero r f m le =
    sym (ap (write m.arr m.iter) (span-nil f m.iter_2 r (omega (arith, le))))
loop_2-write (suc turns) r f m le =
    let go = loop_2 turns r f (take_2 f m) in
    elim (Bool-cases (leb m.iter_2 r)) [
      | inl e ↦
          let h = le_of_leb m.iter_2 r e in
          ap (λ (x : Merging). x.arr) (if_true go m e)
          ∙ (loop_2-write turns r f (take_2 f m) (omega (arith, le, h))
              ∙ sym (ap (write m.arr m.iter) (span-cons f m.iter_2 r h)))
      | inr e ↦
          ap (λ (x : Merging). x.arr) (if_false go m e)
          ∙ sym (ap (write m.arr m.iter) (span-nil f m.iter_2 r (lt_of_leb m.iter_2 r e)))
    ]

slice-memcpy :
    (l r a n : ℕ) (s : Arrays) → l ≤ a → a + n ≤ suc r → slice (memcpy l r s) a n ≡ slice s.arr a n
slice-memcpy l r a n s lo hi = slice-cong (memcpy l r s) s.arr a n (λ j h h'.
    let x = leb-true l j (omega (arith, lo, h)) in
    let y = leb-true j r (omega (arith, hi, h')) in rw (x, y) refl)

-- The array behind merge.
pub merge-write :
    (l mid r : ℕ) (s : Arrays)
    → l ≤ mid
    → mid ≤ r
    → (merge l mid r s).arr
      ≡ write s.arr l (merged (slice s.arr l (suc mid - l)) (slice s.arr (suc mid) (r - mid)))
unfolding merge
merge-write l mid r s h h' =
    let f = memcpy l r s in
    let turns = suc r - l in
    let m : Merging = record { iter = l; iter_1 = l; iter_2 = suc mid; arr = s.arr } in
    let m' = both_loop turns mid r f m in
    let ended = both_loop-Ended turns mid r f m (omega (arith, h, h')) in
    let xs = slice-memcpy l r l (suc mid - l) s (omega arith) (omega (arith, h, h')) in
    let ys =
      slice-memcpy l r (suc mid) (suc r - suc mid) s (omega (arith, h)) (omega (arith, h')) in
    let size : suc r - suc mid ≡ r - mid = omega arith in
    let start =
      ended.rest
      ∙ (ap (λ a. write s.arr l (merged a (span f (suc mid) r))) xs
          ∙ (ap (λ b. write s.arr l (merged (slice s.arr l (suc mid - l)) b)) ys
              ∙ ap
                  (λ n.
                    write s.arr l (merged (slice s.arr l (suc mid - l)) (slice s.arr (suc mid) n)))
                  size)) in
    let go_1 = loop_1 turns mid f m' in
    let go_2 = loop_2 turns r f m' in
    elim (Bool-cases (leb m'.iter_1 mid)) [
      | inl e ↦
          let left = le_of_leb m'.iter_1 mid e in
          let used_up : r < m'.iter_2 = elim ended.over [
            | inl o ↦ absurd (omega (arith, o, left))
            | inr o ↦ o
          ] in
          ap (λ (x : Merging). x.arr) (if_true go_1 go_2 e)
          ∙ (loop_1-write turns mid f m' (omega (arith, ended.grown_1, h'))
              ∙ (ap (write m'.arr m'.iter) (sym (merged-nil (span f m'.iter_1 mid)))
                  ∙ (ap (λ b. write m'.arr m'.iter (merged (span f m'.iter_1 mid) b))
                        (sym (span-nil f m'.iter_2 r used_up))
                      ∙ start)))
      | inr e ↦
          ap (λ (x : Merging). x.arr) (if_false go_1 go_2 e)
          ∙ (loop_2-write turns r f m' (omega (arith, ended.grown_2, h))
              ∙ (ap (λ a. write m'.arr m'.iter (merged a (span f m'.iter_2 r)))
                    (sym (span-nil f m'.iter_1 mid (lt_of_leb m'.iter_1 mid e)))
                  ∙ start))
    ]
