-- ===== src/Klist/Sort.antt =====
-- list_sort: the passes come to an end with one run, of the elements that the list had.
use sustech_cs.Prelude.{
  ℕ, zero, suc, ◌+◌, ◌-◌, ◌≤◌, ◌<◌, ◌≡◌, ◌≢◌, refl, inl, inr, Bool, true, false, List, [], ◌∷◌,
  ◌++◌, arith, length, count, length-append, List-cases, ap, ◌∙◌, ltb, Bool-cases,
}
use mathlib.Core.List.{append-nil}
use sustech_cs.Klist.{find_end_of_run, inplace_merge, sort_pass, sort_loop, is_sorted}
use sustech_cs.Klist.Runs.{
  descents, descents_from, run_starts, run_rises, run_length, run_count, run_cut, descents-append,
  count-append,
}
use sustech_cs.Klist.Merge.{merge_count, merge_length, merge_rises}

-- list_sort: there are never more passes than elements, and a pass has no more rounds than that.
unfoldable pub list_sort : (ℕ → ℕ → Bool) → List ℕ → List ℕ
list_sort less l = sort_loop less (suc (length l)) (suc (suc (length l))) l

module _ (less : ℕ → ℕ → Bool) (asym : (x y : ℕ) → less x y ≡ true → less y x ≡ false) where
  -- What one pass over `l` yields: the same elements, in at most as many runs as it counted, which
  -- is half of the runs of `l`, rounded up.
  record Passed (l : List ℕ) (r : ℕ × List ℕ) : Type 0 where
    same : (v : ℕ) → count v r.1 ≡ count v l
    long : length r.1 ≡ length l
    empty : r.0 ≡ 0 → r.1 ≡ []
    idle : l ≡ [] → r.0 ≡ 0
    rises : descents less r.1 ≤ r.0 - 1
    halves : r.0 + r.0 ≤ descents less l + 2

  -- A round with two runs, and the pass over what stands behind them.
  Passed-merge :
      (k x : ℕ) (l : List ℕ) (y : ℕ) (r : List ℕ)
      → (find_end_of_run less x l).1 ≡ y ∷ r
      → let (a, _) = find_end_of_run less x l in
        let (b, rest) = find_end_of_run less y r in
        let (cnt, out) = sort_pass less k rest in
        Passed rest (cnt, out) → Passed (x ∷ l) (suc cnt, inplace_merge less a b ++ out)
  Passed-merge k x l y r e sub =
      let a = (find_end_of_run less x l).0 in
      let b = (find_end_of_run less y r).0 in
      let rest = (find_end_of_run less y r).1 in
      let out = (sort_pass less k rest).1 in
      let m = inplace_merge less a b in
      let flat : descents less m ≡ 0 =
        merge_rises less asym a b (run_rises less x l) (run_rises less y r) in
      record {
        same = λ v. ground (
          arith,
          count-append v m out,
          merge_count less v a b,
          run_count less v x l,
          run_count less v y r,
          sub.same v,
          ap (count v) e,
        );
        long = omega (
          arith,
          length-append {0} m out,
          merge_length less a b,
          run_length less x l,
          run_length less y r,
          ap length e,
        );
        empty = λ z. absurd (omega arith);
        idle = λ z. cc;
        rises = elim (List-cases out) [
          | inl none_out ↦ rw (none_out, append-nil m, flat) (omega arith)
          | inr (z, q, more) ↦
              let some_cnt : (sort_pass less k rest).0 ≢ 0 = λ z. cc (sub.empty z) in
              omega (arith, descents-append less m out)
        ];
        halves = elim (List-cases rest) [
          | inl last ↦ omega (arith, run_cut less x y l r e, sub.idle last)
          | inr (z, q, more) ↦
              omega
                (arith, run_cut less x y l r e, run_cut less y z r q more, ap (descents less) more)
        ];
      }

  sort_pass-Passed : (k : ℕ) (l : List ℕ) → length l < k → Passed l (sort_pass less k l)
  unfolding sort_pass
  sort_pass-Passed zero l h = absurd (omega arith)
  sort_pass-Passed (suc k) [] h = record {
    same = λ v. refl;
    long = refl;
    empty = λ e. refl;
    idle = λ e. refl;
    rises = omega arith;
    halves = omega arith;
  }
  sort_pass-Passed (suc k) (x ∷ l) h = elim (List-cases (find_end_of_run less x l).1) [
    | inl e ↦
        rw (e, sort_pass)
          (record {
            same = λ v. ground (arith, run_count less v x l);
            long = ground (arith, run_length less x l);
            empty = λ z. absurd (omega arith);
            idle = λ z. cc;
            rises = omega (arith, run_rises less x l);
            halves = omega arith;
          })
    | inr (y, r, e) ↦
        let b = find_end_of_run less y r in
        let shorter : length b.1 < k = omega (
          arith,
          run_length less x l,
          run_length less y r,
          ap length e,
          ap length (run_starts less x l).1,
        ) in
        rw (e, sort_pass) (Passed-merge k x l y r e (sort_pass-Passed k b.1 shorter))
  ]

  -- With fuel for more passes than there are runs, the loop stops by its test.
  sort_loop_lem :
      (k f : ℕ) (l : List ℕ)
      → length l < k
      → descents less l + 2 < f + f
      → (descents less (sort_loop less k f l) ≡ 0)
        × ((v : ℕ) → count v (sort_loop less k f l) ≡ count v l)
  unfolding sort_loop
  sort_loop_lem k zero l h g = absurd (omega arith)
  sort_loop_lem k (suc f) l h g =
      let p = sort_pass-Passed k l h in
      let r = sort_pass less k l in
      elim (Bool-cases (ltb 1 r.0)) [
        | inl again ↦
            let next =
              sort_loop_lem k f r.1 (omega (arith, p.long)) (ground (arith, p.rises, p.halves)) in
            rw (again, sort_loop) (next.0, λ v. next.1 v ∙ p.same v)
        | inr done ↦ rw (done, sort_loop) (ground (arith, p.rises), p.same)
      ]

descents_from-le : (less : ℕ → ℕ → Bool) (x : ℕ) (l : List ℕ) → descents_from less x l ≤ length l
descents_from-le less x [] = omega arith
descents_from-le less x (y ∷ l) = ground (arith, descents_from-le less y l)

descents-lt : (less : ℕ → ℕ → Bool) (l : List ℕ) → descents less l ≤ length l - 1
descents-lt less [] = omega arith
descents-lt less (x ∷ l) = omega (arith, descents_from-le less x l)

pub is_sorted_of_descents :
    (less : ℕ → ℕ → Bool) (l : List ℕ) → descents less l ≡ 0 → is_sorted less l ≡ true
unfolding is_sorted
is_sorted_of_descents less [] h = refl
is_sorted_of_descents less (x ∷ []) h = refl
is_sorted_of_descents less (x ∷ y ∷ l) h = ground (arith, is_sorted_of_descents less (y ∷ l))

-- list_sort on any list, for a comparison under which no two elements are each less than the
-- other, leaves no element less than the one before it, and the elements are the same, each as
-- often as before: the closing ASSERT of list_sort holds.
pub list_sort_lem :
    (less : ℕ → ℕ → Bool)
    → ((x y : ℕ) → less x y ≡ true → less y x ≡ false)
    → (l : List ℕ)
    → (is_sorted less (list_sort less l) ≡ true)
      × ((v : ℕ) → count v (list_sort less l) ≡ count v l)
unfolding list_sort
list_sort_lem less asym l =
    let k : ℕ = suc (length l) in
    let done =
      sort_loop_lem less asym k (suc k) l (omega arith) (omega (arith, descents-lt less l)) in
    (is_sorted_of_descents less (list_sort less l) done.0, done.1)
