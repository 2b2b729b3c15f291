-- ===== src/MergeSort.antt =====
-- Bonus_Lab4/OS_BONUS1_11612917.c: the merge sort in eight threads. Every index stays inside the
-- arrays, which are functions of the index.
pub mod Rest
pub mod Merged
pub mod Lists
pub mod Sorted
pub mod Threaded
use sustech_cs.Prelude.{
  ℕ, zero, suc, ◌+◌, ◌-◌, ◌*◌, ◌/◌, Bool, true, false, ◌&&◌, List, [], ◌∷◌, leb, ltb, ◌==◌,
  if◌then◌else◌, update,
}
use sustech_cs.Prelude.Int.{ℤ, ltb_ℤ}

abbrev pub Array : Type 0
Array = ℕ → ℤ

-- The globals arr and new_arr.
pub record Arrays : Type 0 where
  pub arr : Array
  pub new_arr : Array

-- memcpy(new_arr + l, arr + l, sizeof(int) * (r - l + 1))
abbrev pub memcpy : ℕ → ℕ → Arrays → Array
memcpy l r s j = if leb l j && leb j r then s.arr j else s.new_arr j

-- The variables of merge.
pub record Merging : Type 0 where
  pub iter : ℕ
  pub iter_1 : ℕ
  pub iter_2 : ℕ
  pub arr : Array

abbrev pub take_1 : Array → Merging → Merging
take_1 new_arr m = record m {
  arr = update m.arr m.iter (new_arr m.iter_1);
  iter = suc m.iter;
  iter_1 = suc m.iter_1;
}

abbrev pub take_2 : Array → Merging → Merging
take_2 new_arr m = record m {
  arr = update m.arr m.iter (new_arr m.iter_2);
  iter = suc m.iter;
  iter_2 = suc m.iter_2;
}

-- The three loops, with the turns that they may take.
unfoldable pub both_loop : ℕ → ℕ → ℕ → Array → Merging → Merging
both_loop zero mid r new_arr m = m
both_loop (suc turns) mid r new_arr m =
    let taken =
      if ltb_ℤ (new_arr m.iter_1) (new_arr m.iter_2) then take_1 new_arr m else take_2 new_arr m in
    let rest = both_loop turns mid r new_arr taken in
    if leb m.iter_1 mid && leb m.iter_2 r then rest else m

unfoldable pub loop_1 : ℕ → ℕ → Array → Merging → Merging
loop_1 zero mid new_arr m = m
loop_1 (suc turns) mid new_arr m =
    let rest = loop_1 turns mid new_arr (take_1 new_arr m) in if leb m.iter_1 mid then rest else m

unfoldable pub loop_2 : ℕ → ℕ → Array → Merging → Merging
loop_2 zero r new_arr m = m
loop_2 (suc turns) r new_arr m =
    let rest = loop_2 turns r new_arr (take_2 new_arr m) in if leb m.iter_2 r then rest else m

-- No loop takes more turns than there are elements from `l` to `r`.
unfoldable pub merge : ℕ → ℕ → ℕ → Arrays → Arrays
merge l mid r s =
    let new_arr = memcpy l r s in
    let turns = suc r - l in
    let m : Merging = record { iter = l; iter_1 = l; iter_2 = suc mid; arr = s.arr } in
    let m' = both_loop turns mid r new_arr m in
    let m'' =
      if leb m'.iter_1 mid then loop_1 turns mid new_arr m' else loop_2 turns r new_arr m' in
    record { arr = m''.arr; new_arr = new_arr }

-- merge_sort with the depth of its calls that is left.
unfoldable pub merge_sort : ℕ → ℕ → ℕ → Arrays → Arrays
merge_sort zero l r s = s
merge_sort (suc depth) l r s = elim (leb r l) [
  | true ↦ s
  | false ↦
      let mid = suc ((l + r) / 2) in
      let first = merge_sort depth l (mid - 1) s in
      merge l ((l + r) / 2) r (merge_sort depth mid r first)
]

-- The slice of a thread.
pub record Node : Type 0 where
  pub l : ℕ
  pub r : ℕ

abbrev pub max_array_size : ℕ
max_array_size = 1000

abbrev pub max_thread_num : ℕ
max_thread_num = 8

-- The array nodelist of main, its last entry with the rest of the array.
unfoldable pub nodelist : ℕ → Node
nodelist i =
    let len = max_array_size / max_thread_num in
    let l = i * len in
    record { l = l; r = if i == (max_thread_num - 1) then max_array_size - 1 else l + len - 1 }

-- The threads sort their slices, which share no element: one after the other, in any order. The
-- depth is enough for any slice of the array.
unfoldable pub run_threads : List ℕ → Arrays → Arrays
run_threads [] s = s
run_threads (i ∷ order) s =
    run_threads order (merge_sort max_array_size (nodelist i).l (nodelist i).r s)

-- The loop of main that merges the slices, from slice `i` on.
unfoldable pub merge_from : ℕ → ℕ → Arrays → Arrays
merge_from zero i s = s
merge_from (suc left) i s = merge_from left (suc i) (merge 0 ((nodelist i).l - 1) (nodelist i).r s)

-- main from the filled array on.
unfoldable pub sort : List ℕ → Arrays → Arrays
sort order s = merge_from (max_thread_num - 1) 1 (run_threads order s)
