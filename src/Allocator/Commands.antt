-- ===== src/Allocator/Commands.antt =====
-- The menu of lab8/mm.cpp loses no memory and gives none out twice.
use sustech_cs.Prelude.{
  ℕ, ◌+◌, ◌≤◌, ◌≡◌, refl, sym, subst, ◌∙◌, inl, inr, Bool, true, false, some, List, [], ◌∷◌, ltb,
  ◌==◌, if◌then◌else◌, All, arith, Bool-cases, Option-cases, if_true, if_false, ne_of_==,
}
use sustech_cs.Allocator.{
  FreeBlock, AllocatedBlock, Memory, find_process, int_max, insert_before, insert_allocated, fit,
  start_of, carve, allocate_mem, create_new_process, kill_process, set_mem_size, Command, set_size,
  use_algorithm, create, kill, display, exec, start,
}
use sustech_cs.Allocator.Fit.{IsFit}
use sustech_cs.Allocator.Extremes.{fit-IsFit}
use sustech_cs.Allocator.Cover.{
  covers, free_covers, allocated_covers, free_covers-carve, allocated_covers-insert,
  allocated_covers-dispose, free_covers-free_mem, free_covers-size,
}

abbrev pub within : ℕ → ℕ → ℕ
within x total = if ltb x total then 1 else 0

-- Every address of the memory is in just one block, free or allocated, and no other address is.
pub record IsPartition (m : Memory) : Type 0 where
  pub cover :
      (x : ℕ)
      → free_covers x m.free_blocks + allocated_covers x m.allocated_blocks ≡ within x m.mem_size
  pub bounded : m.mem_size ≤ int_max
  pub unset : m.flag ≡ false → m.allocated_blocks ≡ []

outside : (x total : ℕ) → total ≤ x → within x total ≡ 0
outside x total h = ground arith

IsPartition-sizes : (m : Memory) → IsPartition m → All (λ b. b.size ≤ int_max) m.free_blocks
IsPartition-sizes m v = wider m.mem_size int_max m.free_blocks v.bounded (
    free_covers-size m.mem_size m.free_blocks
      (λ x h. omega (arith, v.cover x, outside x m.mem_size h)))
  where
    wider :
        (n k : ℕ) (l : List FreeBlock) → n ≤ k → All (λ b. b.size ≤ n) l → All (λ b. b.size ≤ k) l
    wider n k [] h a = tt
    wider n k (b ∷ l) h (p, a) = (omega (arith, p, h), wider n k l h a)

-- Whether insert_allocated follows no pointer that is not set.
abbrev pub is_set : Bool → List AllocatedBlock → Bool
is_set clear [] = clear
is_set clear (b ∷ l) = true

insert_allocated-some :
    (clear : Bool) (ab : AllocatedBlock) (l : List AllocatedBlock)
    → is_set clear l ≡ true
    → insert_allocated clear ab l ≡ some (insert_before ab l)
unfolding insert_allocated
insert_allocated-some clear ab [] e = if_true _ _ e
insert_allocated-some clear ab (b ∷ l) e = refl

allocate_mem-IsPartition :
    (clear : Bool) (pid size : ℕ) (m : Memory)
    → 1 ≤ size
    → m.flag ≡ true
    → is_set clear m.allocated_blocks ≡ true
    → IsPartition m
    → (r : Bool × Memory) × (allocate_mem clear pid size m ≡ some r) × IsPartition r.1
unfolding allocate_mem
allocate_mem-IsPartition clear pid size m h set defined v =
    let ok = fit-IsFit m.func size m.free_blocks h (IsPartition-sizes m v) in
    elim (Option-cases (fit m.func size m.free_blocks)) [
      | inl e ↦ ((false, m), rw (allocate_mem, e) refl, v)
      | inr (i, e) ↦
          let (b, at_i, le, best) : IsFit m.func size m.free_blocks (some i) =
            subst (IsFit m.func size m.free_blocks) e ok in
          let ab : AllocatedBlock = record {
            pid = pid;
            size = size;
            start_addr = start_of i m.free_blocks;
          } in
          (
            (
              true,
              record m {
                free_blocks = carve i size m.free_blocks;
                allocated_blocks = insert_before ab m.allocated_blocks;
              },
            ),
            rw (allocate_mem, e, insert_allocated-some clear ab m.allocated_blocks defined) refl,
            record {
              cover = λ x. omega (
                arith,
                v.cover x,
                free_covers-carve x i size m.free_blocks b at_i le,
                allocated_covers-insert x ab m.allocated_blocks,
              );
              bounded = v.bounded;
              unset = λ f. cc;
            },
          )
    ]

kill_process-IsPartition :
    (id : ℕ) (m : Memory) → m.flag ≡ true → IsPartition m → IsPartition (kill_process id m)
unfolding kill_process
kill_process-IsPartition id m set v = elim (Option-cases (find_process id m.allocated_blocks)) [
  | inl e ↦ rw (kill_process, e) v
  | inr (ab, e) ↦
      rw (kill_process, e)
        (record {
          cover = λ x. omega (
            arith,
            v.cover x,
            free_covers-free_mem x ab m.free_blocks,
            allocated_covers-dispose x id m.allocated_blocks ab e,
          );
          bounded = v.bounded;
          unset = λ f. cc;
        })
]

create_new_process-IsPartition :
    (size : ℕ) (clear : Bool) (m : Memory)
    → m.flag ≡ true
    → is_set clear m.allocated_blocks ≡ true
    → IsPartition m
    → (m' : Memory) × (create_new_process size clear m ≡ some m') × IsPartition m'
unfolding create_new_process
create_new_process-IsPartition size clear m set defined v = elim (Bool-cases (size == 0)) [
  | inl e ↦ (m, if_true _ _ e, v)
  | inr e ↦
      let n = ne_of_== size 0 e in
      let m' = record m { pid = m.pid + 1 } in
      let v' : IsPartition m' = record { cover = v.cover; bounded = v.bounded; unset = v.unset } in
      let (r, made, ok) =
        allocate_mem-IsPartition clear (m.pid + 1) size m' (omega (arith, n)) set defined v' in
      (r.1, if_false _ _ e ∙ rw made refl, ok)
]

whole : (x n : ℕ) → covers x 0 n + 0 + 0 ≡ within x n
whole x n = ground arith

set_mem_size-IsPartition :
    (memory : ℕ) (m : Memory)
    → memory ≤ int_max
    → IsPartition m
    → IsPartition (set_mem_size memory m)
unfolding set_mem_size
set_mem_size-IsPartition memory m h v = elim (Bool-cases m.flag) [
  | inl e ↦ subst IsPartition (sym (if_true _ _ e)) v
  | inr e ↦
      let nothing = v.unset e in
      subst IsPartition (sym (if_false _ _ e))
        (record { cover = λ x. rw nothing (whole x memory); bounded = h; unset = λ f. cc })
]

flagged : (m : Memory) → IsPartition m → IsPartition (record m { flag = true })
flagged m v = record { cover = v.cover; bounded = v.bounded; unset = λ f. cc }

-- A size that is read is an int.
abbrev pub IsInt : Command → Type 0
IsInt (set_size memory) = memory ≤ int_max
IsInt (use_algorithm id) = Unit
IsInt (create size clear) = Unit
IsInt (kill id) = Unit
IsInt display = Unit

-- Whether a command follows no pointer that is not set: a process that is created while there is
-- none gets a block of which the `next` is NULL.
abbrev pub is_defined : Command → Memory → Bool
is_defined (set_size memory) m = true
is_defined (use_algorithm id) m = true
is_defined (create size clear) m = is_set clear m.allocated_blocks
is_defined (kill id) m = true
is_defined display m = true

-- Whatever is chosen from the menu, with whichever algorithm, where malloc succeeds and, if a
-- process is created while there is none, the memory it gives has NULL at the place of `next`: the
-- command ends, and if each address of the memory was in just one block, free or allocated, and no
-- other address in any, this is so behind it.
pub exec-IsPartition :
    (c : Command) (m : Memory)
    → IsInt c
    → is_defined c m ≡ true
    → IsPartition m
    → (m' : Memory) × (exec c m ≡ some m') × IsPartition m'
exec-IsPartition (set_size memory) m h d v = (_, refl, set_mem_size-IsPartition memory m h v)
exec-IsPartition (use_algorithm id) m h d v =
    (_, refl, record { cover = v.cover; bounded = v.bounded; unset = λ f. cc })
exec-IsPartition (create size clear) m h d v =
    create_new_process-IsPartition size clear (record m { flag = true }) refl d (flagged m v)
exec-IsPartition (kill id) m h d v =
    (_, refl, kill_process-IsPartition id (record m { flag = true }) refl (flagged m v))
exec-IsPartition display m h d v = (_, refl, flagged m v)

pub start-IsPartition : IsPartition start
start-IsPartition = record { cover = λ x. whole x 1024; bounded = omega arith; unset = λ f. refl }
