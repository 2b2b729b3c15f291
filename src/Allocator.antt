-- ===== src/Allocator.antt =====
-- lab8/mm.cpp: the simulated memory allocation. The lists of blocks are lists, a pointer into one
-- is a position. Sizes that are read are not negative; those of processes are positive, as
-- create_new_process checks. insert_allocated reads the `next` of a new allocated block while it is
-- not set if the list was empty: whether it is NULL is an argument. malloc is taken to succeed.
pub mod Fit
pub mod Extremes
pub mod Cover
pub mod Commands
use sustech_cs.Prelude.{
  ℕ, zero, suc, ◌+◌, ◌-◌, Bool, true, false, ◌&&◌, Option, none, some, List, [], ◌∷◌, ltb, leb,
  ◌==◌, if◌then◌else◌, length, ◌>>=◌,
}
use sustech_cs.Prelude.Int.{ℤ, pos, negsuc, sub_ℕ, ltb_ℤ}

pub record FreeBlock : Type 0 where
  pub size : ℕ
  pub start_addr : ℕ

-- The name of a process is its pid.
pub record AllocatedBlock : Type 0 where
  pub pid : ℕ
  pub size : ℕ
  pub start_addr : ℕ

-- The values of the pointer `func`.
pub data Algorithm : Type 0 where
  first_fit : Algorithm
  best_fit : Algorithm
  worst_fit : Algorithm

-- The globals.
pub record Memory : Type 0 where
  pub mem_size : ℕ
  pub flag : Bool
  pub pid : ℕ
  pub free_blocks : List FreeBlock
  pub allocated_blocks : List AllocatedBlock
  pub func : Algorithm

abbrev pub find_process : ℕ → List AllocatedBlock → Option AllocatedBlock
find_process id [] = none
find_process id (b ∷ l) = let rest = find_process id l in if b.pid == id then some b else rest

abbrev pub init_free_block : ℕ → List FreeBlock
init_free_block mem_size = record { size = mem_size; start_addr = 0 } ∷ []

-- The loop of insert_allocated, and the insertion behind the last block.
abbrev pub insert_before : AllocatedBlock → List AllocatedBlock → List AllocatedBlock
insert_before ab [] = ab ∷ []
insert_before ab (b ∷ l) =
    let rest = insert_before ab l in
    if ltb ab.start_addr b.start_addr then ab ∷ (b ∷ l) else b ∷ rest

-- `clear` is whether the memory that malloc gave for the block holds NULL for its `next`. Where the
-- list is empty and it does not, the loop follows a stray pointer: `none`.
unfoldable pub insert_allocated :
    Bool → AllocatedBlock → List AllocatedBlock → Option (List AllocatedBlock)
insert_allocated clear ab [] = if clear then some (insert_before ab []) else none
insert_allocated clear ab (b ∷ l) = some (insert_before ab (b ∷ l))

-- The loops of the three algorithms from the block of number `i` on, with what they have found.
abbrev pub first_from : ℕ → List FreeBlock → ℕ → Option ℕ
first_from size [] i = none
first_from size (b ∷ l) i =
    let rest = first_from size l (suc i) in if leb size b.size then some i else rest

abbrev pub best_from : ℕ → List FreeBlock → ℕ → ℕ → Option ℕ → Option ℕ
best_from size [] i best chosen = chosen
best_from size (b ∷ l) i best chosen =
    let better = leb size b.size && ltb (b.size - size) best in
    best_from size l (suc i) (if better then b.size - size else best)
      (if better then some i else chosen)

abbrev pub worst_from : ℕ → List FreeBlock → ℕ → ℤ → Option ℕ → Option ℕ
worst_from size [] i worst chosen = chosen
worst_from size (b ∷ l) i worst chosen =
    let worse = ltb_ℤ worst (sub_ℕ b.size size) in
    worst_from size l (suc i) (if worse then sub_ℕ b.size size else worst)
      (if worse then some i else chosen)

abbrev pub int_max : ℕ
int_max = 2147483647

-- The call of `func`: the number of the block.
unfoldable pub fit : Algorithm → ℕ → List FreeBlock → Option ℕ
fit first_fit size l = first_from size l 0
fit best_fit size l = best_from size l 0 int_max none
fit worst_fit size l = worst_from size l 0 (negsuc 0) none

abbrev pub start_of : ℕ → List FreeBlock → ℕ
start_of i [] = 0
start_of zero (b ∷ l) = b.start_addr
start_of (suc i) (b ∷ l) = start_of i l

-- The free list without the front of the block of a number.
abbrev pub carve : ℕ → ℕ → List FreeBlock → List FreeBlock
carve i size [] = []
carve zero size (b ∷ l) =
    if b.size == size
    then l
    else record { start_addr = b.start_addr + size; size = b.size - size } ∷ l
carve (suc i) size (b ∷ l) = b ∷ carve i size l

-- The result is whether there was space.
unfoldable pub allocate_mem : Bool → ℕ → ℕ → Memory → Option (Bool × Memory)
allocate_mem clear pid size m = elim (fit m.func size m.free_blocks) [
  | none ↦ some (false, m)
  | some i ↦
      let ab : AllocatedBlock = record {
        pid = pid;
        size = size;
        start_addr = start_of i m.free_blocks;
      } in
      (do
        l ← insert_allocated clear ab m.allocated_blocks
        some (true, record m { free_blocks = carve i size m.free_blocks; allocated_blocks = l }))
]

-- A pid is used up also if there is no space.
unfoldable pub create_new_process : ℕ → Bool → Memory → Option Memory
create_new_process size clear m =
    if size == 0
    then some m
    else (do r ← allocate_mem clear (m.pid + 1) size (record m { pid = m.pid + 1 }); some r.1)

-- The inner loop of the sorting in rearrange: the block at its place, and the others.
abbrev pub exchange : FreeBlock → List FreeBlock → FreeBlock × List FreeBlock
exchange t [] = (t, [])
exchange t (b ∷ l) =
    let swapped = ltb b.start_addr t.start_addr in
    let (t', l') = exchange (if swapped then b else t) l in (t', (if swapped then t else b) ∷ l')

-- The outer loop with the rounds that are left.
abbrev pub sort : ℕ → List FreeBlock → List FreeBlock
sort rounds [] = []
sort zero (b ∷ l) = b ∷ l
sort (suc rounds) (b ∷ l) = let (b', l') = exchange b l in b' ∷ sort rounds l'

-- The last loop of rearrange; it moves on behind a block that it has joined to the next.
abbrev pub join : List FreeBlock → List FreeBlock
join [] = []
join (b ∷ []) = b ∷ []
join (b ∷ (c ∷ l)) = elim (b.start_addr + b.size == c.start_addr) [
  | true ↦ record b { size = b.size + c.size } ∷ join l
  | false ↦ b ∷ join (c ∷ l)
]

unfoldable pub rearrange : List FreeBlock → List FreeBlock
rearrange l = join (sort (length l) l)

unfoldable pub free_mem : AllocatedBlock → List FreeBlock → List FreeBlock
free_mem ab [] = record { start_addr = ab.start_addr; size = ab.size } ∷ []
free_mem ab (b ∷ l) = rearrange (b ∷ (record { start_addr = ab.start_addr; size = ab.size } ∷ l))

-- Of the block of a process.
abbrev pub dispose : ℕ → List AllocatedBlock → List AllocatedBlock
dispose id [] = []
dispose id (b ∷ l) = let rest = dispose id l in if b.pid == id then l else b ∷ rest

unfoldable pub kill_process : ℕ → Memory → Memory
kill_process id m = elim (find_process id m.allocated_blocks) [
  | none ↦ m
  | some ab ↦ record m {
    free_blocks = free_mem ab m.free_blocks;
    allocated_blocks = dispose id m.allocated_blocks;
  }
]

unfoldable pub set_mem_size : ℕ → Memory → Memory
set_mem_size memory m =
    if m.flag
    then m
    else record m { flag = true; mem_size = memory; free_blocks = init_free_block memory }

abbrev pub algorithm : ℕ → Algorithm → Algorithm
algorithm id func =
    if id == 0 then first_fit else if id == 1 then best_fit else if id == 2 then worst_fit else func

-- The menu. With a size to create goes whether the memory of the new block holds NULL for `next`.
pub data Command : Type 0 where
  set_size : ℕ → Command
  use_algorithm : ℕ → Command
  create : ℕ → Bool → Command
  kill : ℕ → Command
  display : Command

abbrev pub exec : Command → Memory → Option Memory
exec (set_size memory) m = some (set_mem_size memory m)
exec (use_algorithm id) m = some (record m { flag = true; func = algorithm id m.func })
exec (create size clear) m = create_new_process size clear (record m { flag = true })
exec (kill id) m = some (kill_process id (record m { flag = true }))
exec display m = some (record m { flag = true })

abbrev pub start : Memory
start = record {
  mem_size = 1024;
  flag = false;
  pid = 0;
  free_blocks = init_free_block 1024;
  allocated_blocks = [];
  func = first_fit;
}
