-- ===== src/Tests/Exercises.antt =====
-- Banks, caches, arrays and memories of the exercises, and the theorems on them.
use sustech_cs.Prelude.{
  ℕ, false, ◌+◌, ◌-◌, ◌≤◌, ◌<◌, ◌≡◌, ◌↔◌, refl, true, some, List, [], ◌∷◌, if◌then◌else◌, length,
  count, All, inr, arith,
}
use sustech_cs.Prelude.Int.{ℤ, pos}
use sustech_cs.Banker.{Task, Bank, is_safe, request, Reply, exec}
use sustech_cs.Banker.Order.{here, Completes, done, next}
use sustech_cs.Banker.Safe.{is_safe-Completes}
use sustech_cs.Banker.Commands.{IsValid, exec-IsValid}
use sustech_cs.Replacement.{Keys}
use sustech_cs.Replacement.Pages.{contains}
use sustech_cs.Replacement.Lru.{lru}
use sustech_cs.Replacement.Hits.{hits, lru-hits}
use sustech_cs.Replacement.Larger.{lru_mono}
use sustech_cs.Replacement.Clock.{clock}
use sustech_cs.Replacement.Ends.{clock-some}
use sustech_cs.Replacement.SecondChance.{Chance}
use sustech_cs.Replacement.SecondChance.State.{Valid, Stepped, cached}
use sustech_cs.Replacement.SecondChance.Accesses.{access-Valid}
use sustech_cs.MergeSort.{Arrays, sort}
use sustech_cs.MergeSort.Lists.{slice, Sorted, occurrences}
use sustech_cs.MergeSort.Threaded.{sort-Sorted}
use sustech_cs.Allocator.{
  FreeBlock, AllocatedBlock, Memory, first_fit, best_fit, int_max, fit, create,
}
use sustech_cs.Allocator.Commands.{IsPartition, exec-IsPartition}
use sustech_cs.Allocator.Fit.{IsFit}
use sustech_cs.Allocator.Extremes.{fit-IsFit}
use sustech_cs.Allocator as Alloc

-- Two kinds of resources and one process.
abbrev a_task : Task
a_task = record { pid = 1; max = λ i. 7; needed = λ i. 4; allocated = λ i. 3 }

abbrev bank : Bank
bank = record { r = 2; remain = λ i. 7; resource = λ i. 10; tasks = a_task ∷ [] }

bank-IsValid : IsValid bank
bank-IsValid = record {
  distinct = (tt, tt);
  full = (λ i h. omega arith, tt);
  conserved = λ i h. omega arith;
  safe = next a_task here (λ i h. omega arith) done;
}

is_safe-Completes_example :
    (is_safe 2 (a_task ∷ []) (λ i. 5) ≡ true) ↔ Completes 2 (λ i. 5) (a_task ∷ [])
is_safe-Completes_example = is_safe-Completes 2 (a_task ∷ []) (λ i. 5)

exec-IsValid_example :
    (answer : Reply) × (b : Bank) × (exec (request 1 (λ i. 2)) bank ≡ some (answer, b)) × IsValid b
exec-IsValid_example = exec-IsValid (request 1 (λ i. 2)) bank bank-IsValid refl

abbrev order : List ℕ
order = 1 ∷ 2 ∷ 1 ∷ 3 ∷ 2 ∷ 1 ∷ []

lru-hits_example : lru 2 order ≡ some (hits 2 [] order)
lru-hits_example = lru-hits 2 order (omega arith)

lru_mono_example : (a : ℕ) × (b : ℕ) × (lru 2 order ≡ some a) × (lru 3 order ≡ some b) × (a ≤ b)
lru_mono_example = lru_mono 2 3 order (omega arith) (omega arith)

clock-some_example : (h : ℕ) × (clock 2 order ≡ some h) × (h ≤ length order)
clock-some_example = clock-some 2 order (omega arith)

-- Four places, of which one is free.
abbrev keys : List ℕ → Keys
keys l = record { mem = λ p. contains p l; size = length l }

abbrev chance : Chance
chance = record {
  hit = 0;
  que = 1 ∷ 2 ∷ [];
  ele_set = keys (1 ∷ 2 ∷ []);
  ls = 3 ∷ [];
  pos_map = keys (3 ∷ []);
}

chance-Valid : Valid 4 chance
chance-Valid = record {
  halves = record {
    que_distinct = (refl, (refl, tt));
    ls_distinct = (refl, tt);
    que_step = record { same = λ p. refl; measured = refl };
    ls_step = record { same = λ p. refl; measured = refl };
    apart = λ p e. ground arith;
  };
  que_small = omega arith;
  ls_small = omega arith;
  filled = inr refl;
}

access-Valid_example : Stepped 4 3 chance (if cached 3 chance then chance.hit + 1 else chance.hit)
access-Valid_example = access-Valid 4 3 chance (omega arith) chance-Valid

-- The numbers from 1000 down, and an order of the threads.
abbrev arrays : Arrays
arrays = record { arr = λ j. pos (1000 - j); new_arr = λ j. pos 0 }

abbrev ends : List ℕ
ends = 3 ∷ 1 ∷ 0 ∷ 2 ∷ 7 ∷ 5 ∷ 4 ∷ 6 ∷ []

ends-threads : All (λ k. k < 8) ends
ends-threads = (
  omega arith,
  (
    omega arith,
    (omega arith, (omega arith, (omega arith, (omega arith, (omega arith, (omega arith, tt)))))),
  ),
)

ends-once : (k : ℕ) → k < 8 → count k ends ≡ 1
ends-once k h = ground arith

sort-Sorted_example :
    Sorted (slice (sort ends arrays).arr 0 1000)
    × ((v : ℤ)
        → occurrences v (slice (sort ends arrays).arr 0 1000)
          ≡ occurrences v (slice arrays.arr 0 1000))
sort-Sorted_example = sort-Sorted ends arrays ends-threads ends-once

-- Two processes and free memory behind them.
abbrev memory : Memory
memory = record {
  mem_size = 100;
  flag = true;
  pid = 2;
  free_blocks = record { size = 40; start_addr = 60 } ∷ [];
  allocated_blocks =
      record { pid = 1; size = 30; start_addr = 0 }
      ∷ (record { pid = 2; size = 30; start_addr = 30 } ∷ []);
  func = first_fit;
}

memory-IsPartition : IsPartition memory
memory-IsPartition = record { cover = λ x. ground arith; bounded = omega arith; unset = λ f. cc }

exec-IsPartition_example :
    (m' : Alloc.Memory) × (Alloc.exec (create 100 false) memory ≡ some m') × IsPartition m'
exec-IsPartition_example = exec-IsPartition (create 100 false) memory tt refl memory-IsPartition

abbrev blocks : List FreeBlock
blocks =
    record { size = 50; start_addr = 0 }
    ∷ (record { size = 25; start_addr = 60 } ∷ (record { size = 30; start_addr = 90 } ∷ []))

fit-IsFit_example : IsFit best_fit 20 blocks (fit best_fit 20 blocks)
fit-IsFit_example =
    fit-IsFit best_fit 20 blocks (omega arith) (omega arith, (omega arith, (omega arith, tt)))
