-- ===== src/Replacement/SecondChance.antt =====
-- second_chance of lab9/main.cpp: a queue of half of the places, and a list by last use of the rest.
mod Halves
mod Moves
pub mod State
mod Misses
pub mod Accesses
use sustech_cs.Prelude.{
  ℕ, ◌+◌, ◌-◌, ◌/◌, Bool, true, false, ◌&&◌, ◌||◌, Option, none, some, List, [], ◌∷◌, ltb, ◌==◌,
  if◌then◌else◌, ◌>>=◌, length,
}
use sustech_cs.Replacement.{Keys, no_keys, insert, erase, pop, push, remove}

pub record Chance : Type 0 where
  pub hit : ℕ
  pub que : List ℕ
  pub ele_set : Keys
  pub ls : List ℕ
  pub pos_map : Keys

-- The steps that the comments of the loop name.
abbrev pub fifo_push : ℕ → Chance → Chance
fifo_push p s = record s { que = push s.que p; ele_set = insert p s.ele_set }

abbrev pub lru_push : ℕ → Chance → Chance
lru_push p s = record s { ls = push s.ls p; pos_map = insert p s.pos_map }

unfoldable pub fifo_pop : Chance → Option (ℕ × Chance)
fifo_pop s = pop s.que >>= λ (f, rest).
    erase f s.ele_set >>= λ keys. some (f, record s { que = rest; ele_set = keys })

unfoldable pub lru_pop : Chance → Option Chance
lru_pop s = pop s.ls >>= λ (ind, rest).
    erase ind s.pos_map >>= λ keys. some (record s { ls = rest; pos_map = keys })

unfoldable pub lru_erase : ℕ → Chance → Option Chance
lru_erase p s = erase p s.pos_map >>= λ keys. some (record s { ls = remove p s.ls; pos_map = keys })

-- A hit in the list; case e of the loop.
unfoldable pub promote : ℕ → Chance → Option Chance
promote p s = lru_erase p s >>= λ t. fifo_pop t >>= λ (f, u). some (fifo_push p (lru_push f u))

-- Case c.
unfoldable pub demote : ℕ → Chance → Option Chance
demote p s = fifo_pop s >>= λ (f, t). some (lru_push f (fifo_push p t))

-- The body of the loop.
unfoldable pub access : ℕ → ℕ → Chance → Option Chance
access k p s =
    let fifo_size = k / 2 in
    let lru_size = k - k / 2 in
    if s.ele_set.mem p || s.pos_map.mem p
    then (let t = record s { hit = s.hit + 1 } in if s.pos_map.mem p then promote p t else some t)
    else if ltb (length s.que) fifo_size
    then some (fifo_push p s)
    else if (length s.que == fifo_size) && ltb (length s.ls) lru_size
    then demote p s
    else if (length s.que == fifo_size) && (length s.ls == lru_size)
    then lru_pop s >>= demote p
    else some s

unfoldable pub accesses : ℕ → List ℕ → Chance → Option Chance
accesses k [] s = some s
accesses k (p ∷ order) s = access k p s >>= accesses k order

abbrev pub start : Chance
start = record { hit = 0; que = []; ele_set = no_keys; ls = []; pos_map = no_keys }

unfoldable pub second_chance : ℕ → List ℕ → Option ℕ
second_chance k order = accesses k order start >>= λ s. some s.hit
