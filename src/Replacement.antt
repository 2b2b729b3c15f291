-- ===== src/Replacement.antt =====
-- lab9/main.cpp: the page replacement algorithms, here what they share. `none` stands for undefined
-- behaviour: the front of an empty queue or list, the erasing of an element that is not there, an
-- index that is out of range, a loop that does not end. Page numbers are not negative.
pub mod Pages
pub mod Fifo
pub mod Lru
pub mod Hits
pub mod Larger
pub mod Clock
pub mod Slots
pub mod Sweep
pub mod Ends
pub mod SecondChance
use sustech_cs.Prelude.{
  ℕ, ◌+◌, ◌-◌, Bool, true, false, Option, none, some, List, [], ◌∷◌, ◌==◌, if◌then◌else◌, update,
}

-- An unordered_set, or the keys of an unordered_map, with its size.
pub record Keys : Type 0 where
  pub mem : ℕ → Bool
  pub size : ℕ

abbrev pub no_keys : Keys
no_keys = record { mem = λ p. false; size = 0 }

abbrev pub insert : ℕ → Keys → Keys
insert p m = if m.mem p then m else record m { mem = update m.mem p true; size = m.size + 1 }

-- `erase` of the result of `find`.
abbrev pub erase : ℕ → Keys → Option Keys
erase p m =
    if m.mem p then some (record m { mem = update m.mem p false; size = m.size - 1 }) else none

-- `front` and `pop` of a queue or a list.
abbrev pub pop : List ℕ → Option (ℕ × List ℕ)
pop [] = none
pop (p ∷ l) = some (p, l)

abbrev pub push : List ℕ → ℕ → List ℕ
push [] p = p ∷ []
push (q ∷ l) p = q ∷ push l p

-- `erase` of the node of a page, where pos_map has led; a page has one node.
abbrev pub remove : ℕ → List ℕ → List ℕ
remove p [] = []
remove p (q ∷ l) = let rest = remove p l in if q == p then l else q ∷ rest
