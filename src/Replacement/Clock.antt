-- ===== src/Replacement/Clock.antt =====
-- _clock of lab9/main.cpp. The vector `vec` has n + 1 places, of which the first is not used.
use sustech_cs.Prelude.{
  ℕ, zero, suc, ◌+◌, ◌-◌, Bool, true, false, Option, none, some, List, [], ◌∷◌, ltb, leb, ◌==◌,
  if◌then◌else◌, ◌>>=◌, update, length,
}
use sustech_cs.Replacement.{Keys, no_keys, insert, erase}

-- An element of `vec`; a page that is -1 is `none`.
pub record Slot : Type 0 where
  pub page : Option ℕ
  pub used : Bool

pub record Clock : Type 0 where
  pub hit : ℕ
  pub hand : ℕ
  pub vec : ℕ → Slot
  pub ele_set : Keys

-- The loop of get_ind, with the turns that it may take.
abbrev pub get_ind : ℕ → ℕ → ℕ → Option ℕ
get_ind zero k ind = if ltb k ind then none else some ind
get_ind (suc turns) k ind =
    let rest = get_ind turns k (ind - k) in if ltb k ind then rest else some ind

-- `hand = get_ind(++hand)`
unfoldable pub advance : ℕ → Clock → Option Clock
advance k s = get_ind (s.hand + 1) k (s.hand + 1) >>= λ hand. some (record s { hand = hand })

abbrev pub forget : Option ℕ → Keys → Option Keys
forget none keys = some keys
forget (some q) keys = if keys.mem q then erase q keys else some keys

-- What the loop of a miss does at a place whose bit is clear.
unfoldable pub place : ℕ → Clock → Option Clock
place p s = forget (s.vec s.hand).page s.ele_set >>= λ keys. some (record s {
  vec = update s.vec s.hand (record { page = some p; used = true });
  ele_set = insert p keys;
})

abbrev pub give_chance : Clock → Clock
give_chance s = record s { vec = update s.vec s.hand (record (s.vec s.hand) { used = false }) }

-- The loop of a miss, with the turns that it may take; `n` is the number of accesses.
unfoldable pub sweep : ℕ → ℕ → ℕ → ℕ → Clock → Option Clock
sweep zero k n p s = none
sweep (suc turns) k n p s =
    let rest = advance k (give_chance s) >>= sweep turns k n p in
    if leb s.hand n then (if (s.vec s.hand).used then rest else place p s) else none

abbrev pub has_page : ℕ → Option ℕ → Bool
has_page p none = false
has_page p (some q) = q == p

-- _find from the place `i` on, with `m` places to the end of the vector, which is no place to write
-- to.
abbrev pub find_from : ℕ → ℕ → (ℕ → Slot) → ℕ → Option ℕ
find_from zero i vec p = none
find_from (suc m) i vec p =
    let rest = find_from m (suc i) vec p in if has_page p (vec i).page then some i else rest

-- The body of the loop.
unfoldable pub access : ℕ → ℕ → ℕ → Clock → Option Clock
access k n p s =
    if s.ele_set.mem p
    then (find_from (suc n) 0 s.vec p >>= λ i.
        some
          (record s { hit = s.hit + 1; vec = update s.vec i (record (s.vec i) { used = true }) }))
    else sweep (suc k) k n p s >>= advance k

unfoldable pub accesses : ℕ → ℕ → List ℕ → Clock → Option Clock
accesses k n [] s = some s
accesses k n (p ∷ order) s = access k n p s >>= accesses k n order

abbrev pub start : Clock
start = record {
  hit = 0;
  hand = 1;
  vec = λ i. record { page = none; used = false };
  ele_set = no_keys;
}

unfoldable pub clock : ℕ → List ℕ → Option ℕ
clock k order = accesses k (length order) order start >>= λ s. some s.hit
