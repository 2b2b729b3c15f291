-- ===== src/Replacement/Lru.antt =====
-- lru of lab9/main.cpp: the list has the page that was used last at its end.
use sustech_cs.Prelude.{ℕ, ◌+◌, Option, some, List, [], ◌∷◌, ◌==◌, if◌then◌else◌, ◌>>=◌}
use sustech_cs.Replacement.{Keys, no_keys, insert, erase, pop, push, remove}

pub record Lru : Type 0 where
  pub hit : ℕ
  pub ls : List ℕ
  pub pos_map : Keys

abbrev pub put : ℕ → Lru → Lru
put p s = record s { ls = push s.ls p; pos_map = insert p s.pos_map }

-- The eviction from a full cache.
abbrev pub evict : Lru → Option Lru
evict s = pop s.ls >>= λ (ind, rest).
    erase ind s.pos_map >>= λ keys. some (record s { ls = rest; pos_map = keys })

-- The body of the loop.
unfoldable pub access : ℕ → ℕ → Lru → Option Lru
access k p s =
    if s.pos_map.mem p
    then some (put p (record s { hit = s.hit + 1; ls = remove p s.ls }))
    else if s.pos_map.size == k
    then evict s >>= (λ t. some (put p t))
    else some (put p s)

unfoldable pub accesses : ℕ → List ℕ → Lru → Option Lru
accesses k [] s = some s
accesses k (p ∷ order) s = access k p s >>= accesses k order

abbrev pub start : Lru
start = record { hit = 0; ls = []; pos_map = no_keys }

unfoldable pub lru : ℕ → List ℕ → Option ℕ
lru k order = accesses k order start >>= λ s. some s.hit
