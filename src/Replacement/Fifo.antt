-- ===== src/Replacement/Fifo.antt =====
-- fifo of lab9/main.cpp.
mod Queue
use sustech_cs.Prelude.{
  ℕ, ◌+◌, Bool, true, false, Option, none, some, List, [], ◌∷◌, ◌==◌, if◌then◌else◌, ◌>>=◌, length,
}
use sustech_cs.Replacement.{Keys, no_keys, insert, erase, pop, push}

pub record Fifo : Type 0 where
  pub hit : ℕ
  pub que : List ℕ
  pub ele_set : Keys

abbrev pub put : ℕ → Fifo → Fifo
put p s = record s { que = push s.que p; ele_set = insert p s.ele_set }

abbrev pub evict : Fifo → Option Fifo
evict s = pop s.que >>= λ (f, rest).
    erase f s.ele_set >>= λ keys. some (record s { que = rest; ele_set = keys })

-- The body of the loop.
unfoldable pub access : ℕ → ℕ → Fifo → Option Fifo
access k p s =
    if s.ele_set.mem p
    then some (record s { hit = s.hit + 1 })
    else if length s.que == k
    then evict s >>= (λ t. some (put p t))
    else some (put p s)

unfoldable pub accesses : ℕ → List ℕ → Fifo → Option Fifo
accesses k [] s = some s
accesses k (p ∷ order) s = access k p s >>= accesses k order

abbrev pub start : Fifo
start = record { hit = 0; que = []; ele_set = no_keys }

unfoldable pub fifo : ℕ → List ℕ → Option ℕ
fifo k order = accesses k order start >>= λ s. some s.hit
