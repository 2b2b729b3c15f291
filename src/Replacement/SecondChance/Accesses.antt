-- ===== src/Replacement/SecondChance/Accesses.antt =====
-- second_chance of lab9/main.cpp keeps its two halves, and the page used last is in the queue.
use sustech_cs.Prelude.{
  ℕ, suc, ◌+◌, ◌≤◌, ◌≡◌, refl, ap, sym, ◌∙◌, subst, inl, inr, some, none, zero, List, [], ◌∷◌,
  if◌then◌else◌, ◌>>=◌, arith, Bool-cases, if_true, if_false,
}
use sustech_cs.Replacement.Pages.{InStep-start}
use sustech_cs.Replacement.SecondChance.{
  Chance, fifo_pop, lru_pop, demote, access, accesses, start, second_chance,
}
use sustech_cs.Replacement.SecondChance.State.{Valid, cached, Stepped, access-hit}
use sustech_cs.Replacement.SecondChance.Misses.{access-miss}

-- With two places or more, an access from a valid state is free of undefined behaviour and leads to
-- a valid state, in which the halves are within their sizes, hold different pages and the queue has
-- the page; it counts as a hit exactly if one of the halves had the page.
pub access-Valid :
    (k p : ℕ) (s : Chance)
    → 2 ≤ k
    → Valid k s
    → Stepped k p s (if cached p s then s.hit + 1 else s.hit)
access-Valid k p s h v = elim (Bool-cases (cached p s)) [
  | inl e ↦ subst (Stepped k p s) (sym (if_true _ _ e)) (access-hit k p s h v e)
  | inr e ↦ subst (Stepped k p s) (sym (if_false _ _ e)) (access-miss k p s h v e)
]

pub start-Valid : (k : ℕ) → Valid k start
start-Valid k = record {
  halves = record {
    que_distinct = tt;
    ls_distinct = tt;
    que_step = InStep-start;
    ls_step = InStep-start;
    apart = λ p e. refl;
  };
  que_small = omega arith;
  ls_small = omega arith;
  filled = inl refl;
}

accesses-Valid :
    (k : ℕ) (order : List ℕ) (s : Chance)
    → 2 ≤ k
    → Valid k s
    → (s' : Chance) × (accesses k order s ≡ some s') × Valid k s'
unfolding accesses
accesses-Valid k [] s h v = (s, refl, v)
accesses-Valid k (p ∷ order) s h v =
    let (t, made, (v', there_is, counted)) = access-Valid k p s h v in
    let (u, made', v'') = accesses-Valid k order t h v' in
    (u, ap (λ m. m >>= accesses k order) made ∙ made', v'')

second_chance-some : (k : ℕ) (order : List ℕ) → 2 ≤ k → (h : ℕ) × (second_chance k order ≡ some h)
unfolding second_chance
second_chance-some k order h =
    let (s, made, v) = accesses-Valid k order start h (start-Valid k) in
    (s.hit, ap (λ m. m >>= (λ (u : Chance). some u.hit)) made)

-- With one place or none, the queue has no room, and the first access asks an empty queue or
-- list for its front.
second_chance-none : (k p : ℕ) (order : List ℕ) → k ≤ 1 → second_chance k (p ∷ order) ≡ none
unfolding second_chance accesses access demote fifo_pop lru_pop
second_chance-none zero p order h = refl
second_chance-none (suc k) p order h =
    let z : k ≡ 0 = omega (arith, h) in
    subst (λ n. second_chance (suc n) (p ∷ order) ≡ none) (sym z) refl
