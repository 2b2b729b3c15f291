-- ===== src/Banker/Order.antt =====
-- The abstract view of lab7/banker.cpp: an order in which the processes can all finish.
use sustech_cs.Prelude.{ℕ, ◌+◌, ◌≤◌, ◌<◌, ◌≡◌, refl, ap, ◌⊎◌, inl, inr, List, [], ◌∷◌, arith}
use sustech_cs.Banker.{Vec, Task, add}

-- Taking an entry out of a list.
pub data Take (t : Task) : List Task → List Task → Type 0 where
  here : {l : List Task} → Take t (t ∷ l) l
  there : {u : Task} {l l' : List Task} → Take t l l' → Take t (u ∷ l) (u ∷ l')

abbrev pub Fits : ℕ → Vec → Vec → Type 0
Fits r needed work = (i : ℕ) → i < r → needed i ≤ work i

-- The processes finish one after the other: each finds what it still needs among what is free, and
-- gives back what it holds.
pub data Completes (r : ℕ) : Vec → List Task → Type 0 where
  done : {work : Vec} → Completes r work []
  next :
      {work : Vec} {l l' : List Task} (t : Task)
      → Take t l l'
      → Fits r t.needed work
      → Completes r (add work t.allocated) l'
      → Completes r work l

pub Completes-mono :
    (r : ℕ) (work work' : Vec) (l : List Task)
    → ((i : ℕ) → i < r → work i ≤ work' i)
    → Completes r work l
    → Completes r work' l
Completes-mono r work work' _ le done = done
Completes-mono r work work' l le (next t k f c) =
    next t k (λ i h. omega (arith, le i h, f i h))
      (Completes-mono r (add work t.allocated) (add work' t.allocated) _
        (λ i h. omega (arith, le i h)) c)

-- Taking out two entries in either order.
Take-swap :
    (t u : Task) (l l1 l2 : List Task)
    → Take t l l1
    → Take u l l2
    → ((t ≡ u) × (l1 ≡ l2)) ⊎ ((l3 : List Task) × Take u l1 l3 × Take t l2 l3)
Take-swap t u _ _ _ here here = inl (refl, refl)
Take-swap t u _ _ _ here (there {l' = m} k) = inr (m, k, here)
Take-swap t u _ _ _ (there {l' = m} k) here = inr (m, here, k)
Take-swap t u (x ∷ l) (_ ∷ l1) (_ ∷ l2) (there k) (there k') = elim (Take-swap t u l l1 l2 k k') [
  | inl (e, e') ↦ inl (e, ap (λ m. x ∷ m) e')
  | inr (l3, a, b) ↦ inr (x ∷ l3, there a, there b)
]

-- A process may give up at any time.
pub Completes-without :
    (r : ℕ) (work : Vec) (l l' : List Task) (t : Task)
    → Take t l l'
    → Completes r work l
    → Completes r (add work t.allocated) l'
Completes-without r _ _ l' t k (done {work = work}) = elim k [ ]
Completes-without r work l l' t k (next {l' = m} u k' f c) = elim (Take-swap t u l l' m k k') [
  | inl (e, e') ↦ rw (e, e') c
  | inr (l3, a, b) ↦
      next u a (λ i h. omega (arith, f i h))
        (Completes-mono r (add (add work u.allocated) t.allocated)
          (add (add work t.allocated) u.allocated) l3 (λ i h. omega arith)
          (Completes-without r (add work u.allocated) m l3 t b c))
]

-- What the processes hold together.
abbrev pub total : List Task → Vec
total [] i = 0
total (t ∷ l) i = t.allocated i + total l i

pub total-Take :
    (t : Task) (l l' : List Task) (i : ℕ) → Take t l l' → total l i ≡ t.allocated i + total l' i
total-Take t _ _ i here = refl
total-Take t (u ∷ l) (_ ∷ l') i (there k) = omega (arith, total-Take t l l' i k)

Take-under :
    (t u : Task) (l1 l l2 : List Task)
    → Take t l1 l
    → Take u l l2
    → (l3 : List Task) × Take u l1 l3 × Take t l3 l2
Take-under t u _ l l2 here k = (t ∷ l2, there k, here)
Take-under t u (x ∷ l1) _ _ (there k) here = (l1, here, k)
Take-under t u (x ∷ l1) (_ ∷ l) (_ ∷ l2) (there k) (there k') =
    let (l3, a, b) = Take-under t u l1 l l2 k k' in (x ∷ l3, there a, there b)

-- A process that needs no more than everything can wait for the others.
pub Completes-with :
    (r : ℕ) (work : Vec) (l l' : List Task) (t : Task)
    → Take t l' l
    → ((i : ℕ) → i < r → t.needed i ≤ work i + total l i)
    → Completes r work l
    → Completes r work l'
Completes-with r work _ l' t k f done = next t k (λ i h. omega (arith, f i h)) done
Completes-with r work l l' t k f (next {l' = m} u k' g c) =
    let (l3, a, b) = Take-under t u l' l m k k' in
    next u a g (
      Completes-with r (add work u.allocated) m l3 t b
        (λ i h. omega (arith, f i h, total-Take u l m i k')) c)
