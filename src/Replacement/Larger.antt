-- ===== src/Replacement/Larger.antt =====
-- lru of lab9/main.cpp with caches of different sizes.
use sustech_cs.Prelude.{
  ℕ, zero, suc, ◌-◌, ◌≤◌, ◌≡◌, inl, inr, true, some, List, [], ◌∷◌, length, arith, Bool-cases,
  or_true, subst, sym, ◌+◌,
}
use sustech_cs.Replacement.Pages.{contains}
use sustech_cs.Replacement.Lru.{lru}
use sustech_cs.Replacement.Hits.{touch, drop, newest, hits, lru-hits}

contains-drop_one :
    (p n : ℕ) (l : List ℕ) → contains p (drop (suc n) l) ≡ true → contains p (drop n l) ≡ true
contains-drop_one p zero [] e = e
contains-drop_one p zero (q ∷ l) e = rw e (or_true _)
contains-drop_one p (suc n) [] e = e
contains-drop_one p (suc n) (q ∷ l) e = contains-drop_one p n l e

contains-drop :
    (p a b : ℕ) (l : List ℕ) → contains p (drop (a + b) l) ≡ true → contains p (drop a l) ≡ true
contains-drop p a zero l e =
    let same : a + 0 ≡ a = omega arith in subst (λ n. contains p (drop n l) ≡ true) same e
contains-drop p a (suc b) l e =
    let same : a + suc b ≡ suc (a + b) = omega arith in
    let e' = subst (λ n. contains p (drop n l) ≡ true) same e in
    contains-drop p a b l (contains-drop_one p (a + b) l e')

contains-newest :
    (k j p : ℕ) (l : List ℕ)
    → k ≤ j
    → contains p (newest k l) ≡ true
    → contains p (newest j l) ≡ true
contains-newest k j p l h e =
    let n = length l in
    let far : (n - j) + ((n - k) - (n - j)) ≡ n - k = omega (arith, h) in
    contains-drop p (n - j) ((n - k) - (n - j)) l
      (subst (λ m. contains p (drop m l) ≡ true) (sym far) e)

hits_mono : (k j : ℕ) (l order : List ℕ) → k ≤ j → hits k l order ≤ hits j l order
hits_mono k j l [] h = omega arith
hits_mono k j l (p ∷ order) h =
    let rest = hits_mono k j (touch p l) order h in
    elim (Bool-cases (contains p (newest k l))) [
      | inl e ↦ rw (e, contains-newest k j p l h e) (omega (arith, rest))
      | inr e ↦ elim (Bool-cases (contains p (newest j l))) [
        | inl f ↦ rw (e, f) (omega (arith, rest))
        | inr f ↦ rw (e, f) rest
      ]
    ]

-- On the same accesses a larger cache has at least as many hits with lru.
pub lru_mono :
    (k j : ℕ) (order : List ℕ)
    → 1 ≤ k
    → k ≤ j
    → (a : ℕ) × (b : ℕ) × (lru k order ≡ some a) × (lru j order ≡ some b) × (a ≤ b)
lru_mono k j order h le = (
  hits k [] order,
  hits j [] order,
  lru-hits k order h,
  lru-hits j order (omega (arith, h, le)),
  hits_mono k j [] order le,
)
