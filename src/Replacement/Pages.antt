-- ===== src/Replacement/Pages.antt =====
-- Lists of different pages, and the sets that are kept in step with them, in lab9/main.cpp.
use sustech_cs.Prelude.{
  ℕ, suc, ◌-◌, ◌≡◌, refl, ap, ◌∙◌, inl, inr, Bool, true, false, ◌&&◌, ◌||◌, not, some, List, [],
  ◌∷◌, ◌++◌, ◌==◌, update, length, arith, Bool-cases, if_true, eq_of_==,
}
use sustech_cs.Replacement.{Keys, no_keys, insert, erase, push, remove}

abbrev pub contains : ℕ → List ℕ → Bool
contains p [] = false
contains p (q ∷ l) = (q == p) || contains p l

abbrev pub Distinct : List ℕ → Type 0
Distinct [] = Unit
Distinct (q ∷ l) = (contains q l ≡ false) × Distinct l

pub contains-push : (p q : ℕ) (l : List ℕ) → contains q (push l p) ≡ (contains q l || (p == q))
contains-push p q [] = ground arith
contains-push p q (r ∷ l) = ground (arith, contains-push p q l)

pub length-push : (l : List ℕ) (p : ℕ) → length (push l p) ≡ suc (length l)
length-push [] p = refl
length-push (q ∷ l) p = ap suc (length-push l p)

pub push-Distinct : (l : List ℕ) (p : ℕ) → contains p l ≡ false → Distinct l → Distinct (push l p)
push-Distinct [] p n d = (refl, tt)
push-Distinct (q ∷ l) p n (a, d) =
    (ground (arith, contains-push p q l), push-Distinct l p (ground arith) d)

pub contains-remove :
    (p q : ℕ) (l : List ℕ) → Distinct l → contains q (remove p l) ≡ (contains q l && not (p == q))
contains-remove p q [] d = refl
contains-remove p q (r ∷ l) (n, d) =
    let ih = contains-remove p q l d in
    elim (Bool-cases (r == p)) [
      | inl e ↦ rw e (ground (arith, n))
      | inr e ↦ rw e (ground (arith, ih))
    ]

pub remove-Distinct : (p : ℕ) (l : List ℕ) → Distinct l → Distinct (remove p l)
remove-Distinct p [] d = tt
remove-Distinct p (r ∷ l) (n, d) =
    let ih = contains-remove p r l d in
    elim (Bool-cases (r == p)) [
      | inl e ↦ rw e d
      | inr e ↦ rw e (ground (arith, n, ih), remove-Distinct p l d)
    ]

pub length-remove :
    (p : ℕ) (l : List ℕ) → contains p l ≡ true → length l ≡ suc (length (remove p l))
length-remove p [] e = cc
length-remove p (r ∷ l) e = ground (arith, length-remove p l)

-- The set has the pages of the list.
pub record InStep (m : Keys) (l : List ℕ) : Type 0 where
  pub same : (p : ℕ) → m.mem p ≡ contains p l
  pub measured : m.size ≡ length l

pub InStep-start : InStep no_keys []
InStep-start = record { same = λ p. refl; measured = refl }

pub InStep-push :
    (m : Keys) (l : List ℕ) (p : ℕ)
    → contains p l ≡ false
    → InStep m l
    → InStep (insert p m) (push l p)
InStep-push m l p n s = rw (s.same p ∙ n) (record {
  same = λ q. ground (arith, s.same q, contains-push p q l);
  measured = omega (arith, s.measured, length-push l p);
})

pub InStep-pop :
    (m : Keys) (l : List ℕ) (p : ℕ)
    → Distinct (p ∷ l)
    → InStep m (p ∷ l)
    → (m' : Keys) × (erase p m ≡ some m') × InStep m' l
InStep-pop m l p (n, d) s =
    let there_is : m.mem p ≡ true = ground (arith, s.same p) in
    (
      record m { mem = update m.mem p false; size = m.size - 1 },
      if_true _ _ there_is,
      record { same = λ q. ground (arith, s.same q, n); measured = omega (arith, s.measured) },
    )

pub InStep-touch :
    (m : Keys) (l : List ℕ) (p : ℕ)
    → Distinct l
    → contains p l ≡ true
    → InStep m l
    → InStep (insert p m) (push (remove p l) p)
InStep-touch m l p d e s = rw (s.same p ∙ e) (record {
  same = λ q. ground (arith, s.same q, contains-push p q (remove p l), contains-remove p q l d);
  measured = omega (arith, s.measured, length-push (remove p l) p, length-remove p l e);
})

pub contains-append : (q : ℕ) (a b : List ℕ) → contains q (a ++ b) ≡ (contains q a || contains q b)
contains-append q [] b = refl
contains-append q (r ∷ a) b = ground (arith, contains-append q a b)

-- Two parts of a list of different pages.
pub Distinct-split :
    (a b : List ℕ) (p : ℕ) → Distinct (a ++ b) → contains p b ≡ true → contains p a ≡ false
Distinct-split [] b p d e = refl
Distinct-split (q ∷ a) b p (n, d) e =
    let apart = contains-append q a b in
    let rest = Distinct-split a b p d e in
    elim (Bool-cases (q == p)) [
      | inl f ↦ let e' : contains q b ≡ true = rw (eq_of_== q p f) e in ground (arith, apart, n, e')
      | inr f ↦ rw (f, rest) refl
    ]

pub Distinct-behind : (a b : List ℕ) → Distinct (a ++ b) → Distinct b
Distinct-behind [] b d = d
Distinct-behind (q ∷ a) b (n, d) = Distinct-behind a b d

pub push-append : (a b : List ℕ) (p : ℕ) → push (a ++ b) p ≡ a ++ push b p
push-append [] b p = refl
push-append (q ∷ a) b p = ap (λ l. q ∷ l) (push-append a b p)

pub push-append-cons : (a b : List ℕ) (p : ℕ) → push a p ++ b ≡ a ++ (p ∷ b)
push-append-cons [] b p = refl
push-append-cons (q ∷ a) b p = ap (λ l. q ∷ l) (push-append-cons a b p)

pub remove-append_behind :
    (a b : List ℕ) (p : ℕ) → contains p a ≡ false → remove p (a ++ b) ≡ a ++ remove p b
remove-append_behind [] b p e = refl
remove-append_behind (q ∷ a) b p e =
    let e' : (q == p) ≡ false = ground arith in
    rw e' (ap (λ l. q ∷ l) (remove-append_behind a b p (ground arith)))

pub remove-append_before :
    (a b : List ℕ) (p : ℕ) → remove p b ≡ b → remove p (a ++ b) ≡ remove p a ++ b
remove-append_before [] b p e = e
remove-append_before (q ∷ a) b p e = elim (Bool-cases (q == p)) [
  | inl f ↦ rw f refl
  | inr f ↦ rw f (ap (λ l. q ∷ l) (remove-append_before a b p e))
]

pub remove-absent : (p : ℕ) (l : List ℕ) → contains p l ≡ false → remove p l ≡ l
remove-absent p [] e = refl
remove-absent p (q ∷ l) e =
    let e' : (q == p) ≡ false = ground arith in
    rw e' (ap (λ r. q ∷ r) (remove-absent p l (ground arith)))
