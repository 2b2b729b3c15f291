-- ===== src/Banker/Tasks.antt =====
-- The map of the processes in lab7/banker.cpp: what looking up, changing, adding and erasing an
-- entry do to it.
use sustech_cs.Prelude.{
  ℕ, ◌+◌, ◌-◌, ◌≡◌, ◌≢◌, refl, sym, ap, ◌∙◌, subst, ==_of_ne, inl, inr, none, some, List, [], ◌∷◌,
  ◌==◌, ltb, All, Bool-cases, eq_of_==, ne_of_==, some-injective,
}
use sustech_cs.Banker.{Vec, Task, find, requested, insert, erase}
use sustech_cs.Banker.Order.{Take, here, there}

-- The keys of the map.
abbrev pub Distinct : List Task → Type 0
Distinct [] = Unit
Distinct (t ∷ l) = All (λ u. u.pid ≢ t.pid) l × Distinct l

pub All-Take :
    (P : Task → Type 0) (t : Task) (l l' : List Task) → Take t l l' → All P l → P t × All P l'
All-Take P t _ _ here a = a
All-Take P t (u ∷ l) (_ ∷ l') (there k) (p, a) =
    let (q, rest) = All-Take P t l l' k a in (q, (p, rest))

pub All-put :
    (P : Task → Type 0) (t : Task) (l l' : List Task) → Take t l l' → P t → All P l' → All P l
All-put P t _ _ here p a = (p, a)
All-put P t (u ∷ l) (_ ∷ l') (there k) p (q, a) = (q, All-put P t l l' k p a)

pub Distinct-Take : (t : Task) (l l' : List Task) → Take t l l' → Distinct l → Distinct l'
Distinct-Take t _ _ here (a, d) = d
Distinct-Take t (u ∷ l) (_ ∷ l') (there k) (a, d) =
    ((All-Take (λ v. v.pid ≢ u.pid) t l l' k a).1, Distinct-Take t l l' k d)

pub find-pid : (pid : ℕ) (l : List Task) (t : Task) → find pid l ≡ some t → t.pid ≡ pid
find-pid pid [] t e = cc
find-pid pid (u ∷ l) t e = elim (Bool-cases (u.pid == pid)) [
  | inl f ↦
      let e' : some u ≡ some t = rw f at e in
      ap (λ v. v.pid) (sym (some-injective u t e')) ∙ eq_of_== u.pid pid f
  | inr f ↦ let e' : find pid l ≡ some t = rw f at e in find-pid pid l t e'
]

pub Take-erase : (pid : ℕ) (l : List Task) (t : Task) → find pid l ≡ some t → Take t l (erase pid l)
Take-erase pid [] t e = cc
Take-erase pid (u ∷ l) t e = elim (Bool-cases (u.pid == pid)) [
  | inl f ↦
      let e' : some u ≡ some t = rw f at e in
      let same = some-injective u t e' in rw f (subst (λ v. Take v (u ∷ l) l) same here)
  | inr f ↦ let e' : find pid l ≡ some t = rw f at e in rw f (there (Take-erase pid l t e'))
]

pub find-none : (pid : ℕ) (l : List Task) → find pid l ≡ none → All (λ u. u.pid ≢ pid) l
find-none pid [] e = tt
find-none pid (u ∷ l) e = elim (Bool-cases (u.pid == pid)) [
  | inl f ↦ let e' : some u ≡ none = rw f at e in cc
  | inr f ↦ let e' : find pid l ≡ none = rw f at e in (ne_of_== u.pid pid f, find-none pid l e')
]

-- The entry of a process behind a request.
abbrev pub granted : Vec → Task → Task
granted req t = record t {
  needed = λ i. t.needed i - req i;
  allocated = λ i. t.allocated i + req i;
}

pub requested-absent :
    (pid : ℕ) (req : Vec) (l : List Task) → All (λ u. u.pid ≢ pid) l → requested pid req l ≡ l
requested-absent pid req [] a = refl
requested-absent pid req (u ∷ l) (n, a) =
    rw (==_of_ne u.pid pid n) (ap (λ m. u ∷ m) (requested-absent pid req l a))

pub Take-requested :
    (pid : ℕ) (req : Vec) (l : List Task) (t : Task)
    → Distinct l
    → find pid l ≡ some t
    → Take (granted req t) (requested pid req l) (erase pid l)
Take-requested pid req [] t d e = cc
Take-requested pid req (u ∷ l) t (a, d) e = elim (Bool-cases (u.pid == pid)) [
  | inl f ↦
      let e' : some u ≡ some t = rw f at e in
      let same = some-injective u t e' in
      let others = subst (λ k. All (λ v. v.pid ≢ k) l) (eq_of_== u.pid pid f) a in
      rw (f, requested-absent pid req l others)
        (subst (λ v. Take (granted req v) (granted req u ∷ l) l) same here)
  | inr f ↦
      let e' : find pid l ≡ some t = rw f at e in rw f (there (Take-requested pid req l t d e'))
]

All-requested-pid :
    (k pid : ℕ) (req : Vec) (l : List Task)
    → All (λ u. u.pid ≢ k) l
    → All (λ u. u.pid ≢ k) (requested pid req l)
All-requested-pid k pid req [] a = tt
All-requested-pid k pid req (u ∷ l) (n, a) = elim (Bool-cases (u.pid == pid)) [
  | inl f ↦ rw f (n, All-requested-pid k pid req l a)
  | inr f ↦ rw f (n, All-requested-pid k pid req l a)
]

pub requested-Distinct :
    (pid : ℕ) (req : Vec) (l : List Task) → Distinct l → Distinct (requested pid req l)
requested-Distinct pid req [] d = tt
requested-Distinct pid req (u ∷ l) (a, d) =
    let rest = requested-Distinct pid req l d in
    let others = All-requested-pid u.pid pid req l a in
    elim (Bool-cases (u.pid == pid)) [ inl f ↦ rw f (others, rest) | inr f ↦ rw f (others, rest) ]

pub Take-insert : (t : Task) (l : List Task) → Take t (insert t l) l
Take-insert t [] = here
Take-insert t (u ∷ l) = elim (Bool-cases (ltb t.pid u.pid)) [
  | inl f ↦ rw f here
  | inr f ↦ rw f (there (Take-insert t l))
]

pub insert-Distinct :
    (t : Task) (l : List Task) → All (λ u. u.pid ≢ t.pid) l → Distinct l → Distinct (insert t l)
insert-Distinct t [] a d = (tt, tt)
insert-Distinct t (u ∷ l) (n, a) (b, d) = elim (Bool-cases (ltb t.pid u.pid)) [
  | inl f ↦ rw f ((n, a), (b, d))
  | inr f ↦ rw f (
    All-put (λ v. v.pid ≢ u.pid) t (insert t l) l (Take-insert t l) (λ e. n (sym e)) b,
    insert-Distinct t l a d,
  )
]
