-- ===== src/Replacement/SecondChance/Halves.antt =====
-- The two halves of second_chance in lab9/main.cpp, and what its steps do to them.
use sustech_cs.Prelude.{
  ℕ, suc, ◌-◌, ◌≤◌, ◌≡◌, refl, ap, sym, ◌∙◌, subst, inl, inr, true, false, some, List, ◌∷◌, ◌==◌,
  update, length, arith, Bool-cases, List-cases, if_true, eq_of_==,
}
use sustech_cs.Replacement.{Keys, erase, push, remove}
use sustech_cs.Replacement.Pages.{
  contains, Distinct, push-Distinct, contains-push, contains-remove, remove-Distinct, length-remove,
  InStep, InStep-push, InStep-pop,
}
use sustech_cs.Replacement.SecondChance.{Chance, fifo_push, lru_push, fifo_pop, lru_pop, lru_erase}

-- The pages of the two halves are different, and the sets are in step with them.
pub record Halves (s : Chance) : Type 0 where
  pub que_distinct : Distinct s.que
  pub ls_distinct : Distinct s.ls
  pub que_step : InStep s.ele_set s.que
  pub ls_step : InStep s.pos_map s.ls
  pub apart : (p : ℕ) → contains p s.que ≡ true → contains p s.ls ≡ false

pub push-apart :
    (l m : List ℕ) (p : ℕ)
    → ((q : ℕ) → contains q l ≡ true → contains q m ≡ false)
    → contains p m ≡ false
    → (q : ℕ) → contains q (push l p) ≡ true
    → contains q m ≡ false
push-apart l m p a e q h = elim (Bool-cases (p == q)) [
  | inl f ↦ subst (λ x. contains x m ≡ false) (eq_of_== p q f) e
  | inr f ↦ a q (let g = contains-push p q l in ground arith)
]

swap-apart :
    (l m : List ℕ)
    → ((q : ℕ) → contains q l ≡ true → contains q m ≡ false)
    → (q : ℕ) → contains q m ≡ true
    → contains q l ≡ false
swap-apart l m a q e = elim (Bool-cases (contains q l)) [ inl f ↦ let g = a q f in cc | inr f ↦ f ]

pub fifo_push-Halves :
    (p : ℕ) (s : Chance)
    → Halves s
    → contains p s.que ≡ false
    → contains p s.ls ≡ false
    → Halves (fifo_push p s)
fifo_push-Halves p s v e f = record {
  que_distinct = push-Distinct s.que p e v.que_distinct;
  ls_distinct = v.ls_distinct;
  que_step = InStep-push s.ele_set s.que p e v.que_step;
  ls_step = v.ls_step;
  apart = push-apart s.que s.ls p v.apart f;
}

pub lru_push-Halves :
    (p : ℕ) (s : Chance)
    → Halves s
    → contains p s.que ≡ false
    → contains p s.ls ≡ false
    → Halves (lru_push p s)
lru_push-Halves p s v e f = record {
  que_distinct = v.que_distinct;
  ls_distinct = push-Distinct s.ls p f v.ls_distinct;
  que_step = v.que_step;
  ls_step = InStep-push s.pos_map s.ls p f v.ls_step;
  apart =
      swap-apart (push s.ls p) s.que (push-apart s.ls s.que p (swap-apart s.que s.ls v.apart) e);
}

-- The oldest page of the queue, taken off it.
pub record Popped (s : Chance) (f : ℕ) (t : Chance) : Type 0 where
  pub halves : Halves t
  pub fewer : length s.que ≡ suc (length t.que)
  pub hit_kept : t.hit ≡ s.hit
  pub ls_kept : t.ls ≡ s.ls
  pub gone : contains f t.que ≡ false
  pub elsewhere : contains f t.ls ≡ false
  pub was_there : contains f s.que ≡ true
  pub kept_out : (p : ℕ) → contains p s.que ≡ false → contains p t.que ≡ false

contains-head : (f : ℕ) (l : List ℕ) → contains f (f ∷ l) ≡ true
contains-head f l = ground arith

contains-behind : (p f : ℕ) (l : List ℕ) → contains p (f ∷ l) ≡ false → contains p l ≡ false
contains-behind p f l e = ground arith

contains-deeper : (p f : ℕ) (l : List ℕ) → contains p l ≡ true → contains p (f ∷ l) ≡ true
contains-deeper p f l e = ground arith

pub fifo_pop-Popped :
    (s : Chance)
    → Halves s
    → 1 ≤ length s.que
    → (f : ℕ) × (t : Chance) × (fifo_pop s ≡ some (f, t)) × Popped s f t
unfolding fifo_pop
fifo_pop-Popped s v h = elim (List-cases s.que) [
  | inl c ↦ absurd (let n = ap length c in omega (arith, n, h))
  | inr (f, rest, c) ↦
      let d : Distinct (f ∷ rest) = subst Distinct c v.que_distinct in
      let (keys, erased, step) =
        InStep-pop s.ele_set rest f d (subst (InStep s.ele_set) c v.que_step) in
      let back = λ (p : ℕ) (e : contains p (f ∷ rest) ≡ true).
        v.apart p (subst (λ m. contains p m ≡ true) (sym c) e) in
      (
        f,
        record s { que = rest; ele_set = keys },
        rw (fifo_pop, c, erased) refl,
        record {
          halves = record {
            que_distinct = d.1;
            ls_distinct = v.ls_distinct;
            que_step = step;
            ls_step = v.ls_step;
            apart = λ p e. back p (contains-deeper p f rest e);
          };
          fewer = ap length c;
          hit_kept = refl;
          ls_kept = refl;
          gone = d.0;
          elsewhere = back f (contains-head f rest);
          was_there = ap (contains f) c ∙ contains-head f rest;
          kept_out = λ p e. contains-behind p f rest (subst (λ m. contains p m ≡ false) c e);
        },
      )
]

-- A page that leaves the list.
pub record Left (s t : Chance) : Type 0 where
  pub halves : Halves t
  pub fewer : length s.ls ≡ suc (length t.ls)
  pub hit_kept : t.hit ≡ s.hit
  pub que_kept : t.que ≡ s.que
  pub kept_out : (p : ℕ) → contains p s.ls ≡ false → contains p t.ls ≡ false

pub lru_pop-Left :
    (s : Chance) → Halves s → 1 ≤ length s.ls → (t : Chance) × (lru_pop s ≡ some t) × Left s t
unfolding lru_pop
lru_pop-Left s v h = elim (List-cases s.ls) [
  | inl c ↦ absurd (let n = ap length c in omega (arith, n, h))
  | inr (f, rest, c) ↦
      let d : Distinct (f ∷ rest) = subst Distinct c v.ls_distinct in
      let (keys, erased, step) =
        InStep-pop s.pos_map rest f d (subst (InStep s.pos_map) c v.ls_step) in
      let out = λ (p : ℕ) (e : contains p s.ls ≡ false).
        contains-behind p f rest (subst (λ m. contains p m ≡ false) c e) in
      (
        record s { ls = rest; pos_map = keys },
        rw (lru_pop, c, erased) refl,
        record {
          halves = record {
            que_distinct = v.que_distinct;
            ls_distinct = d.1;
            que_step = v.que_step;
            ls_step = step;
            apart = λ p e. out p (v.apart p e);
          };
          fewer = ap length c;
          hit_kept = refl;
          que_kept = refl;
          kept_out = out;
        },
      )
]

remove-out :
    (p q : ℕ) (l : List ℕ) → Distinct l → contains q l ≡ false → contains q (remove p l) ≡ false
remove-out p q l d e = let f = contains-remove p q l d in ground arith

pub remove_self : (p : ℕ) (l : List ℕ) → Distinct l → contains p (remove p l) ≡ false
remove_self p l d = let f = contains-remove p p l d in ground arith

InStep-erase :
    (m : Keys) (l : List ℕ) (p : ℕ)
    → Distinct l
    → contains p l ≡ true
    → InStep m l
    → (m' : Keys) × (erase p m ≡ some m') × InStep m' (remove p l)
InStep-erase m l p d e s = (
  record m { mem = update m.mem p false; size = m.size - 1 },
  if_true _ _ (s.same p ∙ e),
  record {
    same = λ q. ground (arith, s.same q, contains-remove p q l d);
    measured = omega (arith, s.measured, length-remove p l e);
  },
)

pub lru_erase-Left :
    (p : ℕ) (s : Chance)
    → Halves s
    → contains p s.ls ≡ true
    → (t : Chance) × (lru_erase p s ≡ some t) × Left s t × (contains p t.ls ≡ false)
unfolding lru_erase
lru_erase-Left p s v e =
    let (keys, erased, step) = InStep-erase s.pos_map s.ls p v.ls_distinct e v.ls_step in
    let out = λ (q : ℕ). remove-out p q s.ls v.ls_distinct in
    (
      record s { ls = remove p s.ls; pos_map = keys },
      rw (lru_erase, erased) refl,
      record {
        halves = record {
          que_distinct = v.que_distinct;
          ls_distinct = remove-Distinct p s.ls v.ls_distinct;
          que_step = v.que_step;
          ls_step = step;
          apart = λ q h. out q (v.apart q h);
        };
        fewer = length-remove p s.ls e;
        hit_kept = refl;
        que_kept = refl;
        kept_out = out;
      },
      remove_self p s.ls v.ls_distinct,
    )
