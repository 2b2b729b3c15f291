-- ===== src/Banker/Safe.antt =====
-- safe_check of lab7/banker.cpp: its rounds find an order in which all processes finish, if there is
-- one.
use sustech_cs.Prelude.{
  ℕ, zero, suc, ◌≤◌, ◌<◌, ◌≡◌, ◌↔◌, refl, ap, sym, subst, ◌∙◌, Bool, true, false, ◌||◌, List, [],
  ◌∷◌, leb, if◌then◌else◌, Bool-cases, arith, All, if_true, if_false, inl, inr,
}
use sustech_cs.Banker.{
  Vec, Task, Mark, all_below, add, fits, visit, pass, rounds, marks, all_finished, size, is_safe,
}
use sustech_cs.Banker.Order.{Take, here, there, Fits, Completes, done, next, Completes-without}

pub all_below-lem : (n : ℕ) (p : ℕ → Bool) (i : ℕ) → all_below n p ≡ true → i < n → p i ≡ true
all_below-lem zero p i e h = absurd (omega (arith, h))
all_below-lem (suc n) p i e h = ground (arith, all_below-lem n p i)

pub all_below-true : (n : ℕ) (p : ℕ → Bool) → ((i : ℕ) → i < n → p i ≡ true) → all_below n p ≡ true
all_below-true zero p h = refl
all_below-true (suc n) p h =
    let a = all_below-true n p (λ i lt. h i (omega (arith, lt))) in
    let b = h n (omega arith) in ground arith

leb-true : (a b : ℕ) → a ≤ b → leb a b ≡ true
leb-true a b h = ground arith

le_of_leb : (a b : ℕ) → leb a b ≡ true → a ≤ b
le_of_leb a b h = ground arith

pub Fits-fits : (r : ℕ) (v w : Vec) → fits r v w ≡ true → Fits r v w
Fits-fits r v w e i h = le_of_leb (v i) (w i) (all_below-lem r (λ (j : ℕ). leb (v j) (w j)) i e h)

fits-Fits : (r : ℕ) (v w : Vec) → Fits r v w → fits r v w ≡ true
fits-Fits r v w f =
    all_below-true r (λ (j : ℕ). leb (v j) (w j)) (λ i h. leb-true (v i) (w i) (f i h))

-- The processes that are not finished.
abbrev pending : List Mark → List Task
pending [] = []
pending (m ∷ l) = let rest = pending l in if m.finish then rest else m.task ∷ rest

-- What a pass does to the processes that are not finished: some of them finish.
data Runs (r : ℕ) : Vec → List Task → Vec → List Task → Type 0 where
  stop : {work : Vec} {l : List Task} → Runs r work l work l
  step :
      {work work' : Vec} {l l' l'' : List Task} (t : Task)
      → Take t l l'
      → Fits r t.needed work
      → Runs r (add work t.allocated) l' work' l''
      → Runs r work l work' l''

Runs-under :
    (r : ℕ) (u : Task) (w w' : Vec) (l l' : List Task)
    → Runs r w l w' l'
    → Runs r w (u ∷ l) w' (u ∷ l')
Runs-under r u w _ l _ stop = stop
Runs-under r u w w' l l'' (step {l' = l'} t k f rest) =
    step t (there k) f (Runs-under r u (add w t.allocated) w' l' l'' rest)

Runs-back :
    (r : ℕ) (w w' : Vec) (l l' : List Task) → Runs r w l w' l' → Completes r w' l' → Completes r w l
Runs-back r w _ l _ stop c = c
Runs-back r w w' l l'' (step {l' = l'} t k f rest) c =
    next t k f (Runs-back r (add w t.allocated) w' l' l'' rest c)

Runs-on :
    (r : ℕ) (w w' : Vec) (l l' : List Task) → Runs r w l w' l' → Completes r w l → Completes r w' l'
Runs-on r w _ l _ stop c = c
Runs-on r w w' l l'' (step {l' = l'} t k f rest) c =
    Runs-on r (add w t.allocated) w' l' l'' rest (Completes-without r w l l' t k c)

size-Take : (t : Task) (l l' : List Task) → Take t l l' → size l ≡ suc (size l')
size-Take t _ _ here = refl
size-Take t (u ∷ l) (_ ∷ l') (there k) = omega (arith, size-Take t l l' k)

size-Runs : (r : ℕ) (w w' : Vec) (l l' : List Task) → Runs r w l w' l' → size l' ≤ size l
size-Runs r w _ l _ stop = omega arith
size-Runs r w w' l l'' (step {l' = l'} t k f rest) =
    omega (arith, size-Take t l l' k, size-Runs r (add w t.allocated) w' l' l'' rest)

-- What a visit has done.
data Visited (r : ℕ) (m : Mark) (w : Vec) : Mark × (Vec × Bool) → Type 0 where
  skipped : m.finish ≡ true → Visited r m w (m, (w, false))
  waits : m.finish ≡ false → fits r m.task.needed w ≡ false → Visited r m w (m, (w, false))
  goes :
      m.finish ≡ false
      → fits r m.task.needed w ≡ true
      → Visited r m w (record m { finish = true }, (add w m.task.allocated, true))

visit-Visited : (r : ℕ) (m : Mark) (w : Vec) → Visited r m w (visit r m w)
unfolding visit
visit-Visited r m w =
    let same : Mark × (Vec × Bool) = (m, (w, false)) in
    let gone : Mark × (Vec × Bool) = (record m { finish = true }, (add w m.task.allocated, true)) in
    let tested = if fits r m.task.needed w then gone else same in
    let finish_false = λ (e : m.finish ≡ false). if_false same tested e in
    elim (Bool-cases m.finish) [
      | inl e ↦ subst (Visited r m w) (sym (if_true same tested e)) (skipped e)
      | inr e ↦ elim (Bool-cases (fits r m.task.needed w)) [
        | inl f ↦ subst (Visited r m w) (sym (finish_false e ∙ if_true gone same f)) (goes e f)
        | inr f ↦ subst (Visited r m w) (sym (finish_false e ∙ if_false gone same f)) (waits e f)
      ]
    ]

-- Of a pass: it is a run; if it sets the flag a process has finished, and otherwise none could.
record Passed (r : ℕ) (l : List Mark) (w : Vec) (out : List Mark × (Vec × Bool)) : Type 0 where
  runs : Runs r w (pending l) out.1.0 (pending out.0)
  fewer : out.1.1 ≡ true → size (pending out.0) < size (pending l)
  stuck : out.1.1 ≡ false → All (λ t. fits r t.needed w ≡ false) (pending l)

Passed-cons :
    (r : ℕ) (m : Mark) (l : List Mark) (w : Vec) (v : Mark × (Vec × Bool))
    (out : List Mark × (Vec × Bool))
    → Visited r m w v
    → Passed r l v.1.0 out
    → Passed r (m ∷ l) w (v.0 ∷ out.0, (out.1.0, v.1.1 || out.1.1))
Passed-cons r m l w _ out (skipped e) p = record {
  runs = rw e p.runs;
  fewer = rw e p.fewer;
  stuck = rw e p.stuck;
}
Passed-cons r m l w _ out (waits e f) p = record {
  runs = rw e (Runs-under r m.task w out.1.0 (pending l) (pending out.0) p.runs);
  fewer = λ h. rw e (omega (arith, p.fewer h));
  stuck = λ h. rw e (f, p.stuck h);
}
Passed-cons r m l w _ out (goes e f) p = record {
  runs = rw e (step m.task here (Fits-fits r m.task.needed w f) p.runs);
  fewer = λ h. rw e (
      omega
        (arith, size-Runs r (add w m.task.allocated) out.1.0 (pending l) (pending out.0) p.runs));
  stuck = λ h. cc;
}

pass-Passed : (r : ℕ) (l : List Mark) (w : Vec) → Passed r l w (pass r l w)
pass-Passed r [] w = record { runs = stop; fewer = λ h. cc; stuck = λ h. tt }
pass-Passed r (m ∷ l) w =
    let v = visit r m w in
    Passed-cons r m l w v (pass r l v.1.0) (visit-Visited r m w) (pass-Passed r l v.1.0)

-- Where no process can go on, and all could finish, there is none.
stuck-empty :
    (r : ℕ) (w : Vec) (l : List Task)
    → All (λ t. fits r t.needed w ≡ false) l
    → Completes r w l
    → l ≡ []
stuck-empty r w _ a done = refl
stuck-empty r w l a (next {l' = l'} t k f c) = absurd (no_Take r w t l l' k f a)
  where
    no_Take :
        (r : ℕ) (w : Vec) (t : Task) (l l' : List Task)
        → Take t l l'
        → Fits r t.needed w
        → ¬ All (λ u. fits r u.needed w ≡ false) l
    no_Take r w t _ _ here f (a, _) = let e = fits-Fits r t.needed w f in cc
    no_Take r w t (u ∷ l) (_ ∷ l') (there k) f (_, a) = no_Take r w t l l' k f a

all_finished-pending : (l : List Mark) → all_finished l ≡ true → pending l ≡ []
all_finished-pending [] e = refl
all_finished-pending (m ∷ l) e = elim (Bool-cases m.finish) [
  | inl f ↦ rw f (all_finished-pending l (ground arith))
  | inr f ↦ cc
]

pending-all_finished : (l : List Mark) → size (pending l) ≡ 0 → all_finished l ≡ true
pending-all_finished [] e = refl
pending-all_finished (m ∷ l) e = elim (Bool-cases m.finish) [
  | inl f ↦ let e' : size (pending l) ≡ 0 = rw f at e in rw (f, pending-all_finished l e') refl
  | inr f ↦ let e' : suc (size (pending l)) ≡ 0 = rw f at e in absurd (omega (arith, e'))
]

-- The end of the rounds: a run from the start has led there, and it is complete if one could be.
record Ended (r : ℕ) (w : Vec) (l end : List Mark) : Type 0 where
  back : all_finished end ≡ true → Completes r w (pending l)
  on : Completes r w (pending l) → all_finished end ≡ true

Ended-last :
    (r : ℕ) (w w' : Vec) (l l' : List Mark)
    → Runs r w (pending l) w' (pending l')
    → (Completes r w (pending l) → size (pending l') ≡ 0)
    → Ended r w l l'
Ended-last r w w' l l' run empty = record {
  back = λ e. Runs-back r w w' (pending l) (pending l') run (rw (all_finished-pending l' e) done);
  on = λ c. pending-all_finished l' (empty c);
}

rounds-Ended :
    (n r : ℕ) (l : List Mark) (w : Vec) → size (pending l) ≤ n → Ended r w l (rounds n r l w)
rounds-Ended zero r l w h = Ended-last r w w l l stop (λ c. omega (arith, h))
rounds-Ended (suc n) r l w h =
    let out = pass r l w in
    let p = pass-Passed r l w in
    let rest = rounds n r out.0 out.1.0 in
    elim (Bool-cases out.1.1) [
      | inl e ↦
          let q = rounds-Ended n r out.0 out.1.0 (omega (arith, h, p.fewer e)) in
          subst (Ended r w l) (sym (if_true rest out.0 e)) (record {
            back = λ f. Runs-back r w out.1.0 (pending l) (pending out.0) p.runs (q.back f);
            on = λ c. q.on (Runs-on r w out.1.0 (pending l) (pending out.0) p.runs c);
          })
      | inr e ↦ subst (Ended r w l) (sym (if_false rest out.0 e)) (
          Ended-last r w out.1.0 l out.0 p.runs (λ c.
            let none_left = ap size (stuck-empty r w (pending l) (p.stuck e) c) in
            omega (arith, none_left, size-Runs r w out.1.0 (pending l) (pending out.0) p.runs)))
    ]

pending-marks : (l : List Task) → pending (marks l) ≡ l
pending-marks [] = refl
pending-marks (t ∷ l) = ap (λ m. t ∷ m) (pending-marks l)

-- The bound on the rounds is enough, and a state is taken to be safe exactly if its processes can
-- finish one after the other.
pub is_safe-Completes :
    (r : ℕ) (tasks : List Task) (work : Vec)
    → (is_safe r tasks work ≡ true) ↔ Completes r work tasks
unfolding is_safe
is_safe-Completes r tasks work =
    let same = pending-marks tasks in
    let enough : size (pending (marks tasks)) ≤ size tasks = rw same (omega arith) in
    let ended = rounds-Ended (size tasks) r (marks tasks) work enough in
    (
      λ e. subst (Completes r work) same (ended.back e),
      λ c. ended.on (subst (Completes r work) (sym same) c),
    )
