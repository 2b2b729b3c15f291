-- ===== src/Replacement/Slots.antt =====
-- The steps of _clock in lab9/main.cpp: the hand, and the pages in the vector and in the set.
use sustech_cs.Prelude.{
  update-same, update-other, ℕ, zero, suc, ◌+◌, ◌-◌, ◌≤◌, ◌≡◌, ◌≢◌, refl, ap, ◌∙◌, ◌⊎◌, inl, inr,
  true, false, Option, some, none, ltb, ◌==◌, if◌then◌else◌, update, arith, Bool-cases, eq_of_==,
  ne_of_==, some-injective,
}
use sustech_cs.Replacement.{Keys, insert}
use sustech_cs.Replacement.Clock.{Slot, Clock, get_ind, advance, forget, place, give_chance}

-- Every page of the set stands in the vector.
abbrev pub Found : ℕ → Clock → Type 0
Found n s = (p : ℕ) → s.ele_set.mem p ≡ true → (i : ℕ) × (i ≤ n) × ((s.vec i).page ≡ some p)

get_ind-one : (turns k : ℕ) → 1 ≤ k → get_ind turns k 1 ≡ some 1
get_ind-one zero k h = ground arith
get_ind-one (suc turns) k h = ground arith

get_ind-next :
    (turns k h : ℕ)
    → 1 ≤ k
    → h ≤ k
    → get_ind (suc turns) k (suc h) ≡ some (if h == k then 1 else suc h)
get_ind-next turns k h le lt = elim (Bool-cases (h == k)) [
  | inl e ↦
      let e' = eq_of_== h k e in
      let one : suc h - k ≡ 1 = omega (arith, e') in
      let over : ltb k (suc h) ≡ true = ground arith in rw (over, e, one) (get_ind-one turns k le)
  | inr e ↦
      let under : ltb k (suc h) ≡ false = let n = ne_of_== h k e in ground arith in
      rw (under, e) refl
]

-- The hand moves on by one place, from the last to the first.
abbrev pub next_place : ℕ → ℕ → ℕ
next_place k h = if h == k then 1 else suc h

pub next_place-last : (k h : ℕ) → h ≡ k → next_place k h ≡ 1
next_place-last k h e = ground arith

pub next_place-inner : (k h : ℕ) → h ≢ k → next_place k h ≡ suc h
next_place-inner k h e = ground arith

pub advance-next :
    (k : ℕ) (s : Clock)
    → 1 ≤ k
    → s.hand ≤ k
    → advance k s ≡ some (record s { hand = next_place k s.hand })
unfolding advance
advance-next k s h le =
    let turn : s.hand + 1 ≡ suc s.hand = omega arith in
    rw (turn, get_ind-next s.hand k s.hand h le) refl

-- What is known of the element in which a page is put.
pub record Placed (n p : ℕ) (s s' : Clock) : Type 0 where
  pub found : Found n s'
  pub stays : s'.hand ≡ s.hand
  pub counted : s'.hit ≡ s.hit
  pub others : (i : ℕ) → s.hand ≢ i → s'.vec i ≡ s.vec i

forget-lem :
    (q : Option ℕ) (keys : Keys)
    → (keys' : Keys) × (forget q keys ≡ some keys')
      × ((p : ℕ) → keys'.mem p ≡ true → (keys.mem p ≡ true) × (q ≢ some p))
forget-lem none keys = (keys, refl, λ p e. (e, λ h. cc))
forget-lem (some q) keys = elim (Bool-cases (keys.mem q)) [
  | inl e ↦ (
    record keys { mem = update keys.mem q false; size = keys.size - 1 },
    rw e refl,
    λ p h. elim (Bool-cases (q == p)) [
      | inl f ↦ let h' : false ≡ true = rw f at h in cc
      | inr f ↦
          let h' : keys.mem p ≡ true = rw f at h in (h', λ g. ne_of_== q p f (some-injective q p g))
    ],
  )
  | inr e ↦ (
    keys,
    rw e refl,
    λ p h. (h, λ g. let g' = some-injective q p g in let h' : keys.mem q ≡ true = rw g' h in cc),
  )
]

insert-mem : (p q : ℕ) (keys : Keys) → (insert p keys).mem q ≡ true → (p ≡ q) ⊎ (keys.mem q ≡ true)
insert-mem p q keys e = elim (Bool-cases (keys.mem p)) [
  | inl f ↦ inr (let e' : keys.mem q ≡ true = rw f at e in e')
  | inr f ↦ elim (Bool-cases (p == q)) [
    | inl g ↦ inl (eq_of_== p q g)
    | inr g ↦ inr (let e' : keys.mem q ≡ true = rw (f, g) at e in e')
  ]
]

pub place-Placed :
    (n p : ℕ) (s : Clock)
    → s.hand ≤ n
    → Found n s
    → (s' : Clock) × (place p s ≡ some s') × Placed n p s s'
unfolding place
place-Placed n p s h f =
    let (keys, e, left) = forget-lem (s.vec s.hand).page s.ele_set in
    let slot : Slot = record { page = some p; used = true } in
    let vec = update s.vec s.hand slot in
    (
      record s { vec = vec; ele_set = insert p keys },
      rw e refl,
      record {
        found = λ q there_is. elim (insert-mem p q keys there_is) [
          | inl same ↦
              (s.hand, h, ap (λ (t : Slot). t.page) (update-same s.vec s.hand slot) ∙ ap some same)
          | inr old ↦
              let (was, differs) = left q old in
              let (i, le, at_i) = f q was in
              let apart : s.hand ≢ i = λ g. differs (ap (λ j. (s.vec j).page) g ∙ at_i) in
              (i, le, ap (λ (t : Slot). t.page) (update-other s.vec s.hand i slot apart) ∙ at_i)
        ];
        stays = refl;
        counted = refl;
        others = λ i apart. update-other s.vec s.hand i slot apart;
      },
    )

pub give_chance-Found : (n : ℕ) (s : Clock) → Found n s → Found n (give_chance s)
give_chance-Found n s f p e =
    let (i, le, at_i) = f p e in
    let slot : Slot = record (s.vec s.hand) { used = false } in
    (
      i,
      le,
      elim (Bool-cases (s.hand == i)) [
        | inl g ↦ rw g (ap (λ j. (s.vec j).page) (eq_of_== s.hand i g) ∙ at_i)
        | inr g ↦ rw g at_i
      ],
    )
