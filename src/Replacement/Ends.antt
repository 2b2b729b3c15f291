-- ===== src/Replacement/Ends.antt =====
-- _clock of lab9/main.cpp ends and stays inside its vector.
use sustech_cs.Prelude.{
  update-other, ℕ, zero, suc, ◌+◌, ◌≤◌, ◌<◌, ◌≡◌, ◌≢◌, refl, ap, sym, ◌∙◌, ◌⊎◌, inl, inr, true,
  false, Option, some, none, List, [], ◌∷◌, leb, ◌==◌, ◌>>=◌, update, length, arith, Bool-cases,
  if_true, if_false, eq_of_==, ne_of_==,
}
use sustech_cs.Replacement.Clock.{
  Slot, Clock, advance, has_page, find_from, access, accesses, start, clock,
}
use sustech_cs.Replacement.Slots.{Found, next_place, next_place-inner, advance-next, place-Placed}
use sustech_cs.Replacement.Sweep.{sweep-place, Sweeps-all}

abbrev vacant : Slot
vacant = record { page = none; used = false }

-- With `m` accesses to come: either the vector has all places that the hand visits, or the hand
-- has not been round yet.
record Good (k n m : ℕ) (s : Clock) : Type 0 where
  found : Found n s
  low : 1 ≤ s.hand
  high : s.hand ≤ k
  room : (k ≤ n) ⊎ ((n < k) × (s.hand + m ≤ suc n) × ((i : ℕ) → s.hand ≤ i → s.vec i ≡ vacant))

has_page-some : (p : ℕ) (o : Option ℕ) → has_page p o ≡ true → o ≡ some p
has_page-some p none e = cc
has_page-some p (some q) e = ap some (eq_of_== q p e)

find_from-some :
    (m i j : ℕ) (vec : ℕ → Slot) (p : ℕ)
    → i ≤ j
    → j < i + m
    → (vec j).page ≡ some p
    → (x : ℕ) × (find_from m i vec p ≡ some x) × ((vec x).page ≡ some p)
find_from-some zero i j vec p le lt e = absurd (omega (arith, le, lt))
find_from-some (suc m) i j vec p le lt e = elim (Bool-cases (has_page p (vec i).page)) [
  | inl f ↦ (i, if_true _ _ f, has_page-some p (vec i).page f)
  | inr f ↦
      let apart : i ≢ j = λ g.
        let e' : (vec i).page ≡ some p = rw g e in
        let f' : (p == p) ≡ false = rw e' at f in absurd (ne_of_== p p f' refl) in
      let (x, made, at_x) =
        find_from-some m (suc i) j vec p (omega (arith, le, apart)) (omega (arith, lt)) e in
      (x, if_false _ _ f ∙ made, at_x)
]

-- A bit that is set on a page that is there.
touched-Found :
    (n i : ℕ) (s : Clock)
    → Found n s
    → Found n
        (record s { hit = s.hit + 1; vec = update s.vec i (record (s.vec i) { used = true }) })
touched-Found n i s f p e =
    let (j, le, at_j) = f p e in
    (
      j,
      le,
      elim (Bool-cases (i == j)) [
        | inl g ↦ rw g (ap (λ x. (s.vec x).page) (eq_of_== i j g) ∙ at_j)
        | inr g ↦ rw g at_j
      ],
    )

next_place-low : (k h : ℕ) → 1 ≤ next_place k h
next_place-low k h = ground arith

next_place-high : (k h : ℕ) → 1 ≤ k → h ≤ k → next_place k h ≤ k
next_place-high k h le lt = ground arith

abbrev Stepped : ℕ → ℕ → ℕ → ℕ → Clock → Type 0
Stepped k n m p s = (s' : Clock) × (access k n p s ≡ some s') × Good k n m s' × (s'.hit ≤ s.hit + 1)

access-hit :
    (k n m p : ℕ) (s : Clock) → Good k n (suc m) s → s.ele_set.mem p ≡ true → Stepped k n m p s
unfolding access
access-hit k n m p s g e =
    let (j, le, at_j) = g.found p e in
    let (x, made, at_x) =
      find_from-some (suc n) 0 j s.vec p (omega arith) (omega (arith, le)) at_j in
    let mark = λ (i : ℕ).
      some
        (record s { hit = s.hit + 1; vec = update s.vec i (record (s.vec i) { used = true }) }) in
    (
      record s { hit = s.hit + 1; vec = update s.vec x (record (s.vec x) { used = true }) },
      if_true _ _ e ∙ ap (λ o. o >>= mark) made,
      record {
        found = touched-Found n x s g.found;
        low = g.low;
        high = g.high;
        room = elim g.room [
          | inl r ↦ inl r
          | inr (over, left, clear) ↦ inr (
            over,
            omega (arith, left),
            λ i h.
                let apart : x ≢ i = λ same.
                  let at_i = ap (λ y. (s.vec y).page) (sym same) ∙ at_x in
                  let none_at = ap (λ (v : Slot). v.page) (clear i h) in cc in
                update-other s.vec x i _ apart ∙ clear i h,
          )
        ];
      },
      omega arith,
    )

access-sweep :
    (k n m p : ℕ) (s : Clock)
    → 1 ≤ k
    → k ≤ n
    → Good k n (suc m) s
    → s.ele_set.mem p ≡ false
    → Stepped k n m p s
unfolding access
access-sweep k n m p s h small g e =
    let (t, made, swept) = Sweeps-all k n p s small g.found g.low g.high in
    let moved = advance-next k t h swept.high in
    (
      record t { hand = next_place k t.hand },
      if_false _ _ e ∙ (ap (λ o. o >>= advance k) made ∙ moved),
      record {
        found = swept.found;
        low = next_place-low k t.hand;
        high = next_place-high k t.hand h swept.high;
        room = inl small;
      },
      omega (arith, swept.counted),
    )

access-vacant :
    (k n m p : ℕ) (s : Clock)
    → n < k
    → s.hand + suc m ≤ suc n
    → ((i : ℕ) → s.hand ≤ i → s.vec i ≡ vacant)
    → Good k n (suc m) s
    → s.ele_set.mem p ≡ false
    → Stepped k n m p s
unfolding access
access-vacant k n m p s over left clear g e =
    let inside : s.hand ≤ n = omega (arith, left) in
    let unused = ap (λ (v : Slot). v.used) (clear s.hand (omega arith)) in
    let (t, made, placed) = place-Placed n p s inside g.found in
    let swept = sweep-place k k n p s inside unused ∙ made in
    let bounded : t.hand ≤ k = omega (arith, placed.stays, g.high) in
    let moved = advance-next k t (omega (arith, over)) bounded in
    let on = next_place-inner k t.hand (λ q. omega (arith, q, placed.stays, inside, over)) in
    (
      record t { hand = next_place k t.hand },
      if_false _ _ e ∙ (ap (λ o. o >>= advance k) swept ∙ moved),
      record {
        found = placed.found;
        low = omega (arith, on);
        high = omega (arith, on, placed.stays, inside, over);
        room = inr (
          over,
          omega (arith, on, placed.stays, left),
          λ i later.
              placed.others i (λ q. omega (arith, q, on, placed.stays, later))
              ∙ clear i (omega (arith, on, placed.stays, later)),
        );
      },
      omega (arith, placed.counted),
    )

access-Stepped : (k n m p : ℕ) (s : Clock) → 1 ≤ k → Good k n (suc m) s → Stepped k n m p s
access-Stepped k n m p s h g = elim (Bool-cases (s.ele_set.mem p)) [
  | inl e ↦ access-hit k n m p s g e
  | inr e ↦ elim g.room [
    | inl small ↦ access-sweep k n m p s h small g e
    | inr (over, left, clear) ↦ access-vacant k n m p s over left clear g e
  ]
]

accesses-some :
    (k n : ℕ) (order : List ℕ) (s : Clock)
    → 1 ≤ k
    → Good k n (length order) s
    → (s' : Clock) × (accesses k n order s ≡ some s') × (s'.hit ≤ s.hit + length order)
unfolding accesses
accesses-some k n [] s h g = (s, refl, omega arith)
accesses-some k n (p ∷ order) s h g =
    let (s', made, g', le) = access-Stepped k n (length order) p s h g in
    let (s'', made', le') = accesses-some k n order s' h g' in
    (s'', ap (λ o. o >>= accesses k n order) made ∙ made', omega (arith, le, le'))

-- With at least one place _clock ends: each miss finds a place within k + 1 turns of its loop, no
-- index leaves the vector of one more place than there are accesses, and there are no more hits
-- than accesses.
pub clock-some :
    (k : ℕ) (order : List ℕ) → 1 ≤ k → (h : ℕ) × (clock k order ≡ some h) × (h ≤ length order)
unfolding clock
clock-some k order h =
    let n = length order in
    let room : (k ≤ n)
        ⊎ ((n < k) × (start.hand + n ≤ suc n) × ((i : ℕ) → start.hand ≤ i → start.vec i ≡ vacant)) =
      elim (Bool-cases (leb k n)) [
        | inl e ↦ inl (ground arith)
        | inr e ↦ inr (ground arith, omega arith, λ i le. refl)
      ] in
    let good : Good k n n start = record {
      found = λ p e. cc;
      low = omega arith;
      high = h;
      room = room;
    } in
    let (s, made, le) = accesses-some k n order start h good in
    (s.hit, ap (λ o. o >>= (λ (t : Clock). some t.hit)) made, omega (arith, le))
