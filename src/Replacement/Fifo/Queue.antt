-- ===== src/Replacement/Fifo/Queue.antt =====
-- fifo of lab9/main.cpp against the strategy: the cache is a queue of different pages.
use sustech_cs.Prelude.{
  ℕ, suc, ◌+◌, ◌≤◌, ◌≡◌, ◌≢◌, refl, ap, sym, ◌∙◌, subst, inl, inr, true, false, some, List, [], ◌∷◌,
  ◌==◌, if◌then◌else◌, ◌>>=◌, length, arith, Bool-cases, List-cases, if_true, if_false, eq_of_==,
  ne_of_==, ==_of_ne, ==_refl,
}
use sustech_cs.Replacement.{push}
use sustech_cs.Replacement.Pages.{
  contains, Distinct, push-Distinct, length-push, InStep, InStep-start, InStep-push, InStep-pop,
}
use sustech_cs.Replacement.Fifo.{Fifo, put, evict, access, accesses, start, fifo}

abbrev tail : List ℕ → List ℕ
tail [] = []
tail (p ∷ l) = l

-- The queue behind a miss, and the number of hits of the accesses from a queue on.
abbrev pub shifted : ℕ → ℕ → List ℕ → List ℕ
shifted k p l = if length l == k then push (tail l) p else push l p

abbrev pub hits : ℕ → List ℕ → List ℕ → ℕ
hits k l [] = 0
hits k l (p ∷ order) =
    let found = hits k l order in
    let missed = hits k (shifted k p l) order in if contains p l then suc found else missed

record Valid (k : ℕ) (s : Fifo) : Type 0 where
  distinct : Distinct s.que
  step : InStep s.ele_set s.que
  small : length s.que ≤ k

abbrev Stepped : ℕ → ℕ → Fifo → ℕ → List ℕ → Type 0
Stepped k p s hit que =
    (s' : Fifo) × (access k p s ≡ some s') × Valid k s' × (s'.hit ≡ hit) × (s'.que ≡ que)

contains-tail : (p q : ℕ) (l : List ℕ) → contains p (q ∷ l) ≡ false → contains p l ≡ false
contains-tail p q l e = ground arith

access-room :
    (k p : ℕ) (s : Fifo)
    → Valid k s
    → contains p s.que ≡ false
    → length s.que ≢ k
    → Stepped k p s s.hit (push s.que p)
unfolding access
access-room k p s v e room = (
  put p s,
  if_false _ _ (v.step.same p ∙ e) ∙ if_false _ _ (==_of_ne (length s.que) k room),
  record {
    distinct = push-Distinct s.que p e v.distinct;
    step = InStep-push s.ele_set s.que p e v.step;
    small = omega (arith, v.small, room, length-push s.que p);
  },
  refl,
  refl,
)

access-full :
    (k p f : ℕ) (rest : List ℕ) (s : Fifo)
    → Valid k s
    → contains p s.que ≡ false
    → length s.que ≡ k
    → s.que ≡ f ∷ rest
    → Stepped k p s s.hit (push (tail s.que) p)
unfolding access
access-full k p f rest s v e full c =
    let e' : contains p (f ∷ rest) ≡ false = subst (λ m. contains p m ≡ false) c e in
    let e'' = contains-tail p f rest e' in
    let d : Distinct (f ∷ rest) = subst Distinct c v.distinct in
    let (keys, erased, step) = InStep-pop s.ele_set rest f d (subst (InStep s.ele_set) c v.step) in
    let evicted : evict s ≡ some (record s { que = rest; ele_set = keys }) = rw (c, erased) refl in
    let is_full : (length s.que == k) ≡ true = rw full (==_refl k) in
    let size = ap length c in
    (
      put p (record s { que = rest; ele_set = keys }),
      if_false _ _ (v.step.same p ∙ e)
          ∙ (if_true _ _ is_full ∙ ap (λ m. m >>= (λ u. some (put p u))) evicted),
      record {
        distinct = push-Distinct rest p e'' d.1;
        step = InStep-push keys rest p e'' step;
        small = omega (arith, full, size, length-push rest p);
      },
      refl,
      sym (ap (λ m. push (tail m) p) c),
    )

access-hit :
    (k p : ℕ) (s : Fifo) → Valid k s → contains p s.que ≡ true → Stepped k p s (s.hit + 1) s.que
unfolding access
access-hit k p s v e = (
  record s { hit = s.hit + 1 },
  if_true _ _ (v.step.same p ∙ e),
  record { distinct = v.distinct; step = v.step; small = v.small },
  refl,
  refl,
)

access-miss :
    (k p : ℕ) (s : Fifo)
    → 1 ≤ k
    → Valid k s
    → contains p s.que ≡ false
    → Stepped k p s s.hit (shifted k p s.que)
access-miss k p s h v e = elim (Bool-cases (length s.que == k)) [
  | inl f ↦
      let full = eq_of_== (length s.que) k f in
      elim (List-cases s.que) [
        | inl c ↦ absurd (let n = ap length c in omega (arith, n, full, h))
        | inr (q, rest, c) ↦
            subst (Stepped k p s s.hit) (sym (if_true _ _ f)) (access-full k p q rest s v e full c)
      ]
  | inr f ↦
      subst (Stepped k p s s.hit) (sym (if_false _ _ f))
        (access-room k p s v e (ne_of_== (length s.que) k f))
]

accesses-hits :
    (k : ℕ) (order : List ℕ) (s : Fifo)
    → 1 ≤ k
    → Valid k s
    → (s' : Fifo) × (accesses k order s ≡ some s') × (s'.hit ≡ s.hit + hits k s.que order)
unfolding accesses
accesses-hits k [] s h v = (s, refl, omega arith)
accesses-hits k (p ∷ order) s h v =
    let on = λ (u : Fifo). accesses k order u in
    elim (Bool-cases (contains p s.que)) [
      | inl e ↦
          let (t, made, v', counted, same) = access-hit k p s v e in
          let (u, made', total) = accesses-hits k order t h v' in
          let total' = total ∙ ap (λ q. t.hit + hits k q order) same in
          (u, ap (λ m. m >>= on) made ∙ made', rw e (omega (arith, total', counted)))
      | inr e ↦
          let (t, made, v', counted, same) = access-miss k p s h v e in
          let (u, made', total) = accesses-hits k order t h v' in
          let total' = total ∙ ap (λ q. t.hit + hits k q order) same in
          (u, ap (λ m. m >>= on) made ∙ made', rw e (omega (arith, total', counted)))
    ]

-- Where the cache has room for a page, fifo ends without undefined behaviour and counts just the
-- accesses whose page is in the queue, from which a miss takes the oldest page if it is full.
pub fifo-hits : (k : ℕ) (order : List ℕ) → 1 ≤ k → fifo k order ≡ some (hits k [] order)
unfolding fifo
fifo-hits k order h =
    let valid : Valid k start = record {
      distinct = tt;
      step = InStep-start;
      small = omega arith;
    } in
    let (s, made, total) = accesses-hits k order start h valid in
    let total' : s.hit ≡ hits k [] order = omega (arith, total) in
    ap (λ m. m >>= (λ (u : Fifo). some u.hit)) made ∙ ap some total'
