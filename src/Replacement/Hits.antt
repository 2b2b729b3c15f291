-- ===== src/Replacement/Hits.antt =====
-- lru of lab9/main.cpp against the definition of the strategy: the cache holds the pages that were
-- used last.
use sustech_cs.Prelude.{
  ℕ, zero, suc, ◌+◌, ◌-◌, ◌≤◌, ◌≡◌, refl, ap, sym, ◌∙◌, subst, ◌⊎◌, inl, inr, true, false, some,
  List, [], ◌∷◌, ◌++◌, ◌==◌, if◌then◌else◌, ◌>>=◌, length, length-append, arith, Bool-cases,
  List-cases, if_true, if_false, eq_of_==, ne_of_==, ==_of_ne, ==_refl, ◌≢◌,
}
use sustech_cs.Replacement.{push, remove}
use sustech_cs.Replacement.Pages.{
  contains, Distinct, push-Distinct, contains-remove, remove-Distinct, length-push, length-remove,
  InStep, InStep-start, InStep-push, InStep-pop, InStep-touch, Distinct-split, Distinct-behind,
  push-append, push-append-cons, remove-append_behind, remove-append_before, remove-absent,
}
use sustech_cs.Replacement.Lru.{Lru, put, evict, access, accesses, start, lru}

-- All pages used so far, each once, by their last use; the latest is at the end.
abbrev pub touch : ℕ → List ℕ → List ℕ
touch p l = push (remove p l) p

abbrev pub drop : ℕ → List ℕ → List ℕ
drop zero l = l
drop (suc n) [] = []
drop (suc n) (p ∷ l) = drop n l

abbrev pub newest : ℕ → List ℕ → List ℕ
newest k l = drop (length l - k) l

-- How many of the accesses find their page among the `k` that were used last.
abbrev pub hits : ℕ → List ℕ → List ℕ → ℕ
hits k l [] = 0
hits k l (p ∷ order) =
    let rest = hits k (touch p l) order in if contains p (newest k l) then suc rest else rest

drop-append : (a b : List ℕ) → drop (length a) (a ++ b) ≡ b
drop-append [] b = refl
drop-append (p ∷ a) b = drop-append a b

-- The list of the cache behind the accesses whose pages are in `l`.
record Tracks (k : ℕ) (l : List ℕ) (s : Lru) : Type 0 where
  old : List ℕ
  split : l ≡ old ++ s.ls
  full : (old ≡ []) ⊎ (length s.ls ≡ k)
  small : length s.ls ≤ k
  distinct : Distinct l
  step : InStep s.pos_map s.ls

newest-ls : (k : ℕ) (l : List ℕ) (s : Lru) → Tracks k l s → newest k l ≡ s.ls
newest-ls k l s t = elim t.full [
  | inl e ↦
      let same : l ≡ s.ls = t.split ∙ ap (λ o. o ++ s.ls) e in
      let n = ap length same in
      let z : length l - k ≡ 0 = omega (arith, n, t.small) in ap (λ m. drop m l) z ∙ same
  | inr e ↦
      let n = ap length t.split in
      let z : length l - k ≡ length t.old = omega (arith, n, e, length-append t.old s.ls) in
      ap (λ m. drop m l) z ∙ (ap (drop (length t.old)) t.split ∙ drop-append t.old s.ls)
]

touch-Distinct : (p : ℕ) (l : List ℕ) → Distinct l → Distinct (touch p l)
touch-Distinct p l d =
    push-Distinct (remove p l) p (ground (arith, contains-remove p p l d)) (remove-Distinct p l d)

-- An access: `hit` counts it exactly if the page is among those that the cache keeps.
record Accessed (k p : ℕ) (l : List ℕ) (s s' : Lru) : Type 0 where
  counted : s'.hit ≡ (if contains p (newest k l) then suc s.hit else s.hit)
  tracks : Tracks k (touch p l) s'

abbrev Stepped : ℕ → ℕ → List ℕ → Lru → Type 0
Stepped k p l s = (s' : Lru) × (access k p s ≡ some s') × Accessed k p l s s'

access-hit :
    (k p : ℕ) (l : List ℕ) (s : Lru) → Tracks k l s → contains p s.ls ≡ true → Stepped k p l s
unfolding access
access-hit k p l s t e =
    let there_is = t.step.same p ∙ e in
    let d : Distinct (t.old ++ s.ls) = subst Distinct t.split t.distinct in
    let kept = Distinct-behind t.old s.ls d in
    let s' = put p (record s { hit = s.hit + 1; ls = remove p s.ls }) in
    let size = length-remove p s.ls e in
    let size' = length-push (remove p s.ls) p in
    (
      s',
      if_true _ _ there_is,
      record {
        counted = rw (newest-ls k l s t, e) (omega arith);
        tracks = record {
          old = t.old;
          split =
              ap (λ m. push (remove p m) p) t.split
              ∙ (ap (λ m. push m p)
                    (remove-append_behind t.old s.ls p (Distinct-split t.old s.ls p d e))
                  ∙ push-append t.old (remove p s.ls) p);
          full = elim t.full [ inl e ↦ inl e | inr e ↦ inr (omega (arith, e, size, size')) ];
          small = omega (arith, t.small, size, size');
          distinct = touch-Distinct p l t.distinct;
          step = InStep-touch s.pos_map s.ls p kept e t.step;
        };
      },
    )

access-room :
    (k p : ℕ) (l : List ℕ) (s : Lru)
    → Tracks k l s
    → contains p s.ls ≡ false
    → length s.ls ≢ k
    → Stepped k p l s
unfolding access
access-room k p l s t e room =
    let not_there = t.step.same p ∙ e in
    let not_full : (s.pos_map.size == k) ≡ false =
      ==_of_ne s.pos_map.size k (λ h. room (sym t.step.measured ∙ h)) in
    let all_kept : t.old ≡ [] = elim t.full [ inl e ↦ e | inr f ↦ absurd (room f) ] in
    let same : l ≡ s.ls = t.split ∙ ap (λ o. o ++ s.ls) all_kept in
    (
      put p s,
      if_false _ _ not_there ∙ if_false _ _ not_full,
      record {
        counted = rw (newest-ls k l s t, e) refl;
        tracks = record {
          old = [];
          split = ap (λ m. push (remove p m) p) same ∙ ap (λ m. push m p) (remove-absent p s.ls e);
          full = inl refl;
          small = omega (arith, t.small, length-push s.ls p, room);
          distinct = touch-Distinct p l t.distinct;
          step = InStep-push s.pos_map s.ls p e t.step;
        };
      },
    )

access-full :
    (k p f : ℕ) (l rest : List ℕ) (s : Lru)
    → Tracks k l s
    → contains p s.ls ≡ false
    → length s.ls ≡ k
    → s.ls ≡ f ∷ rest
    → Stepped k p l s
unfolding access
access-full k p f l rest s t e full c =
    let not_there = t.step.same p ∙ e in
    let is_full : (s.pos_map.size == k) ≡ true = rw (t.step.measured ∙ full) (==_refl k) in
    let e' : contains p (f ∷ rest) ≡ false = subst (λ m. contains p m ≡ false) c e in
    let e'' : contains p rest ≡ false = ground (arith, e') in
    let d = Distinct-behind t.old s.ls (subst Distinct t.split t.distinct) in
    let d' : Distinct (f ∷ rest) = subst Distinct c d in
    let (keys, erased, step) = InStep-pop s.pos_map rest f d' (subst (InStep s.pos_map) c t.step) in
    let evicted : evict s ≡ some (record s { ls = rest; pos_map = keys }) = rw (c, erased) refl in
    let size = ap length c in
    (
      put p (record s { ls = rest; pos_map = keys }),
      if_false _ _ not_there
          ∙ (if_true _ _ is_full ∙ ap (λ m. m >>= (λ u. some (put p u))) evicted),
      record {
        counted = rw (newest-ls k l s t, e) refl;
        tracks = record {
          old = push (remove p t.old) f;
          split =
              ap (λ m. push (remove p m) p) t.split
              ∙ (ap (λ m. push m p) (remove-append_before t.old s.ls p (remove-absent p s.ls e))
                  ∙ (push-append (remove p t.old) s.ls p
                      ∙ (ap (λ m. remove p t.old ++ push m p) c
                          ∙ sym (push-append-cons (remove p t.old) (push rest p) f))));
          full = inr (omega (arith, full, size, length-push rest p));
          small = omega (arith, full, size, length-push rest p);
          distinct = touch-Distinct p l t.distinct;
          step = InStep-push keys rest p e'' step;
        };
      },
    )

access-Stepped : (k p : ℕ) (l : List ℕ) (s : Lru) → 1 ≤ k → Tracks k l s → Stepped k p l s
access-Stepped k p l s h t = elim (Bool-cases (contains p s.ls)) [
  | inl e ↦ access-hit k p l s t e
  | inr e ↦ elim (Bool-cases (length s.ls == k)) [
    | inl f ↦
        let full = eq_of_== (length s.ls) k f in
        elim (List-cases s.ls) [
          | inl c ↦ absurd (let n = ap length c in omega (arith, n, full, h))
          | inr (q, rest, c) ↦ access-full k p q l rest s t e full c
        ]
    | inr f ↦ access-room k p l s t e (ne_of_== (length s.ls) k f)
  ]
]

accesses-hits :
    (k : ℕ) (order l : List ℕ) (s : Lru)
    → 1 ≤ k
    → Tracks k l s
    → (s' : Lru) × (accesses k order s ≡ some s') × (s'.hit ≡ s.hit + hits k l order)
unfolding accesses
accesses-hits k [] l s h t = (s, refl, omega arith)
accesses-hits k (p ∷ order) l s h t =
    let (s', e, a) = access-Stepped k p l s h t in
    let (s'', e', n) = accesses-hits k order (touch p l) s' h a.tracks in
    (s'', ap (λ m. m >>= accesses k order) e ∙ e', ground (arith, n, a.counted))

-- Where the cache has room for a page, lru ends without undefined behaviour and counts just the
-- accesses whose page is among the `k` different pages that were used last.
pub lru-hits : (k : ℕ) (order : List ℕ) → 1 ≤ k → lru k order ≡ some (hits k [] order)
unfolding lru
lru-hits k order h =
    let none_yet : Tracks k [] start = record {
      old = [];
      split = refl;
      full = inl refl;
      small = omega arith;
      distinct = tt;
      step = InStep-start;
    } in
    let (s, e, n) = accesses-hits k order [] start h none_yet in
    let n' : s.hit ≡ hits k [] order = omega (arith, n) in
    ap (λ m. m >>= (λ (u : Lru). some u.hit)) e ∙ ap some n'
