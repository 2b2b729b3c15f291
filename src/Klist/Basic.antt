-- ===== src/Klist/Basic.antt =====
-- The list routines of lib/kernel/list.c of pintos_pro3 that need no order, and the searches for
-- doubles and for the largest and the smallest element. Where an ASSERT fails the result is `none`.
use sustech_cs.Prelude.{
  ℕ, suc, Bool, ◌||◌, Option, none, some, List, [], ◌∷◌, ◌++◌, if◌then◌else◌, ◌==◌,
}

-- list_insert before the element `before`, or at the tail of the list.
unfoldable pub list_insert : Option ℕ → ℕ → List ℕ → List ℕ
list_insert before x [] = x ∷ []
list_insert before x (e ∷ l) =
    let later = e ∷ list_insert before x l in
    elim before [ none ↦ later | some b ↦ if e == b then x ∷ e ∷ l else later ]

unfoldable pub list_push_front : List ℕ → ℕ → List ℕ
list_push_front [] x = list_insert none x []
list_push_front (e ∷ l) x = list_insert (some e) x (e ∷ l)

unfoldable pub list_push_back : List ℕ → ℕ → List ℕ
list_push_back l x = list_insert none x l

unfoldable pub list_front : List ℕ → Option ℕ
list_front [] = none
list_front (e ∷ l) = some e

unfoldable pub list_back : List ℕ → Option ℕ
list_back [] = none
list_back (e ∷ []) = some e
list_back (e ∷ f ∷ l) = list_back (f ∷ l)

unfoldable pub list_pop_front : List ℕ → Option (ℕ × List ℕ)
list_pop_front [] = none
list_pop_front (e ∷ l) = some (e, l)

unfoldable pub list_pop_back : List ℕ → Option (ℕ × List ℕ)
list_pop_back [] = none
list_pop_back (e ∷ []) = some (e, [])
list_pop_back (e ∷ f ∷ l) = elim (list_pop_back (f ∷ l)) [
  | none ↦ none
  | some r ↦ some (r.0, e ∷ r.1)
]

-- The loop of list_size.
unfoldable pub size_from : ℕ → List ℕ → ℕ
size_from cnt [] = cnt
size_from cnt (e ∷ l) = size_from (suc cnt) l

unfoldable pub list_size : List ℕ → ℕ
list_size l = size_from 0 l

-- The loop of list_reverse: `done` stands turned round behind what is to come.
unfoldable pub reverse_onto : List ℕ → List ℕ → List ℕ
reverse_onto done [] = done
reverse_onto done (e ∷ l) = reverse_onto (e ∷ done) l

unfoldable pub list_reverse : List ℕ → List ℕ
list_reverse l = reverse_onto [] l

-- The loop of list_unique at `elem`, with `l` behind it: what is left of the list from `elem` on,
-- and the list of duplicates.
unfoldable pub unique_from : (ℕ → ℕ → Bool) → ℕ → List ℕ → List ℕ → List ℕ × List ℕ
unique_from less elem [] duplicates = (elem ∷ [], duplicates)
unique_from less elem (next ∷ l) duplicates =
    let dropped = unique_from less elem l (list_push_back duplicates next) in
    let (kept, doubles) = unique_from less next l duplicates in
    if less elem next || less next elem then (elem ∷ kept, doubles) else dropped

unfoldable pub list_unique : (ℕ → ℕ → Bool) → List ℕ → List ℕ → List ℕ × List ℕ
list_unique less [] duplicates = ([], duplicates)
list_unique less (x ∷ l) duplicates = unique_from less x l duplicates

-- The loops of list_max and list_min.
unfoldable pub max_from : (ℕ → ℕ → Bool) → ℕ → List ℕ → ℕ
max_from less max [] = max
max_from less max (e ∷ l) = max_from less (if less max e then e else max) l

-- The tail of an empty list is `none`.
unfoldable pub list_max : (ℕ → ℕ → Bool) → List ℕ → Option ℕ
list_max less [] = none
list_max less (x ∷ l) = some (max_from less x l)

unfoldable pub min_from : (ℕ → ℕ → Bool) → ℕ → List ℕ → ℕ
min_from less min [] = min
min_from less min (e ∷ l) = min_from less (if less e min then e else min) l

unfoldable pub list_min : (ℕ → ℕ → Bool) → List ℕ → Option ℕ
list_min less [] = none
list_min less (x ∷ l) = some (min_from less x l)

-- list_splice: the elements of `moved`, a range that has been cut out of its list, are put before
-- the element `before`, or at the tail.
unfoldable pub list_splice : Option ℕ → List ℕ → List ℕ → List ℕ
list_splice before moved [] = moved
list_splice before moved (e ∷ l) =
    let later = e ∷ list_splice before moved l in
    elim before [ none ↦ later | some b ↦ if e == b then moved ++ e ∷ l else later ]
