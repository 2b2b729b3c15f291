-- ===== src/Cache/Clock.antt =====
-- The clock of the buffer cache always comes to a stop, and a slot is found.
use sustech_cs.Prelude.{
  ℕ, zero, suc, ◌+◌, ◌%◌, ◌<◌, ◌≡◌, ap, ◌∙◌, Bool, true, false, inl, inr, some, arith,
  if◌then◌else◌, Bool-cases, ◌>>=◌, if_true, if_false,
}
use sustech_cs.Cache.{Cache, replace_loop, cache_replace_find}
use sustech_cs.Cache.View.{IsValid}
use sustech_cs.Cache.Steps.{
  Kept, Kept-refl, Kept-trans, spun, spun-Kept, dropped, dropped-Kept, dropped-empty, flushed,
  flushed-Kept, flushed-clean, cache_flush_dirty,
}

-- The clock does not pass this entry over.
abbrev stops : Cache → ℕ → Bool
stops c i = if (c.cache i).valid then (if (c.cache i).access then false else true) else true

spun-stops : (c : Cache) (i : ℕ) → stops c i ≡ true → stops (spun c) i ≡ true
spun-stops c i h = ground (arith, h)

spun-stops_here : (c : Cache) → stops (spun c) c.clock ≡ true
spun-stops_here c = ground arith

turn_lem :
    (n : ℕ) (c : Cache) → stops c c.clock ≡ false → replace_loop (suc n) c ≡ replace_loop n (spun c)
unfolding replace_loop
turn_lem n c h = elim (Bool-cases (c.cache c.clock).valid) [
  | inr empty ↦ ground (arith, h, empty)
  | inl full ↦ elim (Bool-cases (c.cache c.clock).access) [
    | inr clear ↦ ground (arith, h, full, clear)
    | inl used ↦ simp (full, used)
  ]
]

-- Fuel for one more turn than the distance of an entry that stops the clock is enough.
loop_lem :
    (n d : ℕ) (c : Cache)
    → IsValid c
    → stops c ((c.clock + d) % 64) ≡ true
    → d < n
    → (c' : Cache) × (replace_loop n c ≡ some c') × Kept c c'
unfolding replace_loop
loop_lem zero d c v h b = ground (arith, b)
loop_lem (suc n) zero c v h b =
    let stop : stops c c.clock ≡ true = ap (stops c) (omega (arith, v.clock_below)) ∙ h in
    (c, ground (arith, stop), Kept-refl c v)
loop_lem (suc n) (suc d) c v h b = elim (Bool-cases (stops c c.clock)) [
  | inl stop ↦ (c, ground (arith, stop), Kept-refl c v)
  | inr turn ↦
      let (c', e, k) =
        loop_lem n d (spun c) (spun-Kept c v).valid
          (ap (stops (spun c)) (omega (arith, v.clock_below)) ∙ spun-stops c _ h)
          (omega (arith, b)) in
      (c', turn_lem n c turn ∙ e, Kept-trans c (spun c) c' (spun-Kept c v) k)
]

-- After a first round, in which it has seen every entry, the clock stops where it started.
replace_loop_lem :
    (c : Cache) → IsValid c → (c' : Cache) × (replace_loop 65 c ≡ some c') × Kept c c'
replace_loop_lem c v = elim (Bool-cases (stops c c.clock)) [
  | inl stop ↦ loop_lem 65 0 c v (ap (stops c) (omega (arith, v.clock_below)) ∙ stop) (omega arith)
  | inr turn ↦
      let (c', e, k) =
        loop_lem 64 63 (spun c) (spun-Kept c v).valid
          (ap (stops (spun c)) (omega (arith, v.clock_below)) ∙ spun-stops_here c) (omega arith) in
      (c', turn_lem 64 c turn ∙ e, Kept-trans c (spun c) c' (spun-Kept c v) k)
]

-- From a valid state, cache_replace_find succeeds within 65 turns of the clock. It returns an empty
-- entry, leaves the state valid and the contents of every sector what they were, gives no entry a
-- sector that it did not hold, and leaves the size of the device.
pub cache_replace_find_lem :
    (c : Cache)
    → IsValid c
    → (i : ℕ) × (c' : Cache) × (cache_replace_find c ≡ some (i, c'))
      × (i < 64)
      × ((c'.cache i).valid ≡ false)
      × Kept c c'
unfolding cache_replace_find
cache_replace_find_lem c v =
    let (f, e, k) = replace_loop_lem c v in
    let i = f.clock in
    elim (Bool-cases (f.cache i).valid) [
      | inr empty ↦ (i, f, rw e (if_false _ _ empty), k.valid.clock_below, empty, k)
      | inl full ↦ elim (Bool-cases (f.cache i).dirty) [
        | inr clean ↦ (
          i,
          dropped i f,
          rw e (if_true _ _ full ∙ ap (λ m. m >>= λ x. some (i, dropped i x)) (if_false _ _ clean)),
          k.valid.clock_below,
          dropped-empty i f,
          Kept-trans c f (dropped i f) k (dropped-Kept i f k.valid clean),
        )
        | inl dirt ↦
            let written = flushed-Kept i f k.valid k.valid.clock_below full in
            (
              i,
              dropped i (flushed i f),
              rw e (
                  if_true _ _ full
                  ∙ ap (λ m. m >>= λ x. some (i, dropped i x))
                      (if_true _ _ dirt
                        ∙ cache_flush_dirty i f k.valid k.valid.clock_below full dirt)),
              k.valid.clock_below,
              dropped-empty i (flushed i f),
              Kept-trans c f (dropped i (flushed i f)) k (
                  Kept-trans f (flushed i f) (dropped i (flushed i f)) written
                    (dropped-Kept i (flushed i f) written.valid (flushed-clean i f))),
            )
      ]
    ]
