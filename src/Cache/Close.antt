-- ===== src/Cache/Close.antt =====
-- cache_close brings the disk up to date.
use sustech_cs.Prelude.{
  ℕ, zero, suc, ◌+◌, ◌<◌, ◌≡◌, refl, ◌∙◌, true, false, inl, inr, some, arith, ◌==◌, if◌then◌else◌,
  Bool-cases, if_true, if_false,
}
use sustech_cs.Cache.{Cache, cache_flush, cache_close, close_from}
use sustech_cs.Cache.View.{IsValid, view, view-Shows, view_of_Shows, cache_find_lem}
use sustech_cs.Cache.Steps.{
  Kept, Kept-refl, Kept-trans, flushed, flushed-Kept, cache_flush_dirty, cache_flush_clean,
}

-- No valid entry below `n` is dirty.
abbrev CleanBelow : ℕ → Cache → Type 0
CleanBelow n c = (j : ℕ) → j < n → (c.cache j).valid ≡ true → (c.cache j).dirty ≡ false

flushed-CleanBelow : (i : ℕ) (c : Cache) → CleanBelow i c → CleanBelow (suc i) (flushed i c)
flushed-CleanBelow i c h j b e = elim (Bool-cases (i == j)) [
  | inl same ↦ ground (arith, same)
  | inr other ↦ ground (arith, other, b, e, h j)
]

-- One round of the loop of cache_close.
close_step :
    (i : ℕ) (c : Cache)
    → IsValid c
    → i < 64
    → CleanBelow i c
    → (c' : Cache) × ((if (c.cache i).valid then cache_flush i c else some c) ≡ some c')
      × Kept c c'
      × CleanBelow (suc i) c'
close_step i c v b h = elim (Bool-cases (c.cache i).valid) [
  | inr empty ↦ (c, if_false _ _ empty, Kept-refl c v, λ j l e. ground (arith, h j, l, e, empty))
  | inl full ↦ elim (Bool-cases (c.cache i).dirty) [
    | inr clean ↦ (
      c,
      if_true _ _ full ∙ cache_flush_clean i c full clean,
      Kept-refl c v,
      λ j l e. ground (arith, h j, l, e, clean),
    )
    | inl dirt ↦ (
      flushed i c,
      if_true _ _ full ∙ cache_flush_dirty i c v b full dirt,
      flushed-Kept i c v b full,
      flushed-CleanBelow i c h,
    )
  ]
]

close_from_lem :
    (i n : ℕ) (c : Cache)
    → i + n ≡ 64
    → IsValid c
    → CleanBelow i c
    → (c' : Cache) × (close_from i n c ≡ some c') × Kept c c' × CleanBelow 64 c'
unfolding close_from
close_from_lem i zero c e v h = (c, refl, Kept-refl c v, λ j b. h j (omega (arith, e, b)))
close_from_lem i (suc n) c e v h =
    let (c1, e1, k1, h1) = close_step i c v (omega (arith, e)) h in
    let (c2, e2, k2, h2) = close_from_lem (suc i) n c1 (omega (arith, e)) k1.valid h1 in
    (c2, rw e1 e2, Kept-trans c c1 c2 k1 k2, h2)

-- cache_close, from a valid state, succeeds. Behind it the state is valid, and the disk itself has
-- the contents that each sector had, as they were before and as they are read from then on.
pub cache_close_lem :
    (c : Cache)
    → IsValid c
    → (c' : Cache) × (cache_close c ≡ some c')
      × IsValid c'
      × ((s : ℕ) → (c'.fs_device.content s ≡ view c s) × (view c' s ≡ view c s))
unfolding cache_close
cache_close_lem c v =
    let (c', e, k, h) = close_from_lem 0 64 c refl v (λ j b. ground (arith, b)) in
    (
      c',
      e,
      k.valid,
      λ s.
          let kept = k.shows s _ (view-Shows c s v) in
          let same = view_of_Shows c' s _ kept in
          elim (cache_find_lem s c') [
            | inl (j, f, hold) ↦
                (k.valid.clean j s hold (h j hold.below hold.valid) ∙ kept.held j hold, same)
            | inr (f, absent) ↦ (kept.on_disk absent, same)
          ],
    )
