-- ===== src/Cache/Ops.antt =====
-- The buffer cache is transparent: reading, writing and closing it have the effects on the contents
-- of the sectors that they would have on the device itself.
use sustech_cs.Prelude.{
  ℕ, ◌≤◌, ◌<◌, ◌≡◌, refl, ap, ◌∙◌, true, false, inl, inr, some, none, arith, ◌==◌, if◌then◌else◌,
  if_false, ltb,
}
use sustech_cs.Block.{Buffer, block_read}
use sustech_cs.Cache.{Cache, cache_init, cache_entry, cache_read, cache_write}
use sustech_cs.Cache.View.{Holds, IsValid, view, view-Shows, view_of_Shows, cache_find_lem}
use sustech_cs.Cache.Clock.{cache_replace_find_lem}
use sustech_cs.Cache.Entry.{
  Same, loaded, loaded-Same, touched, touched-Same, written, written-IsValid, written-Shows,
}

cache_entry_lem :
    (s : ℕ) (c : Cache)
    → IsValid c
    → s < c.fs_device.size
    → (i : ℕ) × (c' : Cache) × (cache_entry s c ≡ some (i, c'))
      × Holds c' i s
      × Same c c'
      × (c'.fs_device.size ≡ c.fs_device.size)
unfolding cache_entry block_read
cache_entry_lem s c v inside = elim (cache_find_lem s c) [
  | inl (i, e, hold) ↦
      (i, c, rw (cache_entry, e) refl, hold, record { valid = v; shows = λ t b w. w }, refl)
  | inr (e, absent) ↦
      let (i, f, found, below, empty, k) = cache_replace_find_lem c v in
      let fits : ltb s f.fs_device.size ≡ true = ground (arith, inside, k.size) in
      let l =
        loaded-Same i s f k.valid below empty (λ j h. absent j (k.fewer j s h))
          (omega (arith, inside, k.size)) in
      (
        i,
        loaded i s f,
        rw (cache_entry, e, found) (if_false _ _ empty ∙ simp fits),
        record { below = below; valid = ground arith; sector = ground arith },
        record { valid = l.valid; shows = λ t b w. l.shows t b (k.shows t b w) },
        k.size,
      )
]

cache_entry-past : (s : ℕ) (c : Cache) → IsValid c → c.fs_device.size ≤ s → cache_entry s c ≡ none
unfolding cache_entry block_read
cache_entry-past s c v outside = elim (cache_find_lem s c) [
  | inl (i, e, hold) ↦ ground (arith, outside, v.exists i s hold)
  | inr (e, absent) ↦
      let (i, f, found, below, empty, k) = cache_replace_find_lem c v in
      let past : ltb s f.fs_device.size ≡ false = ground (arith, outside, k.size) in
      rw (cache_entry, e, found) (if_false _ _ empty ∙ simp past)
]

-- cache_read of a sector of the device, from a valid state, succeeds, returns the contents of the
-- sector, and leaves the state valid, and the contents of every sector and the size of the device
-- what they were.
pub cache_read_lem :
    (s : ℕ) (c : Cache)
    → IsValid c
    → s < c.fs_device.size
    → (c' : Cache) × (cache_read s c ≡ some (view c s, c'))
      × IsValid c'
      × ((t : ℕ) → view c' t ≡ view c t)
      × (c'.fs_device.size ≡ c.fs_device.size)
unfolding cache_read
cache_read_lem s c v inside =
    let (i, f, e, hold, same, size) = cache_entry_lem s c v inside in
    let read = touched-Same i f same.valid in
    (
      touched i f,
      rw e (ap (λ b. some (b, touched i f)) ((same.shows s _ (view-Shows c s v)).held i hold)),
      read.valid,
      λ t. view_of_Shows _ t _ (read.shows t _ (same.shows t _ (view-Shows c t v))),
      size,
    )

-- cache_write to a sector of the device, from a valid state, succeeds, and leaves a valid state in
-- which that sector has the contents that were written and every other one what it had; the size of
-- the device stays.
pub cache_write_lem :
    (s : ℕ) (source : Buffer) (c : Cache)
    → IsValid c
    → s < c.fs_device.size
    → (c' : Cache) × (cache_write s source c ≡ some c')
      × IsValid c'
      × ((t : ℕ) → view c' t ≡ (if s == t then source else view c t))
      × (c'.fs_device.size ≡ c.fs_device.size)
unfolding cache_write
cache_write_lem s source c v inside =
    let (i, f, e, hold, same, size) = cache_entry_lem s c v inside in
    (
      written i source f,
      rw e refl,
      written-IsValid i source f same.valid,
      λ t.
          view_of_Shows _ t _
            (written-Shows i s t source _ f same.valid hold (same.shows t _ (view-Shows c t v))),
      size,
    )

-- From a valid state, cache_read of a sector behind the end of the device panics, and so does
-- cache_write.
pub cache_past_end :
    (s : ℕ) (source : Buffer) (c : Cache)
    → IsValid c
    → c.fs_device.size ≤ s
    → (cache_read s c ≡ none) × (cache_write s source c ≡ none)
unfolding cache_read cache_write
cache_past_end s source c v outside =
    let e = cache_entry-past s c v outside in (rw e refl, rw e refl)

-- After cache_init, with a clock below 64 and a device that may be written, the state is valid and
-- what is seen of every sector is what is on the disk.
cache_init_lem :
    (c : Cache)
    → c.clock < 64
    → c.fs_device.is_foreign ≡ false
    → IsValid (cache_init c) × ((s : ℕ) → view (cache_init c) s ≡ c.fs_device.content s)
unfolding cache_init
cache_init_lem c b w =
    let nothing : (i s : ℕ) → Holds (cache_init c) i s → ⊥ =
      λ i s h. ground (arith, h.below, h.valid) in
    (
      record {
        clock_below = b;
        unique = λ i j s h g. absurd (nothing i s h);
        clean = λ i s h d. absurd (nothing i s h);
        exists = λ i s h. absurd (nothing i s h);
        writable = w;
      },
      λ s.
          view_of_Shows (cache_init c) s _
            (record { held = λ i h. absurd (nothing i s h); on_disk = λ n. refl }),
    )
