-- ===== src/Cache/View.antt =====
-- What the file system sees of the cache and the disk behind it: the contents of each sector.
use sustech_cs.Prelude.{
  ℕ, zero, suc, ◌+◌, ◌≤◌, ◌<◌, ◌≡◌, refl, true, false, ◌⊎◌, inl, inr, none, some, arith, ◌==◌, ◌&&◌,
  Bool-cases,
}
use sustech_cs.Block.{Buffer}
use sustech_cs.Cache.{Cache, find_from, cache_find}

-- The contents of a sector: the buffer of its entry if it has one, else what is on the disk.
abbrev pub view : Cache → ℕ → Buffer
view c s = elim (cache_find s c) [ some i ↦ (c.cache i).buffer | none ↦ c.fs_device.content s ]

-- Entry `i` holds sector `s`.
pub record Holds (c : Cache) (i s : ℕ) : Type 0 where
  pub below : i < 64
  pub valid : (c.cache i).valid ≡ true
  pub sector : (c.cache i).disk_sector ≡ s

-- No sector has two entries, an entry that is not dirty is as the disk, and the sectors of the
-- entries exist on a device that may be written.
pub record IsValid (c : Cache) : Type 0 where
  pub clock_below : c.clock < 64
  pub unique : (i j s : ℕ) → Holds c i s → Holds c j s → i ≡ j
  pub clean :
      (i s : ℕ)
      → Holds c i s
      → (c.cache i).dirty ≡ false
      → c.fs_device.content s ≡ (c.cache i).buffer
  pub exists : (i s : ℕ) → Holds c i s → s < c.fs_device.size
  pub writable : c.fs_device.is_foreign ≡ false

-- The contents of sector `s` are `b`, wherever they are.
pub record Shows (c : Cache) (s : ℕ) (b : Buffer) : Type 0 where
  pub held : (i : ℕ) → Holds c i s → (c.cache i).buffer ≡ b
  pub on_disk : ((i : ℕ) → Holds c i s → ⊥) → c.fs_device.content s ≡ b

find_from_lem :
    (s i n : ℕ) (c : Cache)
    → i + n ≡ 64
    → ((j : ℕ) × (find_from s i n c ≡ some j) × Holds c j s)
      ⊎ ((find_from s i n c ≡ none) × ((j : ℕ) → i ≤ j → Holds c j s → ⊥))
unfolding find_from
find_from_lem s i zero c e = inr (refl, λ j h hold. ground (arith, hold.below, e, h))
find_from_lem s i (suc n) c e =
    elim (Bool-cases ((c.cache i).valid && (c.cache i).disk_sector == s)) [
      | inl hit ↦ inl (
        i,
        rw hit refl,
        record {
          below = omega (arith, e);
          valid = ground (arith, hit);
          sector = ground (arith, hit);
        },
      )
      | inr miss ↦ elim (find_from_lem s (suc i) n c (omega (arith, e))) [
        | inl (j, eq, hold) ↦ inl (j, rw miss eq, hold)
        | inr (eq, absent) ↦ inr (
          rw miss eq,
          λ j h hold. elim (Bool-cases (j == i)) [
            | inl same ↦ ground (arith, miss, hold.valid, hold.sector, same)
            | inr other ↦ absent j (ground (arith, other, h)) hold
          ],
        )
      ]
    ]

-- cache_find returns an entry of the sector if there is one.
pub cache_find_lem :
    (s : ℕ) (c : Cache)
    → ((j : ℕ) × (cache_find s c ≡ some j) × Holds c j s)
      ⊎ ((cache_find s c ≡ none) × ((j : ℕ) → Holds c j s → ⊥))
unfolding cache_find
cache_find_lem s c = elim (find_from_lem s 0 64 c refl) [
  | inl found ↦ inl found
  | inr (eq, absent) ↦ inr (eq, λ j hold. absent j (omega arith) hold)
]

pub view-Shows : (c : Cache) (s : ℕ) → IsValid c → Shows c s (view c s)
view-Shows c s v = elim (cache_find_lem s c) [
  | inl (j, eq, hold) ↦ record {
    held = λ i h. rw (view, eq, v.unique i j s h hold) refl;
    on_disk = λ absent. elim (absent j hold) [ ];
  }
  | inr (eq, absent) ↦ record {
    held = λ i h. elim (absent i h) [ ];
    on_disk = λ n. rw (view, eq) refl;
  }
]

pub view_of_Shows : (c : Cache) (s : ℕ) (b : Buffer) → Shows c s b → view c s ≡ b
view_of_Shows c s b w = elim (cache_find_lem s c) [
  | inl (j, eq, hold) ↦ rw (view, eq) (w.held j hold)
  | inr (eq, absent) ↦ rw (view, eq) (w.on_disk absent)
]
