-- ===== src/Cache/Steps.antt =====
-- What the small steps of the cache keep: passing an entry over, flushing it and dropping it.
use sustech_cs.Prelude.{
  ℕ, ◌+◌, ◌%◌, ◌<◌, ◌≡◌, ◌≢◌, refl, sym, ◌∙◌, true, false, inl, inr, some, arith, ◌==◌, Bool-cases,
  eq_of_==, if_true, if_false, ap, subst, ◌&&◌, ◌⊎◌, update, ltb,
}
use sustech_cs.Block.{Buffer, block_write}
use sustech_cs.Cache.{Cache, set_entry, cache_flush}
use sustech_cs.Cache.View.{Holds, IsValid, Shows}

-- A step that changes no sector's contents, and no entry but by emptying it.
pub record Kept (c c' : Cache) : Type 0 where
  pub valid : IsValid c'
  pub shows : (s : ℕ) (b : Buffer) → Shows c s b → Shows c' s b
  pub fewer : (i s : ℕ) → Holds c' i s → Holds c i s
  pub size : c'.fs_device.size ≡ c.fs_device.size

pub Kept-refl : (c : Cache) → IsValid c → Kept c c
Kept-refl c v = record { valid = v; shows = λ s b w. w; fewer = λ i s h. h; size = refl }

pub Kept-trans : (a b c : Cache) → Kept a b → Kept b c → Kept a c
Kept-trans a b c p q = record {
  valid = q.valid;
  shows = λ s x w. q.shows s x (p.shows s x w);
  fewer = λ i s h. p.fewer i s (q.fewer i s h);
  size = q.size ∙ p.size;
}

-- One turn of the clock.
abbrev pub spun : Cache → Cache
spun c = record (set_entry c.clock (record (c.cache c.clock) { access = false }) c) {
  clock = (c.clock + 1) % 64;
}

pub spun-Holds : (c : Cache) (i s : ℕ) → Holds (spun c) i s → Holds c i s
spun-Holds c i s h = record {
  below = h.below;
  valid = ground (arith, h.valid);
  sector = ground (arith, h.sector);
}

pub Holds-spun : (c : Cache) (i s : ℕ) → Holds c i s → Holds (spun c) i s
Holds-spun c i s h = record {
  below = h.below;
  valid = ground (arith, h.valid);
  sector = ground (arith, h.sector);
}

spun-buffer : (c : Cache) (i : ℕ) → ((spun c).cache i).buffer ≡ (c.cache i).buffer
spun-buffer c i = ground arith

spun-dirty : (c : Cache) (i : ℕ) → ((spun c).cache i).dirty ≡ (c.cache i).dirty
spun-dirty c i = ground arith

pub spun-Kept : (c : Cache) → IsValid c → Kept c (spun c)
spun-Kept c v = record {
  valid = record {
    clock_below = omega arith;
    unique = λ i j s h g. v.unique i j s (spun-Holds c i s h) (spun-Holds c j s g);
    clean = λ i s h d.
        v.clean i s (spun-Holds c i s h) (sym (spun-dirty c i) ∙ d) ∙ sym (spun-buffer c i);
    exists = λ i s h. v.exists i s (spun-Holds c i s h);
    writable = v.writable;
  };
  shows = λ s b w. record {
    held = λ i h. spun-buffer c i ∙ w.held i (spun-Holds c i s h);
    on_disk = λ n. w.on_disk (λ i h. n i (Holds-spun c i s h));
  };
  fewer = spun-Holds c;
  size = refl;
}

pub Holds-cases : (k s : ℕ) (c : Cache) → Holds c k s ⊎ (Holds c k s → ⊥)
Holds-cases k s c =
    elim (Bool-cases (ltb k 64 && (c.cache k).valid && (c.cache k).disk_sector == s)) [
      | inl hit ↦ inl (record {
        below = ground (arith, hit);
        valid = ground (arith, hit);
        sector = ground (arith, hit);
      })
      | inr miss ↦ inr (λ h. ground (arith, miss, h.below, h.valid, h.sector))
    ]

-- A clean entry is dropped.
abbrev pub dropped : ℕ → Cache → Cache
dropped i c = set_entry i (record (c.cache i) { valid = false }) c

dropped-Holds : (k i s : ℕ) (c : Cache) → Holds (dropped k c) i s → Holds c i s × (i ≢ k)
dropped-Holds k i s c h = (
  record { below = h.below; valid = ground (arith, h.valid); sector = ground (arith, h.sector) },
  λ e. ground (arith, h.valid, e),
)

Holds-dropped : (k i s : ℕ) (c : Cache) → Holds c i s → i ≢ k → Holds (dropped k c) i s
Holds-dropped k i s c h n = record {
  below = h.below;
  valid = ground (arith, h.valid);
  sector = ground (arith, h.sector);
}

pub dropped-empty : (i : ℕ) (c : Cache) → ((dropped i c).cache i).valid ≡ false
dropped-empty i c = ground arith

dropped-same : (k i : ℕ) (c : Cache) → i ≢ k → (dropped k c).cache i ≡ c.cache i
dropped-same k i c n = ground arith

pub dropped-Kept :
    (k : ℕ) (c : Cache) → IsValid c → (c.cache k).dirty ≡ false → Kept c (dropped k c)
dropped-Kept k c v d = record {
  valid = record {
    clock_below = v.clock_below;
    unique =
        λ i j s h g. v.unique i j s ((dropped-Holds k i s c h).0) ((dropped-Holds k j s c g).0);
    clean = λ i s h e.
        let (g, n) = dropped-Holds k i s c h in
        let same = dropped-same k i c n in
        v.clean i s g (sym (ap (λ x. x.dirty) same) ∙ e) ∙ sym (ap (λ x. x.buffer) same);
    exists = λ i s h. v.exists i s ((dropped-Holds k i s c h).0);
    writable = v.writable;
  };
  shows = λ s b w. record {
    held = λ i h.
        let (g, n) = dropped-Holds k i s c h in
        ap (λ x. x.buffer) (dropped-same k i c n) ∙ w.held i g;
    on_disk = λ n. elim (Holds-cases k s c) [
      | inl hold ↦ v.clean k s hold d ∙ w.held k hold
      | inr other ↦
          w.on_disk
            (λ i h. n i (Holds-dropped k i s c h (λ e. other (subst (λ x. Holds c x s) e h))))
    ];
  };
  fewer = λ i s h. (dropped-Holds k i s c h).0;
  size = refl;
}

-- An entry is written to the disk.
abbrev pub flushed : ℕ → Cache → Cache
flushed i c =
    set_entry i (record (c.cache i) { dirty = false })
      (record c {
        fs_device = record c.fs_device {
          content = update c.fs_device.content (c.cache i).disk_sector (c.cache i).buffer;
          write_cnt = c.fs_device.write_cnt + 1;
        };
      })

pub cache_flush_dirty :
    (i : ℕ) (c : Cache)
    → IsValid c
    → i < 64
    → (c.cache i).valid ≡ true
    → (c.cache i).dirty ≡ true
    → cache_flush i c ≡ some (flushed i c)
unfolding cache_flush block_write
cache_flush_dirty i c v b e d =
    let inside =
      v.exists i (c.cache i).disk_sector (record { below = b; valid = e; sector = refl }) in
    let fits : ltb (c.cache i).disk_sector c.fs_device.size ≡ true = ground (arith, inside) in
    simp (e, d, fits, v.writable)

pub cache_flush_clean :
    (i : ℕ) (c : Cache)
    → (c.cache i).valid ≡ true
    → (c.cache i).dirty ≡ false
    → cache_flush i c ≡ some c
unfolding cache_flush
cache_flush_clean i c e d = simp (e, d)

flushed-Holds : (k i s : ℕ) (c : Cache) → Holds (flushed k c) i s → Holds c i s
flushed-Holds k i s c h = record {
  below = h.below;
  valid = ground (arith, h.valid);
  sector = ground (arith, h.sector);
}

flushed-buffer : (k i : ℕ) (c : Cache) → ((flushed k c).cache i).buffer ≡ (c.cache i).buffer
flushed-buffer k i c = ground arith

pub flushed-valid : (k i : ℕ) (c : Cache) → ((flushed k c).cache i).valid ≡ (c.cache i).valid
flushed-valid k i c = ground arith

pub flushed-clean : (k : ℕ) (c : Cache) → ((flushed k c).cache k).dirty ≡ false
flushed-clean k c = ground arith

Holds-flushed : (k i s : ℕ) (c : Cache) → Holds c i s → Holds (flushed k c) i s
Holds-flushed k i s c h = record {
  below = h.below;
  valid = ground (arith, h.valid);
  sector = ground (arith, h.sector);
}

pub flushed-Kept :
    (k : ℕ) (c : Cache) → IsValid c → k < 64 → (c.cache k).valid ≡ true → Kept c (flushed k c)
flushed-Kept k c v b e = record {
  valid = record {
    clock_below = v.clock_below;
    unique = λ i j s h g. v.unique i j s (flushed-Holds k i s c h) (flushed-Holds k j s c g);
    clean = λ i s h d. elim (Bool-cases ((c.cache k).disk_sector == s)) [
      | inl same ↦
          let hold : Holds c k s = record { below = b; valid = e; sector = eq_of_== _ _ same } in
          if_true _ _ same
          ∙ ap (λ x. (c.cache x).buffer) (v.unique k i s hold (flushed-Holds k i s c h))
          ∙ sym (flushed-buffer k i c)
      | inr other ↦
          if_false _ _ other
          ∙ v.clean i s (flushed-Holds k i s c h) (ground (arith, other, d, h.sector))
          ∙ sym (flushed-buffer k i c)
    ];
    exists = λ i s h. v.exists i s (flushed-Holds k i s c h);
    writable = v.writable;
  };
  shows = λ s x w. record {
    held = λ i h. flushed-buffer k i c ∙ w.held i (flushed-Holds k i s c h);
    on_disk = λ n. elim (Bool-cases ((c.cache k).disk_sector == s)) [
      | inl same ↦
          elim (n k (
            Holds-flushed k k s c
              (record { below = b; valid = e; sector = eq_of_== _ _ same }))) [ ]
      | inr other ↦ if_false _ _ other ∙ w.on_disk (λ i h. n i (Holds-flushed k i s c h))
    ];
  };
  fewer = λ i s h. flushed-Holds k i s c h;
  size = refl;
}
