-- ===== src/Cache/Entry.antt =====
-- What taking a sector into an empty entry, and using the entry, do to the contents of the sectors.
use sustech_cs.Prelude.{
  ℕ, ◌+◌, ◌<◌, ◌≡◌, ◌≢◌, sym, ap, ◌∙◌, true, false, inl, inr, arith, ◌==◌, if◌then◌else◌,
  Bool-cases, if_false, ◌⊎◌, eq_of_==, subst,
}
use sustech_cs.Block.{Buffer}
use sustech_cs.Cache.{Cache, set_entry}
use sustech_cs.Cache.View.{Holds, IsValid, Shows}

-- The empty entry `i` takes sector `s` from the disk.
abbrev pub loaded : ℕ → ℕ → Cache → Cache
loaded i s c =
    set_entry i
      (record (c.cache i) {
        valid = true;
        disk_sector = s;
        dirty = false;
        buffer = c.fs_device.content s;
      })
      (record c { fs_device = record c.fs_device { read_cnt = c.fs_device.read_cnt + 1 } })

-- What a step leaves of the contents: all of them.
pub record Same (c c' : Cache) : Type 0 where
  pub valid : IsValid c'
  pub shows : (s : ℕ) (b : Buffer) → Shows c s b → Shows c' s b

loaded-Holds :
    (k s i t : ℕ) (c : Cache)
    → Holds (loaded k s c) i t
    → ((i ≡ k) × (t ≡ s)) ⊎ (Holds c i t × (i ≢ k))
loaded-Holds k s i t c h = elim (Bool-cases (k == i)) [
  | inl same ↦ inl (ground (arith, same), ground (arith, same, h.sector))
  | inr other ↦ inr (
    record {
      below = h.below;
      valid = ground (arith, other, h.valid);
      sector = ground (arith, other, h.sector);
    },
    λ e. ground (arith, other, e),
  )
]

Holds-loaded :
    (k s i t : ℕ) (c : Cache)
    → (c.cache k).valid ≡ false
    → Holds c i t
    → Holds (loaded k s c) i t × (i ≢ k)
Holds-loaded k s i t c empty h = (
  record {
    below = h.below;
    valid = ground (arith, h.valid);
    sector = ground (arith, h.sector, h.valid, empty);
  },
  λ e. ground (arith, e, empty, h.valid),
)

loaded-same : (k s i : ℕ) (c : Cache) → i ≢ k → (loaded k s c).cache i ≡ c.cache i
loaded-same k s i c n = ground arith

loaded-entry : (k s : ℕ) (c : Cache) → ((loaded k s c).cache k).buffer ≡ c.fs_device.content s
loaded-entry k s c = ground arith

pub loaded-Same :
    (k s : ℕ) (c : Cache)
    → IsValid c
    → k < 64
    → (c.cache k).valid ≡ false
    → ((j : ℕ) → Holds c j s → ⊥)
    → s < c.fs_device.size
    → Same c (loaded k s c)
loaded-Same k s c v b empty absent inside = record {
  valid = record {
    clock_below = v.clock_below;
    unique = λ i j t h g. elim (loaded-Holds k s i t c h) [
      | inl (e, f) ↦ elim (loaded-Holds k s j t c g) [
        | inl (e', f') ↦ e ∙ sym e'
        | inr (g', n) ↦ elim (absent j (subst (Holds c j) f g')) [ ]
      ]
      | inr (h', n) ↦ elim (loaded-Holds k s j t c g) [
        | inl (e', f') ↦ elim (absent i (subst (Holds c i) f' h')) [ ]
        | inr (g', m) ↦ v.unique i j t h' g'
      ]
    ];
    clean = λ i t h d. elim (loaded-Holds k s i t c h) [
      | inl (e, f) ↦
          ap c.fs_device.content f
          ∙ sym (loaded-entry k s c)
          ∙ ap (λ x. ((loaded k s c).cache x).buffer) (sym e)
      | inr (g, n) ↦
          let same = loaded-same k s i c n in
          v.clean i t g (sym (ap (λ x. x.dirty) same) ∙ d) ∙ sym (ap (λ x. x.buffer) same)
    ];
    exists = λ i t h. elim (loaded-Holds k s i t c h) [
      | inl (e, f) ↦ omega (arith, f, inside)
      | inr (g, n) ↦ v.exists i t g
    ];
    writable = v.writable;
  };
  shows = λ t x w. record {
    held = λ i h. elim (loaded-Holds k s i t c h) [
      | inl (e, f) ↦
          ap (λ x. ((loaded k s c).cache x).buffer) e
          ∙ loaded-entry k s c
          ∙ ap c.fs_device.content (sym f)
          ∙ w.on_disk (λ j g. absent j (subst (Holds c j) f g))
      | inr (g, n) ↦ ap (λ x. x.buffer) (loaded-same k s i c n) ∙ w.held i g
    ];
    on_disk = λ n. w.on_disk (λ i h. n i (Holds-loaded k s i t c empty h).0);
  };
}

-- The entry of a sector is used, for reading and for writing.
abbrev pub touched : ℕ → Cache → Cache
touched i c = set_entry i (record (c.cache i) { access = true }) c

touched-Holds : (k i s : ℕ) (c : Cache) → Holds (touched k c) i s → Holds c i s
touched-Holds k i s c h = record {
  below = h.below;
  valid = ground (arith, h.valid);
  sector = ground (arith, h.sector);
}

Holds-touched : (k i s : ℕ) (c : Cache) → Holds c i s → Holds (touched k c) i s
Holds-touched k i s c h = record {
  below = h.below;
  valid = ground (arith, h.valid);
  sector = ground (arith, h.sector);
}

touched-buffer : (k i : ℕ) (c : Cache) → ((touched k c).cache i).buffer ≡ (c.cache i).buffer
touched-buffer k i c = ground arith

touched-dirty : (k i : ℕ) (c : Cache) → ((touched k c).cache i).dirty ≡ (c.cache i).dirty
touched-dirty k i c = ground arith

pub touched-Same : (k : ℕ) (c : Cache) → IsValid c → Same c (touched k c)
touched-Same k c v = record {
  valid = record {
    clock_below = v.clock_below;
    unique = λ i j s h g. v.unique i j s (touched-Holds k i s c h) (touched-Holds k j s c g);
    clean = λ i s h d.
        v.clean i s (touched-Holds k i s c h) (sym (touched-dirty k i c) ∙ d)
        ∙ sym (touched-buffer k i c);
    exists = λ i s h. v.exists i s (touched-Holds k i s c h);
    writable = v.writable;
  };
  shows = λ s b w. record {
    held = λ i h. touched-buffer k i c ∙ w.held i (touched-Holds k i s c h);
    on_disk = λ n. w.on_disk (λ i h. n i (Holds-touched k i s c h));
  };
}

abbrev pub written : ℕ → Buffer → Cache → Cache
written i source c =
    set_entry i (record (c.cache i) { access = true; dirty = true; buffer = source }) c

written-Holds : (k i s : ℕ) (x : Buffer) (c : Cache) → Holds (written k x c) i s → Holds c i s
written-Holds k i s x c h = record {
  below = h.below;
  valid = ground (arith, h.valid);
  sector = ground (arith, h.sector);
}

Holds-written : (k i s : ℕ) (x : Buffer) (c : Cache) → Holds c i s → Holds (written k x c) i s
Holds-written k i s x c h = record {
  below = h.below;
  valid = ground (arith, h.valid);
  sector = ground (arith, h.sector);
}

pub written-IsValid : (k : ℕ) (x : Buffer) (c : Cache) → IsValid c → IsValid (written k x c)
written-IsValid k x c v = record {
  clock_below = v.clock_below;
  unique = λ i j s h g. v.unique i j s (written-Holds k i s x c h) (written-Holds k j s x c g);
  clean = λ i s h d.
      let n : i ≢ k = λ e. ground (arith, e, d) in
      let same : (written k x c).cache i ≡ c.cache i = ground (arith, n) in
      v.clean i s (written-Holds k i s x c h) (sym (ap (λ x. x.dirty) same) ∙ d)
      ∙ sym (ap (λ x. x.buffer) same);
  exists = λ i s h. v.exists i s (written-Holds k i s x c h);
  writable = v.writable;
}

pub written-Shows :
    (k s t : ℕ) (x b : Buffer) (c : Cache)
    → IsValid c
    → Holds c k s
    → Shows c t b
    → Shows (written k x c) t (if s == t then x else b)
written-Shows k s t x b c v hold w = elim (Bool-cases (s == t)) [
  | inl same ↦ record {
    held = λ i h.
        let mine =
          v.unique k i s hold
            (subst (Holds c i) (sym (eq_of_== _ _ same)) (written-Holds k i t x c h)) in
        ap (λ j. ((written k x c).cache j).buffer) (sym mine) ∙ ground (arith, same);
    on_disk =
        λ n. elim (n k (Holds-written k k t x c (subst (Holds c k) (eq_of_== _ _ same) hold))) [ ];
  }
  | inr other ↦ record {
    held = λ i h.
        let apart : i ≢ k = λ e. ground (arith, e, other, hold.sector, h.sector) in
        let kept : (written k x c).cache i ≡ c.cache i = ground (arith, apart) in
        ap (λ e. e.buffer) kept ∙ w.held i (written-Holds k i t x c h) ∙ sym (if_false x b other);
    on_disk = λ n. w.on_disk (λ i h. n i (Holds-written k i t x c h)) ∙ sym (if_false x b other);
  }
]
