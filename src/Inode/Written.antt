-- ===== src/Inode/Written.antt =====
-- The loop of inode_write_at as a change of the contents of the file.
use mathlib.Core.Path.{fun_ext}
use sustech_cs.Prelude.{
  update-other, ℕ, ◌+◌, ◌-◌, ◌*◌, ◌/◌, ◌%◌, ◌≤◌, ◌<◌, ◌≡◌, ◌≢◌, refl, sym, ap, ◌∙◌, inl, inr, Bool,
  true, false, ◌&&◌, ◌||◌, some, ltb, ◌==◌, if◌then◌else◌, update, arith, Bool-cases, if_true,
  if_false,
}
use sustech_cs.Prelude.Int.{pos_part}
use sustech_cs.Block.{Buffer}
use sustech_cs.Cache.{Cache, cache_write}
use sustech_cs.Cache.Ops.{cache_write_lem}
use sustech_cs.Inode.{Inode}
use sustech_cs.Inode.Blocks.{byte_at, word_at, inode_length, doubly_indirect_index}
use sustech_cs.Inode.Read.{bytes_from}
use sustech_cs.Inode.Contents.{sector_of, file_byte, IsIndexed}
use sustech_cs.Inode.Lookup.{Shown, cache_read-Shown}
use sustech_cs.Inode.Write.{copy_into, write_chunk}
use sustech_cs.Inode.Separate.{
  IsSeparate, sector_of-update, among, byte_at-copy_into, length-bytes_from, byte_at-bytes_from,
  file_byte-update,
}

cache_write-Shown :
    (V : ℕ → Buffer) (z s : ℕ) (b : Buffer) (c : Cache)
    → Shown V z c
    → s < z
    → (c' : Cache) × (cache_write s b c ≡ some c') × Shown (update V s b) z c'
cache_write-Shown V z s b c v inside =
    let (c', e, v', s', z') = cache_write_lem s b c v.valid (omega (arith, inside, v.size)) in
    (
      c',
      e,
      record { valid = v'; same = fun_ext s' ∙ ap (λ W. update W s b) v.same; size = z' ∙ v.size },
    )

-- The bytes of a sector behind the writing of `n` of them.
abbrev pub IsOverlay : Buffer → ℕ → ℕ → Buffer → ℕ → Buffer → Type 0
IsOverlay old ofs n buffer written b =
    (k : ℕ)
    → k < 512
    → byte_at b k ≡ (if among ofs n k then byte_at buffer (written + (k - ofs)) else byte_at old k)

copy_into-IsOverlay :
    (old : Buffer) (ofs n : ℕ) (buffer : Buffer) (written : ℕ)
    → IsOverlay old ofs n buffer written (copy_into old ofs (bytes_from buffer written n))
copy_into-IsOverlay old ofs n buffer written k h =
    byte_at-copy_into old ofs (bytes_from buffer written n) k
    ∙ ap
        (λ m.
          if among ofs m k then byte_at (bytes_from buffer written n) (k - ofs) else byte_at old k)
        (length-bytes_from buffer written n)
    ∙ elim (Bool-cases (among ofs n k)) [
      | inl e ↦ rw e (byte_at-bytes_from buffer written n (k - ofs) (ground arith))
      | inr e ↦ rw e refl
    ]

bytes_from-IsOverlay :
    (old buffer : Buffer) (written : ℕ)
    → IsOverlay old 0 512 buffer written (bytes_from buffer written 512)
bytes_from-IsOverlay old buffer written k h =
    let whole : among 0 512 k ≡ true = ground (arith, h) in
    let place : k - 0 ≡ k = omega arith in
    rw (whole, place) (byte_at-bytes_from buffer written 512 k h)

pub write_chunk-IsOverlay :
    (V : ℕ → Buffer) (z s ofs n : ℕ) (buffer : Buffer) (written : ℕ) (c : Cache)
    → Shown V z c
    → s < z
    → ofs + n ≤ 512
    → (b : Buffer) × (c' : Cache) × (write_chunk s ofs n buffer written c ≡ some c')
      × Shown (update V s b) z c'
      × IsOverlay (V s) ofs n buffer written b
unfolding write_chunk
write_chunk-IsOverlay V z s ofs n buffer written c v inside fits =
    elim (Bool-cases (ofs == 0 && n == 512)) [
      | inl e ↦
          let b = bytes_from buffer written 512 in
          let (c', made, v') = cache_write-Shown V z s b c v inside in
          let start : ofs ≡ 0 = ground arith in
          let all : n ≡ 512 = ground arith in
          (
            b,
            c',
            if_true _ _ e ∙ made,
            v',
            rw (start, all) (bytes_from-IsOverlay (V s) buffer written),
          )
      | inr e ↦
          let part : (ltb 0 ofs || ltb n (512 - ofs)) ≡ true = ground (arith, e, fits) in
          let (c1, read, v1) = cache_read-Shown V z s c v inside in
          let b = copy_into (V s) ofs (bytes_from buffer written n) in
          let (c2, made, v2) = cache_write-Shown V z s b c1 v1 inside in
          (
            b,
            c2,
            if_false _ _ e ∙ (if_true _ _ part ∙ (rw read made)),
            v2,
            copy_into-IsOverlay (V s) ofs n buffer written,
          )
    ]

-- A change of the contents of the sectors that writes `n` bytes of the buffer to the file.
pub record Writes (V W : ℕ → Buffer) (z : ℕ) (inode : Inode) (buffer : Buffer)
    (offset n written : ℕ) : Type 0 where
  pub indexed : IsIndexed W z inode
  pub separate : IsSeparate W inode
  pub bytes :
      (j : ℕ)
      → j < pos_part (inode_length inode)
      → file_byte W inode j ≡ (
          if among offset n j then byte_at buffer (written + (j - offset)) else file_byte V inode j)
  pub others :
      (t : ℕ)
      → ((i : ℕ) → i * 512 < pos_part (inode_length inode) → sector_of V inode i ≢ t)
      → W t ≡ V t
  pub index :
      (i : ℕ) → i * 512 < pos_part (inode_length inode) → sector_of W inode i ≡ sector_of V inode i

-- Writing a block leaves the doubly indirect block what it is, where there is one.
doubly-update :
    (V : ℕ → Buffer) (inode : Inode) (i k : ℕ) (b : Buffer)
    → IsSeparate V inode
    → i * 512 < pos_part (inode_length inode)
    → 252 ≤ k
    → k * 512 < pos_part (inode_length inode)
    → update V (sector_of V inode i) b (doubly_indirect_index inode)
      ≡ V (doubly_indirect_index inode)
doubly-update V inode i k b y h behind lt =
    update-other V (sector_of V inode i) (doubly_indirect_index inode) b
      (y.doubly i h (omega (arith, behind, lt)))

pub update-IsIndexed :
    (V : ℕ → Buffer) (z : ℕ) (inode : Inode) (i : ℕ) (b : Buffer)
    → IsIndexed V z inode
    → IsSeparate V inode
    → i * 512 < pos_part (inode_length inode)
    → IsIndexed (update V (sector_of V inode i) b) z inode
update-IsIndexed V z inode i b x y h = record {
  indirect = x.indirect;
  doubly = x.doubly;
  second = λ k behind lt. rw (doubly-update V inode i k b y h behind lt) (x.second k behind lt);
  blocks = λ j lt. rw (sector_of-update V inode i j b y h lt) (x.blocks j lt);
  holds = x.holds;
}

pub update-IsSeparate :
    (V : ℕ → Buffer) (z : ℕ) (inode : Inode) (i : ℕ) (b : Buffer)
    → IsIndexed V z inode
    → IsSeparate V inode
    → i * 512 < pos_part (inode_length inode)
    → IsSeparate (update V (sector_of V inode i) b) inode
update-IsSeparate V z inode i b x y h =
    let kept = λ (j : ℕ) (lt : j * 512 < pos_part (inode_length inode)).
      sector_of-update V inode i j b y h lt in
    record {
      apart = λ j k lt lt' e. y.apart j k lt lt' (sym (kept j lt) ∙ e ∙ kept k lt');
      indirect = λ j lt used e. y.indirect j lt used (sym (kept j lt) ∙ e);
      doubly = λ j lt used e. y.doubly j lt used (sym (kept j lt) ∙ e);
      second = λ j k lt behind lt' e. y.second j k lt behind lt' (
          sym (kept j lt)
          ∙ e
          ∙ ap (λ c. word_at c ((k - 124 - 128) / 128))
              (doubly-update V inode i k b y h behind lt'));
    }

pub Writes-none :
    (V : ℕ → Buffer) (z : ℕ) (inode : Inode) (buffer : Buffer) (offset written : ℕ)
    → IsIndexed V z inode
    → IsSeparate V inode
    → Writes V V z inode buffer offset 0 written
Writes-none V z inode buffer offset written x y = record {
  indexed = x;
  separate = y;
  bytes = λ j h. let out : among offset 0 j ≡ false = ground arith in sym (if_false _ _ out);
  others = λ t h. refl;
  index = λ i h. refl;
}

-- A part that is written to a sector, and the rest behind it.
pub Writes-cons :
    (V W : ℕ → Buffer) (z : ℕ) (inode : Inode) (buffer b : Buffer) (offset n m written : ℕ)
    → IsIndexed V z inode
    → IsSeparate V inode
    → offset < pos_part (inode_length inode)
    → offset % 512 + n ≤ 512
    → IsOverlay (V (sector_of V inode (offset / 512))) (offset % 512) n buffer written b
    → Writes
        (update V (sector_of V inode (offset / 512)) b)
        W
        z
        inode
        buffer
        (offset + n)
        m
        (written + n)
    → Writes V W z inode buffer offset (n + m) written
Writes-cons V W z inode buffer b offset n m written x y inside fits o rest =
    let i = offset / 512 in
    let at_i : i * 512 < pos_part (inode_length inode) = omega (arith, inside) in
    record {
      indexed = rest.indexed;
      separate = rest.separate;
      bytes = λ j h.
          rest.bytes j h
          ∙ joined (among (offset + n) m j) (among offset n j) (among offset (n + m) j)
              (byte_at buffer (written + n + (j - (offset + n))))
              (byte_at buffer (written + (j - offset))) (file_byte V inode j)
              (file_byte (update V (sector_of V inode i) b) inode j)
              (file_byte-update V inode offset n j b (λ k. byte_at buffer (written + k)) y inside
                fits o h)
              (λ e. ap (byte_at buffer) (ground arith)) (λ e. ground arith) (ground arith);
      others = λ t h.
          rest.others t (λ k lt e. h k lt (sym (sector_of-update V inode i k b y at_i lt) ∙ e))
          ∙ update-other V (sector_of V inode i) t b (h i at_i);
      index = λ k lt. rest.index k lt ∙ sector_of-update V inode i k b y at_i lt;
    }
  where
    joined :
        (p q r : Bool) (later now old mid : ℕ)
        → mid ≡ (if q then now else old)
        → (p ≡ true → later ≡ now)
        → (p ≡ true → r ≡ true)
        → (p ≡ false → r ≡ q)
        → (if p then later else mid) ≡ (if r then now else old)
    joined true q r later now old mid e f g h = rw (g refl) (f refl)
    joined false q r later now old mid e f g h = rw (h refl) e
