-- ===== src/Inode/Lookup.antt =====
-- block_to_sector as a lookup in the contents of the sectors.
use sustech_cs.Prelude.{
  ℕ, ◌-◌, ◌*◌, ◌/◌, ◌%◌, ◌≤◌, ◌<◌, ◌≡◌, refl, sym, ap, ◌∙◌, true, false, inl, inr, some, ltb, arith,
  Bool-cases,
}
use mathlib.Core.Path.{fun_ext}
use sustech_cs.Block.{Buffer}
use sustech_cs.Cache.{Cache, cache_read}
use sustech_cs.Cache.View.{IsValid, view}
use sustech_cs.Cache.Ops.{cache_read_lem}
use sustech_cs.Inode.{Inode}
use sustech_cs.Prelude.Int.{pos_part}
use sustech_cs.Inode.Blocks.{
  word_at, inode_length, indirect_index, doubly_indirect_index, block_to_sector,
}
use sustech_cs.Inode.Contents.{sector_of, IsIndexed}

-- byte_to_sector where the index is in the second level, read as `b`, of which `b'` is a sector.
second_level :
    (inode : Inode) (i : ℕ) (c c1 c2 : Cache) (b b' : Buffer)
    → ltb i 124 ≡ false
    → ltb (i - 124) 128 ≡ false
    → ltb (i - 124 - 128) (128 * 128) ≡ true
    → cache_read (doubly_indirect_index inode) c ≡ some (b, c1)
    → cache_read (word_at b ((i - 124 - 128) / 128)) c1 ≡ some (b', c2)
    → block_to_sector true inode i c ≡ some (some (word_at b' ((i - 124 - 128) % 128)), c2)
unfolding block_to_sector
second_level inode i c c1 c2 b b' far farther fits e1 e2 = simp (far, farther, fits, e1, e2)

sector_of-doubly :
    (v : ℕ → Buffer) (inode : Inode) (i : ℕ)
    → ltb i 124 ≡ false
    → ltb (i - 124) 128 ≡ false
    → sector_of v inode i
      ≡ word_at
          (v (word_at (v (doubly_indirect_index inode)) ((i - 124 - 128) / 128)))
          ((i - 124 - 128) % 128)
sector_of-doubly v inode i far farther = rw (far, farther) refl

-- A state that shows the contents `V` on a device of `z` sectors.
pub record Shown (V : ℕ → Buffer) (z : ℕ) (c : Cache) : Type 0 where
  pub valid : IsValid c
  pub same : view c ≡ V
  pub size : c.fs_device.size ≡ z

pub cache_read-Shown :
    (V : ℕ → Buffer) (z s : ℕ) (c : Cache)
    → Shown V z c
    → s < z
    → (c' : Cache) × (cache_read s c ≡ some (V s, c')) × Shown V z c'
cache_read-Shown V z s c v inside =
    let (c', e, v', s', z') = cache_read_lem s c v.valid (omega (arith, inside, v.size)) in
    (
      c',
      e ∙ ap (λ W. some (W s, c')) v.same,
      record { valid = v'; same = fun_ext s' ∙ v.same; size = z' ∙ v.size },
    )

pub block_to_sector_lem :
    (V : ℕ → Buffer) (z : ℕ) (inode : Inode) (i : ℕ) (c : Cache)
    → Shown V z c
    → IsIndexed V z inode
    → i * 512 < pos_part (inode_length inode)
    → (c' : Cache) × (block_to_sector true inode i c ≡ some (some (sector_of V inode i), c'))
      × Shown V z c'
unfolding block_to_sector
block_to_sector_lem V z inode i c v x b = elim (Bool-cases (ltb i 124)) [
  | inl direct ↦ (c, rw direct refl, v)
  | inr far ↦ elim (Bool-cases (ltb (i - 124) 128)) [
    | inl indirect ↦
        let (c', e, v') =
          cache_read-Shown V z (indirect_index inode) c v (x.indirect (ground (arith, far, b))) in
        (c', simp (far, indirect, e), v')
    | inr farther ↦
        let behind : 252 ≤ i = ground (arith, far, farther) in
        let reached = x.doubly (omega (arith, behind, b)) in
        let (c1, e1, v1) = cache_read-Shown V z (doubly_indirect_index inode) c v reached in
        let second = x.second i behind b in
        let w = word_at (V (doubly_indirect_index inode)) ((i - 124 - 128) / 128) in
        let (c2, e2, v2) = cache_read-Shown V z w c1 v1 second in
        let fits : ltb (i - 124 - 128) (128 * 128) ≡ true = ground (arith, x.holds, b) in
        (
          c2,
          second_level inode i c c1 c2 _ _ far farther fits e1 e2
              ∙ ap (λ s. some (some s, c2)) (sym (sector_of-doubly V inode i far farther)),
          v2,
        )
  ]
]
