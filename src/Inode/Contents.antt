-- ===== src/Inode/Contents.antt =====
-- The contents of a file, independent of how they are read.
use sustech_cs.Prelude.{
  ℕ, zero, suc, ◌+◌, ◌-◌, ◌*◌, ◌/◌, ◌%◌, ◌≤◌, ◌<◌, ◌≡◌, refl, sym, ap, ◌∙◌, List, [], ◌∷◌, ◌++◌,
  ltb, if◌then◌else◌, arith,
}
use sustech_cs.Prelude.Int.{pos_part}
use sustech_cs.Block.{Buffer}
use sustech_cs.Inode.{Inode}
use sustech_cs.Inode.Blocks.{
  byte_at, word_at, inode_length, direct_index, indirect_index, doubly_indirect_index,
}
use sustech_cs.Inode.Read.{bytes_from}

-- The sector of the block of number `index`, where the sectors have the contents `v`.
abbrev pub sector_of : (ℕ → Buffer) → Inode → ℕ → ℕ
sector_of v inode index =
    if ltb index 124
    then direct_index inode index
    else if ltb (index - 124) 128
    then word_at (v (indirect_index inode)) (index - 124)
    else word_at (v (word_at (v (doubly_indirect_index inode)) ((index - 124 - 128) / 128)))
        ((index - 124 - 128) % 128)

abbrev pub file_byte : (ℕ → Buffer) → Inode → ℕ → ℕ
file_byte v inode offset = byte_at (v (sector_of v inode (offset / 512))) (offset % 512)

-- The `n` bytes of the file from `offset` on.
abbrev pub file_bytes : (ℕ → Buffer) → Inode → ℕ → ℕ → List ℕ
file_bytes v inode offset zero = []
file_bytes v inode offset (suc n) = file_byte v inode offset ∷ file_bytes v inode (suc offset) n

-- What the index of an inode names for the blocks below the length is on the device, and the length
-- is one that the index can hold. Entries behind the length may have any value.
pub record IsIndexed (v : ℕ → Buffer) (size : ℕ) (inode : Inode) : Type 0 where
  pub indirect : 124 * 512 < pos_part (inode_length inode) → indirect_index inode < size
  pub doubly : 252 * 512 < pos_part (inode_length inode) → doubly_indirect_index inode < size
  pub second :
      (i : ℕ)
      → 252 ≤ i
      → i * 512 < pos_part (inode_length inode)
      → word_at (v (doubly_indirect_index inode)) ((i - 124 - 128) / 128) < size
  pub blocks : (i : ℕ) → i * 512 < pos_part (inode_length inode) → sector_of v inode i < size
  pub holds : pos_part (inode_length inode) ≤ 16636 * 512

-- One byte after another, up to the end of the sector.
pub file_bytes-sector :
    (v : ℕ → Buffer) (inode : Inode) (offset n : ℕ)
    → offset % 512 + n ≤ 512
    → bytes_from (v (sector_of v inode (offset / 512))) (offset % 512) n
      ≡ file_bytes v inode offset n
file_bytes-sector v inode offset zero h = refl
file_bytes-sector v inode offset (suc zero) h = refl
file_bytes-sector v inode offset (suc (suc n)) h =
    let same : suc offset / 512 ≡ offset / 512 = omega (arith, h) in
    let next : suc offset % 512 ≡ suc (offset % 512) = omega (arith, h) in
    ap (λ l. file_byte v inode offset ∷ l)
      (ap (λ k. bytes_from (v (sector_of v inode (offset / 512))) k (suc n)) (sym next)
        ∙ ap (λ k. bytes_from (v (sector_of v inode k)) (suc offset % 512) (suc n)) (sym same)
        ∙ file_bytes-sector v inode (suc offset) (suc n) (omega (arith, next, h)))

pub file_bytes-add :
    (v : ℕ → Buffer) (inode : Inode) (offset a b n : ℕ)
    → a + b ≡ n
    → file_bytes v inode offset a ++ file_bytes v inode (offset + a) b ≡ file_bytes v inode offset n
file_bytes-add v inode offset zero b n e =
    ap (λ o. file_bytes v inode o b) (omega arith)
    ∙ ap (file_bytes v inode offset) (omega (arith, e))
file_bytes-add v inode offset (suc a) b zero e = absurd (omega (arith, e))
file_bytes-add v inode offset (suc a) b (suc n) e =
    ap (λ l. file_byte v inode offset ∷ l)
      (ap (λ o. file_bytes v inode (suc offset) a ++ file_bytes v inode o b) (omega arith)
        ∙ file_bytes-add v inode (suc offset) a b n (omega (arith, e)))
