-- ===== src/Inode/Blocks.antt =====
-- The index of an inode's blocks: byte_to_sector of filesys/inode.c. A sector that holds numbers is
-- 128 words of four bytes, the lowest first.
use sustech_cs.Prelude.{
  ℕ, zero, suc, ◌+◌, ◌-◌, ◌*◌, ◌/◌, ◌%◌, ◌^◌, Bool, Option, none, some, [], ◌∷◌, ltb, if◌then◌else◌,
  ◌>>=◌,
}
use sustech_cs.Prelude.Int.{ℤ, pos, negsuc, ltb_ℤ}
use sustech_cs.FixedPoint.{signed}
use sustech_cs.Block.{Buffer}
use sustech_cs.Cache.{Cache, cache_read}
use sustech_cs.Inode.{Inode}

abbrev pub byte_at : Buffer → ℕ → ℕ
byte_at [] i = 0
byte_at (b ∷ l) zero = b
byte_at (b ∷ l) (suc i) = byte_at l i

abbrev pub word_at : Buffer → ℕ → ℕ
word_at b i =
    byte_at b (4 * i)
    + 2 ^ 8 * byte_at b (4 * i + 1)
    + 2 ^ 16 * byte_at b (4 * i + 2)
    + 2 ^ 24 * byte_at b (4 * i + 3)

abbrev pub direct_index_num : ℕ
direct_index_num = 124

abbrev pub indirect_index_sector_num : ℕ
indirect_index_sector_num = 128

abbrev pub doubly_indirect_index_sector_num : ℕ
doubly_indirect_index_sector_num = 128 * 128

-- The fields of struct inode_disk, in the order in which they are laid out.
unfoldable pub inode_length : Inode → ℤ
inode_length inode = signed (word_at inode.content 0)

abbrev pub direct_index : Inode → ℕ → ℕ
direct_index inode i = word_at inode.content (1 + i)

abbrev pub indirect_index : Inode → ℕ
indirect_index inode = word_at inode.content 125

abbrev pub doubly_indirect_index : Inode → ℕ
doubly_indirect_index inode = word_at inode.content 126

-- The sector with the block of number `index`, `none` for the -1 behind the last one there can be.
-- `memory` is whether calloc gives a sector to read the index into: its result is not tested, and
-- cache_read would store into it.
unfoldable pub block_to_sector : Bool → Inode → ℕ → Cache → Option (Option ℕ × Cache)
block_to_sector memory inode index c =
    let indirect = index - direct_index_num in
    let doubly = indirect - indirect_index_sector_num in
    if ltb index direct_index_num
    then some (some (direct_index inode index), c)
    else if ltb indirect indirect_index_sector_num
    then (if memory
        then (do
          r ← cache_read (indirect_index inode) c
          let (iis, c') = r
          some (some (word_at iis indirect), c'))
        else none)
    else if ltb doubly doubly_indirect_index_sector_num
    then (if memory
        then (do
          r ← cache_read (doubly_indirect_index inode) c
          let (iis, c') = r
          r' ← cache_read (word_at iis (doubly / indirect_index_sector_num)) c'
          let (iis', c'') = r'
          some (some (word_at iis' (doubly % indirect_index_sector_num)), c''))
        else none)
    else some (none, c)

-- byte_to_sector, with `none` for the result -1.
unfoldable pub byte_to_sector : Bool → Inode → ℤ → Cache → Option (Option ℕ × Cache)
byte_to_sector memory inode (negsuc n) c = some (none, c)
byte_to_sector memory inode (pos n) c =
    if ltb_ℤ (pos n) (inode_length inode)
    then block_to_sector memory inode (n / 512) c
    else some (none, c)
