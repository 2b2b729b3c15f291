-- ===== src/Inode/Read.antt =====
-- inode_read_at of filesys/inode.c, for an offset from 0 on.
use sustech_cs.Prelude.{
  ℕ, zero, suc, ◌+◌, ◌-◌, ◌%◌, Bool, ◌||◌, ◌&&◌, Option, none, some, List, [], ◌∷◌, ◌++◌, ltb, ◌==◌,
  if◌then◌else◌, ◌>>=◌,
}
use sustech_cs.Prelude.Int.{ℤ, pos, negsuc, pos_part}
use sustech_cs.Block.{Buffer}
use sustech_cs.Cache.{Cache, cache_read}
use sustech_cs.Inode.{Inode}
use sustech_cs.Inode.Blocks.{byte_at, inode_length, byte_to_sector}

-- The `n` bytes of a sector from `ofs` on, as memcpy takes them.
abbrev pub bytes_from : Buffer → ℕ → ℕ → List ℕ
bytes_from b ofs zero = []
bytes_from b ofs (suc n) = byte_at b ofs ∷ bytes_from b (suc ofs) n

abbrev pub min : ℕ → ℕ → ℕ
min a b = if ltb a b then a else b

-- The bytes of the file behind `offset`: a length or a rest below 0 is none.
abbrev pub inode_left : Inode → ℕ → ℕ
inode_left inode offset = pos_part (inode_length inode) - offset

-- chunk_size, 0 where it is not positive.
abbrev pub chunk_size : Inode → ℕ → ℕ → ℕ
chunk_size inode size offset = min size (min (inode_left inode offset) (512 - offset % 512))

-- The loop, on fuel: what is read, in order. `memory` is whether malloc and calloc give
-- memory, for a bounce buffer and for the index. A
-- sector -1 is behind the end of every device, so that cache_read panics.
unfoldable pub read_loop : ℕ → Bool → Inode → ℕ → ℕ → Cache → Option (List ℕ × Cache)
read_loop zero memory inode size offset c = none
read_loop (suc fuel) memory inode zero offset c = some ([], c)
read_loop (suc fuel) memory inode (suc n) offset c = do
  r ← byte_to_sector memory inode (pos offset) c
  let (sector_idx, c') = r
  let sector_ofs = offset % 512
  let chunk = chunk_size inode (suc n) offset
  let whole = sector_ofs == 0 && chunk == 512
  let go_on = (λ (s : ℕ). do
    r' ← cache_read s c'
    let (content, c'') = r'
    r'' ← read_loop fuel memory inode (suc n - chunk) (offset + chunk) c''
    let (rest, done) = r''
    some (bytes_from content sector_ofs chunk ++ rest, done))
  if chunk == 0
      then some ([], c')
      else if whole || memory
      then elim sector_idx [ none ↦ none | some s ↦ go_on s ]
      else some ([], c')

-- A size below 0 reads nothing. Each round reads a byte at least, so the size is fuel enough.
unfoldable pub inode_read_at : Bool → Inode → ℤ → ℕ → Cache → Option (List ℕ × Cache)
inode_read_at memory inode (negsuc n) offset c = some ([], c)
inode_read_at memory inode (pos size) offset c = read_loop (suc size) memory inode size offset c
