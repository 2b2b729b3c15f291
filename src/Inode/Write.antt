-- ===== src/Inode/Write.antt =====
-- inode_write_at of filesys/inode.c, for an offset from 0 on.
use sustech_cs.Prelude.{
  ℕ, zero, suc, ◌+◌, ◌-◌, ◌%◌, Bool, ◌||◌, ◌&&◌, Option, none, some, List, [], ◌∷◌, ltb, ◌==◌,
  if◌then◌else◌, ◌>>=◌,
}
use sustech_cs.Prelude.Int.{ℤ, pos, negsuc, ◌+ℤ◌, ◌-ℤ◌}
use sustech_cs.Block.{Buffer}
use sustech_cs.Cache.{Cache, cache_read, cache_write}
use sustech_cs.Inode.{Inode}
use sustech_cs.Inode.Blocks.{byte_to_sector}
use sustech_cs.Inode.Read.{bytes_from, chunk_size}

-- memcpy of the bytes into a buffer, from `ofs` on.
abbrev pub copy_into : Buffer → ℕ → List ℕ → Buffer
copy_into b zero [] = b
copy_into [] zero (x ∷ l) = x ∷ copy_into [] zero l
copy_into (c ∷ b) zero (x ∷ l) = x ∷ copy_into b zero l
copy_into [] (suc ofs) l = 0 ∷ copy_into [] ofs l
copy_into (c ∷ b) (suc ofs) l = c ∷ copy_into b ofs l

-- memset (bounce, 0, n)
abbrev pub zeros : ℕ → Buffer
zeros zero = []
zeros (suc n) = 0 ∷ zeros n

-- What a round writes to the sector: a whole sector of the buffer, or a bounce buffer.
unfoldable pub write_chunk : ℕ → ℕ → ℕ → Buffer → ℕ → Cache → Option Cache
write_chunk sector_idx sector_ofs chunk buffer written c =
    if sector_ofs == 0 && chunk == 512
    then cache_write sector_idx (bytes_from buffer written 512) c
    else if ltb 0 sector_ofs || ltb chunk (512 - sector_ofs)
    then (do
      r ← cache_read sector_idx c
      let (bounce, c') = r
      cache_write sector_idx (copy_into bounce sector_ofs (bytes_from buffer written chunk)) c')
    else cache_write sector_idx (copy_into (zeros 512) sector_ofs (bytes_from buffer written chunk))
        c

-- The loop, on fuel, with bytes_written. `memory` is whether malloc and calloc give
-- memory, for a bounce buffer and for the index. A sector
-- -1 is behind the end of every device, so that the cache panics.
unfoldable pub write_loop : ℕ → Bool → Inode → Buffer → ℕ → ℕ → ℕ → Cache → Option (ℕ × Cache)
write_loop zero memory inode buffer size offset written c = none
write_loop (suc fuel) memory inode buffer zero offset written c = some (written, c)
write_loop (suc fuel) memory inode buffer (suc n) offset written c = do
  r ← byte_to_sector memory inode (pos offset) c
  let (sector_idx, c') = r
  let sector_ofs = offset % 512
  let chunk = chunk_size inode (suc n) offset
  let whole = sector_ofs == 0 && chunk == 512
  let go_on = (λ (s : ℕ). do
    c'' ← write_chunk s sector_ofs chunk buffer written c'
    write_loop fuel memory inode buffer (suc n - chunk) (offset + chunk) (written + chunk) c'')
  if chunk == 0
      then some (written, c')
      else if whole || memory
      then elim sector_idx [ none ↦ none | some s ↦ go_on s ]
      else some (written, c')

-- The result with the state behind it, or that the file has to grow first: what inode_allocate does
-- then is left open.
pub data Write (S : Type 0) : Type 0 where
  wrote : ℕ → S → Write S
  grows : S → Write S

-- A size below 0 writes nothing behind the test for growth.
unfoldable pub write_bytes : Bool → Inode → Buffer → ℤ → ℕ → Cache → Option (Write Cache)
write_bytes memory inode buffer (negsuc n) offset c = some (wrote 0 c)
write_bytes memory inode buffer (pos size) offset c = do
  r ← write_loop (suc size) memory inode buffer size offset 0 c
  let (written, c') = r
  some (wrote written c')

unfoldable pub inode_write_at : Bool → Inode → Buffer → ℤ → ℕ → Cache → Option (Write Cache)
inode_write_at memory inode buffer size offset c =
    if inode.deny_write_cnt == 0
    then (do
      r ← byte_to_sector memory inode ((pos offset +ℤ size) -ℤ pos 1) c
      let (last, c') = r
      elim last [
        | none ↦ some (grows c')
        | some s ↦ write_bytes memory inode buffer size offset c'
      ])
    else some (wrote 0 c)
