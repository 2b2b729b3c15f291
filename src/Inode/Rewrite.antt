-- ===== src/Inode/Rewrite.antt =====
-- inode_write_at inside a file, and reading back what it wrote.
use sustech_cs.Prelude.{
  ℕ, zero, suc, ◌+◌, ◌-◌, ◌*◌, ◌/◌, ◌%◌, ◌≤◌, ◌<◌, ◌≡◌, ◌≢◌, refl, sym, ap, ◌∙◌, subst, true, false,
  ◌&&◌, some, ◌∷◌, ◌==◌, update, arith, if_true, or_true,
}
use sustech_cs.Prelude.Int.{pos, pos_part, ◌+ℤ◌, ◌-ℤ◌}
use sustech_cs.Block.{Buffer}
use sustech_cs.Cache.{Cache}
use sustech_cs.Cache.View.{IsValid, view}
use sustech_cs.Inode.{Inode}
use sustech_cs.Inode.Blocks.{byte_at, inode_length, block_to_sector}
use sustech_cs.Inode.Read.{bytes_from, min, inode_left, chunk_size, inode_read_at}
use sustech_cs.Inode.Contents.{sector_of, file_bytes, IsIndexed}
use sustech_cs.Inode.Lookup.{Shown, block_to_sector_lem}
use sustech_cs.Inode.Whole.{byte_to_sector-inside, read_loop-less, inode_read_at_lem}
use sustech_cs.Inode.Write.{write_chunk, write_loop, wrote, write_bytes, inode_write_at}
use sustech_cs.Inode.Separate.{IsSeparate, among}
use sustech_cs.Inode.Written.{
  Writes, Writes-none, Writes-cons, update-IsIndexed, update-IsSeparate, write_chunk-IsOverlay,
}

write_loop-round :
    (fuel n : ℕ) (inode : Inode) (buffer : Buffer) (offset written s : ℕ) (c c1 c2 : Cache)
    → inode_left inode offset ≢ 0
    → block_to_sector true inode (offset / 512) c ≡ some (some s, c1)
    → write_chunk s (offset % 512) (chunk_size inode (suc n) offset) buffer written c1 ≡ some c2
    → write_loop (suc fuel) true inode buffer (suc n) offset written c ≡ (
        let chunk = chunk_size inode (suc n) offset in
        write_loop fuel true inode buffer (suc n - chunk) (offset + chunk) (written + chunk) c2)
unfolding write_loop
write_loop-round fuel n inode buffer offset written s c c1 c2 more e1 e2 =
    let some_bytes : (chunk_size inode (suc n) offset == 0) ≡ false = ground (arith, more) in
    rw (byte_to_sector-inside inode offset c more, e1)
      (rw (some_bytes, or_true (offset % 512 == 0 && chunk_size inode (suc n) offset == 512), e2)
        refl)

write_loop_lem :
    (fuel : ℕ) (V : ℕ → Buffer) (z : ℕ) (inode : Inode) (buffer : Buffer) (size offset written : ℕ)
    (c : Cache)
    → Shown V z c
    → IsIndexed V z inode
    → IsSeparate V inode
    → offset + size ≤ pos_part (inode_length inode)
    → size < fuel
    → (W : ℕ → Buffer) × (c' : Cache) × (write_loop fuel true inode buffer size offset written c
        ≡ some (written + size, c'))
      × Shown W z c'
      × Writes V W z inode buffer offset size written
unfolding write_loop
write_loop_lem zero V z inode buffer size offset written c v x y le h = absurd (omega (arith, h))
write_loop_lem (suc fuel) V z inode buffer zero offset written c v x y le h =
    let same : written ≡ written + 0 = omega arith in
    (V, c, ap (λ k. some (k, c)) same, v, Writes-none V z inode buffer offset written x y)
write_loop_lem (suc fuel) V z inode buffer (suc n) offset written c v x y le h =
    let left : inode_left inode offset ≢ 0 = omega (arith, le) in
    let inside : offset < pos_part (inode_length inode) = omega (arith, le) in
    let i = offset / 512 in
    let at_i : i * 512 < pos_part (inode_length inode) = omega (arith, inside) in
    let chunk = chunk_size inode (suc n) offset in
    let fits : offset % 512 + chunk ≤ 512 = ground arith in
    let part : chunk + (suc n - chunk) ≡ suc n = ground arith in
    let (c1, e1, v1) = block_to_sector_lem V z inode i c v x at_i in
    let (b, c2, e2, v2, overlay) =
      write_chunk-IsOverlay V z (sector_of V inode i) (offset % 512) chunk buffer written c1 v1
        (x.blocks i at_i) fits in
    let (W, c3, e3, v3, rest) =
      write_loop_lem fuel (update V (sector_of V inode i) b) z inode buffer (suc n - chunk)
        (offset + chunk) (written + chunk) c2 v2 (update-IsIndexed V z inode i b x y at_i)
        (update-IsSeparate V z inode i b x y at_i) (omega (arith, le, part))
        (read_loop-less fuel n inode offset left h) in
    let total : written + chunk + (suc n - chunk) ≡ written + suc n = omega (arith, part) in
    (
      W,
      c3,
      write_loop-round fuel n inode buffer offset written _ c c1 c2 left e1 e2
          ∙ (e3 ∙ ap (λ k. some (k, c3)) total),
      v3,
      subst (λ k. Writes V W z inode buffer offset k written) part
          (Writes-cons V W z inode buffer b offset chunk (suc n - chunk) written x y inside fits
            overlay rest),
    )

file_bytes-written :
    (V W : ℕ → Buffer) (z : ℕ) (inode : Inode) (buffer : Buffer) (offset size k n : ℕ)
    → Writes V W z inode buffer offset size 0
    → offset + size ≤ pos_part (inode_length inode)
    → k + n ≤ size
    → file_bytes W inode (offset + k) n ≡ bytes_from buffer k n
file_bytes-written V W z inode buffer offset size k zero w le h = refl
file_bytes-written V W z inode buffer offset size k (suc n) w le h =
    let here : among offset size (offset + k) ≡ true = ground (arith, h) in
    let place : 0 + (offset + k - offset) ≡ k = omega arith in
    let byte =
      w.bytes (offset + k) (omega (arith, le, h))
      ∙ (if_true _ _ here ∙ ap (byte_at buffer) place) in
    let next : suc (offset + k) ≡ offset + suc k = omega arith in
    ap (λ b. b ∷ file_bytes W inode (suc (offset + k)) n) byte
    ∙ ap (λ l. byte_at buffer k ∷ l)
        (ap (λ o. file_bytes W inode o n) next
          ∙ file_bytes-written V W z inode buffer offset size (suc k) n w le (omega (arith, h)))

last_byte : (offset n : ℕ) → (pos offset +ℤ pos (suc n)) -ℤ pos 1 ≡ pos (offset + n)
unfolding ◌+ℤ◌ ◌-ℤ◌
last_byte offset n = ground arith

-- inode_write_at of some bytes that lie inside a file, on which writing is not denied, from a valid
-- state of the cache, of an inode whose index names different sectors of the device for the blocks
-- below its length, and with memory for a bounce buffer and for the index, writes them all: the
-- file has the bytes of the buffer there and what it had elsewhere, no sector but those of the
-- file's blocks is changed, and inode_read_at of as many bytes from the same offset on returns
-- those of the buffer.
pub inode_write_at_lem :
    (inode : Inode) (buffer : Buffer) (size offset : ℕ) (c : Cache)
    → IsValid c
    → IsIndexed (view c) c.fs_device.size inode
    → IsSeparate (view c) inode
    → inode.deny_write_cnt ≡ 0
    → 1 ≤ size
    → offset + size ≤ pos_part (inode_length inode)
    → (c' : Cache) × (c'' : Cache) × (inode_write_at true inode buffer (pos size) offset c
        ≡ some (wrote size c'))
      × IsValid c'
      × Writes (view c) (view c') c.fs_device.size inode buffer offset size 0
      × (inode_read_at true inode (pos size) offset c' ≡ some (bytes_from buffer 0 size, c''))
unfolding inode_write_at write_bytes
inode_write_at_lem inode buffer zero offset c v x y deny h le = absurd (omega (arith, h))
inode_write_at_lem inode buffer (suc n) offset c v x y deny h le =
    let V = view c in
    let z = c.fs_device.size in
    let start : Shown V z c = record { valid = v; same = refl; size = refl } in
    let last : inode_left inode (offset + n) ≢ 0 = omega (arith, le) in
    let below : ((offset + n) / 512) * 512 < pos_part (inode_length inode) = omega (arith, le) in
    let (c1, e1, v1) = block_to_sector_lem V z inode ((offset + n) / 512) c start x below in
    let (W, c2, e2, v2, w) =
      write_loop_lem (suc (suc n)) V z inode buffer (suc n) offset 0 c1 v1 x y le (omega arith) in
    let allowed : (inode.deny_write_cnt == 0) ≡ true = rw deny refl in
    let w' : Writes V (view c2) z inode buffer offset (suc n) 0 =
      subst (λ U. Writes V U z inode buffer offset (suc n) 0) (sym v2.same) w in
    let indexed = subst (λ k. IsIndexed (view c2) k inode) (sym v2.size) w'.indexed in
    let (c3, e3, unchanged) = inode_read_at_lem inode (suc n) offset c2 v2.valid indexed in
    let all : min (suc n) (inode_left inode offset) ≡ suc n = ground (arith, le) in
    let begin : offset ≡ offset + 0 = omega arith in
    let total : 0 + suc n ≡ suc n = omega arith in
    let from_sector = byte_to_sector-inside inode (offset + n) c last ∙ e1 in
    (
      c2,
      c3,
      if_true _ _ allowed ∙ (rw (last_byte offset n, from_sector, e2, total) refl),
      v2.valid,
      w',
      e3
          ∙ ap (λ l. some (l, c3))
              (ap (file_bytes (view c2) inode offset) all
                ∙ (ap (λ o. file_bytes (view c2) inode o (suc n)) begin
                    ∙ file_bytes-written V (view c2) z inode buffer offset (suc n) 0 (suc n) w' le
                        (omega arith))),
    )
