-- ===== src/Inode/Whole.antt =====
-- inode_read_at as a read of the contents of the file.
use sustech_cs.Prelude.{
  ℕ, zero, suc, ◌+◌, ◌-◌, ◌*◌, ◌/◌, ◌%◌, ◌≤◌, ◌<◌, ◌≡◌, ◌≢◌, refl, ap, ◌∙◌, true, false, inl, inr,
  ◌&&◌, none, some, List, [], ◌++◌, ◌==◌, arith, Bool-cases, if_true, if_false, or_true, eq_of_==,
}
use sustech_cs.Prelude.Int.{pos, pos_part, ltb_ℤ}
use sustech_cs.Block.{Buffer}
use sustech_cs.Cache.{Cache, cache_read}
use sustech_cs.Cache.View.{IsValid, view}
use sustech_cs.Inode.{Inode}
use sustech_cs.Inode.Blocks.{inode_length, block_to_sector, byte_to_sector}
use sustech_cs.Inode.Read.{bytes_from, min, inode_left, chunk_size, read_loop, inode_read_at}
use sustech_cs.Inode.Contents.{sector_of, file_bytes, IsIndexed, file_bytes-sector, file_bytes-add}
use sustech_cs.Inode.Lookup.{Shown, cache_read-Shown, block_to_sector_lem}

-- A step that changes what no sector shows.
pub record Unchanged (c c' : Cache) : Type 0 where
  pub valid : IsValid c'
  pub same : (t : ℕ) → view c' t ≡ view c t
  pub size : c'.fs_device.size ≡ c.fs_device.size

pub byte_to_sector-inside :
    (inode : Inode) (offset : ℕ) (c : Cache)
    → inode_left inode offset ≢ 0
    → byte_to_sector true inode (pos offset) c ≡ block_to_sector true inode (offset / 512) c
unfolding byte_to_sector
byte_to_sector-inside inode offset c more =
    let inside : ltb_ℤ (pos offset) (inode_length inode) ≡ true = ground (arith, more) in
    if_true _ _ inside

byte_to_sector-behind :
    (inode : Inode) (offset : ℕ) (c : Cache)
    → inode_left inode offset ≡ 0
    → byte_to_sector true inode (pos offset) c ≡ some (none, c)
unfolding byte_to_sector
byte_to_sector-behind inode offset c end =
    let behind : ltb_ℤ (pos offset) (inode_length inode) ≡ false = ground (arith, end) in
    if_false _ _ behind

-- A round of the loop at the end of the file.
read_loop-end :
    (fuel n : ℕ) (inode : Inode) (offset : ℕ) (c : Cache)
    → inode_left inode offset ≡ 0
    → read_loop (suc fuel) true inode (suc n) offset c ≡ some ([], c)
unfolding read_loop
read_loop-end fuel n inode offset c end =
    let nothing : (chunk_size inode (suc n) offset == 0) ≡ true = ground (arith, end) in
    rw (byte_to_sector-behind inode offset c end) (if_true _ _ nothing)

-- A round of the loop before the end of the file.
read_loop-round :
    (fuel n : ℕ) (inode : Inode) (offset s : ℕ) (b : Buffer) (l : List ℕ) (c c1 c2 c3 : Cache)
    → inode_left inode offset ≢ 0
    → block_to_sector true inode (offset / 512) c ≡ some (some s, c1)
    → cache_read s c1 ≡ some (b, c2)
    → (let chunk = chunk_size inode (suc n) offset in
        read_loop fuel true inode (suc n - chunk) (offset + chunk) c2 ≡ some (l, c3))
    → read_loop (suc fuel) true inode (suc n) offset c
      ≡ some (bytes_from b (offset % 512) (chunk_size inode (suc n) offset) ++ l, c3)
unfolding read_loop
read_loop-round fuel n inode offset s b l c c1 c2 c3 more e1 e2 e3 =
    let some_bytes : (chunk_size inode (suc n) offset == 0) ≡ false = ground (arith, more) in
    rw (byte_to_sector-inside inode offset c more, e1)
      (rw
        (some_bytes, or_true (offset % 512 == 0 && chunk_size inode (suc n) offset == 512), e2, e3)
        refl)

pub read_loop-less :
    (fuel n : ℕ) (inode : Inode) (offset : ℕ)
    → inode_left inode offset ≢ 0
    → suc n < suc fuel
    → suc n - chunk_size inode (suc n) offset < fuel
read_loop-less fuel n inode offset left h = ground (arith, left, h)

-- What a round reads, and what is left to read behind it.
file_bytes-round :
    (V : ℕ → Buffer) (inode : Inode) (n offset : ℕ)
    → (let chunk = chunk_size inode (suc n) offset in
        bytes_from (V (sector_of V inode (offset / 512))) (offset % 512) chunk
          ++ file_bytes V inode
              (offset + chunk)
              (min (suc n - chunk) (inode_left inode (offset + chunk)))
        ≡ file_bytes V inode offset (min (suc n) (inode_left inode offset)))
file_bytes-round V inode n offset =
    let chunk = chunk_size inode (suc n) offset in
    let rest = min (suc n - chunk) (inode_left inode (offset + chunk)) in
    let fits : offset % 512 + chunk ≤ 512 = ground arith in
    let all : chunk + rest ≡ min (suc n) (inode_left inode offset) = ground arith in
    ap (λ l. l ++ file_bytes V inode (offset + chunk) rest)
      (file_bytes-sector V inode offset chunk fits)
    ∙ file_bytes-add V inode offset chunk rest _ all

pub read_loop_lem :
    (fuel : ℕ) (V : ℕ → Buffer) (z : ℕ) (inode : Inode) (size offset : ℕ) (c : Cache)
    → Shown V z c
    → IsIndexed V z inode
    → size < fuel
    → (c' : Cache) × (read_loop fuel true inode size offset c
        ≡ some (file_bytes V inode offset (min size (inode_left inode offset)), c'))
      × Shown V z c'
unfolding read_loop
read_loop_lem zero V z inode size offset c v x h = absurd (omega (arith, h))
read_loop_lem (suc fuel) V z inode zero offset c v x h =
    let nothing : min 0 (inode_left inode offset) ≡ 0 = ground arith in (c, rw nothing refl, v)
read_loop_lem (suc fuel) V z inode (suc n) offset c v x h =
    elim (Bool-cases (inode_left inode offset == 0)) [
      | inl end ↦
          let left : inode_left inode offset ≡ 0 = eq_of_== _ _ end in
          let nothing : min (suc n) (inode_left inode offset) ≡ 0 = ground (arith, left) in
          (c, read_loop-end fuel n inode offset c left ∙ rw nothing refl, v)
      | inr more ↦
          let left : inode_left inode offset ≢ 0 = ground (arith, more) in
          let i = offset / 512 in
          let below : i * 512 < pos_part (inode_length inode) = omega (arith, left) in
          let (c1, e1, v1) = block_to_sector_lem V z inode i c v x below in
          let (c2, e2, v2) = cache_read-Shown V z (sector_of V inode i) c1 v1 (x.blocks i below) in
          let chunk = chunk_size inode (suc n) offset in
          let (c3, e3, v3) =
            read_loop_lem fuel V z inode (suc n - chunk) (offset + chunk) c2 v2 x
              (read_loop-less fuel n inode offset left h) in
          (
            c3,
            read_loop-round fuel n inode offset _ _ _ c c1 c2 c3 left e1 e2 e3
                ∙ ap (λ l. some (l, c3)) (file_bytes-round V inode n offset),
            v3,
          )
    ]

-- inode_read_at, from a valid state, of an inode whose index names sectors of the device for the
-- blocks below its length, and with memory for a bounce buffer and for the index, succeeds: it
-- returns the bytes of the file from the offset on, as many as asked for or as there are, and
-- changes the contents of no sector.
pub inode_read_at_lem :
    (inode : Inode) (size offset : ℕ) (c : Cache)
    → IsValid c
    → IsIndexed (view c) c.fs_device.size inode
    → (c' : Cache) × (inode_read_at true inode (pos size) offset c
        ≡ some (file_bytes (view c) inode offset (min size (inode_left inode offset)), c'))
      × Unchanged c c'
unfolding inode_read_at
inode_read_at_lem inode size offset c v x =
    let (c', e, s) =
      read_loop_lem (suc size) (view c) c.fs_device.size inode size offset c
        (record { valid = v; same = refl; size = refl }) x (omega arith) in
    (c', e, record { valid = s.valid; same = λ t. ap (λ f. f t) s.same; size = s.size })
