-- ===== src/Cache.antt =====
-- filesys/cache.c of pintos_pro3/src: the buffer cache of 64 sectors with clock replacement. Each
-- entry point holds cache_lock from its first to its last line, so it is one step.
pub mod View
pub mod Steps
pub mod Clock
pub mod Entry
pub mod Ops
pub mod Close
use sustech_cs.Prelude.{
  ℕ, zero, suc, ◌+◌, ◌%◌, Bool, true, false, ◌&&◌, Option, none, some, ltb, ◌==◌, if◌then◌else◌,
  ◌>>=◌, update,
}
use sustech_cs.Block.{Buffer, Block, block_read, block_write}

abbrev pub cache_size : ℕ
cache_size = 64

pub record CacheEntry : Type 0 where
  pub valid : Bool
  pub disk_sector : ℕ
  pub buffer : Buffer
  pub dirty : Bool
  pub access : Bool

-- The array `cache`, the static variable `clock` of cache_replace_find, and fs_device.
pub record Cache : Type 0 where
  pub cache : ℕ → CacheEntry
  pub clock : ℕ
  pub fs_device : Block

abbrev pub set_entry : ℕ → CacheEntry → Cache → Cache
set_entry i e c = record c { cache = update c.cache i e }

unfoldable pub cache_flush : ℕ → Cache → Option Cache
cache_flush i c =
    let ce = c.cache i in
    if ce.valid
    then (if ce.dirty
        then (do
          device ← block_write ce.disk_sector ce.buffer c.fs_device
          some (set_entry i (record ce { dirty = false }) (record c { fs_device = device })))
        else some c)
    else none

-- The loop of cache_find from entry `i`, with `n` entries to go.
unfoldable pub find_from : ℕ → ℕ → ℕ → Cache → Option ℕ
find_from sector i zero c = none
find_from sector i (suc n) c =
    let later = find_from sector (suc i) n c in
    if (c.cache i).valid && (c.cache i).disk_sector == sector then some i else later

unfoldable pub cache_find : ℕ → Cache → Option ℕ
cache_find sector c = find_from sector 0 cache_size c

-- The loop of cache_replace_find, on fuel. It leaves the clock at the entry that it has found.
unfoldable pub replace_loop : ℕ → Cache → Option Cache
replace_loop zero c = none
replace_loop (suc n) c =
    let ce = c.cache c.clock in
    let rest = replace_loop n (record (set_entry c.clock (record ce { access = false }) c) {
      clock = (c.clock + 1) % cache_size;
    }) in
    if ce.valid then (if ce.access then rest else some c) else some c

unfoldable pub cache_replace_find : Cache → Option (ℕ × Cache)
cache_replace_find c = do
  found ← replace_loop (suc cache_size) c
  let i = found.clock
  if (found.cache i).valid
      then (do
        flushed ← if (found.cache i).dirty then cache_flush i found else some found
        some (i, set_entry i (record (flushed.cache i) { valid = false }) flushed))
      else some (i, found)

unfoldable pub cache_init : Cache → Cache
cache_init c = record c {
  cache = λ i. if ltb i cache_size then record (c.cache i) { valid = false } else c.cache i;
}

-- The loop of cache_close from entry `i`, with `n` entries to go.
unfoldable pub close_from : ℕ → ℕ → Cache → Option Cache
close_from i zero c = some c
close_from i (suc n) c = do
  c' ← if (c.cache i).valid then cache_flush i c else some c
  close_from (suc i) n c'

unfoldable pub cache_close : Cache → Option Cache
cache_close c = close_from 0 cache_size c

-- The entry of a sector, read from the disk if it has none: the common part of cache_read and
-- cache_write.
unfoldable pub cache_entry : ℕ → Cache → Option (ℕ × Cache)
cache_entry sector c = elim (cache_find sector c) [
  | some i ↦ some (i, c)
  | none ↦ do
    r ← cache_replace_find c
    let (i, c') = r
    if (c'.cache i).valid then none else (do
      d ← block_read sector c'.fs_device
      let (content, device) = d
      some (
        i,
        set_entry i
            (record (c'.cache i) {
              valid = true;
              disk_sector = sector;
              dirty = false;
              buffer = content;
            })
            (record c' { fs_device = device }),
      ))
]

unfoldable pub cache_read : ℕ → Cache → Option (Buffer × Cache)
cache_read sector c = do
  r ← cache_entry sector c
  let (i, c') = r
  let read = record (c'.cache i) { access = true }
  some (read.buffer, set_entry i read c')

unfoldable pub cache_write : ℕ → Buffer → Cache → Option Cache
cache_write sector source c = do
  r ← cache_entry sector c
  let (i, c') = r
  some (set_entry i (record (c'.cache i) { access = true; dirty = true; buffer = source }) c')
