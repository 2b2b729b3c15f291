-- ===== src/Tests/Files.antt =====
-- A cache with one dirty entry, a file system with two open files, and the theorems on them.
use sustech_cs.Prelude.{
  ℕ, ◌<◌, ◌≡◌, refl, true, false, none, some, [], ◌∷◌, arith, ◌==◌, if◌then◌else◌,
}
use sustech_cs.Block.{Block}
use sustech_cs.Cache.{Cache, cache_read, cache_write, cache_close, cache_replace_find}
use sustech_cs.Cache.View.{IsValid, view}
use sustech_cs.Cache.Steps.{Kept}
use sustech_cs.Cache.Clock.{cache_replace_find_lem}
use sustech_cs.Cache.Ops.{cache_read_lem, cache_write_lem, cache_past_end}
use sustech_cs.Cache.Close.{cache_close_lem}
use sustech_cs.Inode.{Filesys, find_open, inode_open, inode_reopen}
use sustech_cs.File.Deny.{IsAccounted}

abbrev disk : Block
disk = record {
  size = 1000;
  is_foreign = false;
  content = λ s. s ∷ [];
  read_cnt = 0;
  write_cnt = 0;
}

abbrev pub a_cache : Cache
a_cache = record {
  cache = λ i. record {
    valid = i == 5;
    disk_sector = 30;
    buffer = 7 ∷ 7 ∷ [];
    dirty = true;
    access = true;
  };
  clock = 5;
  fs_device = disk;
}

pub a_cache-IsValid : IsValid a_cache
a_cache-IsValid = record {
  clock_below = omega arith;
  unique = λ i j s h g. ground (arith, h.valid, g.valid);
  clean = λ i s h d. ground (arith, d);
  exists = λ i s h. ground (arith, h.sector);
  writable = refl;
}

cache_replace_find_example :
    (i : ℕ) × (c' : Cache) × (cache_replace_find a_cache ≡ some (i, c'))
    × (i < 64)
    × ((c'.cache i).valid ≡ false)
    × Kept a_cache c'
cache_replace_find_example = cache_replace_find_lem a_cache a_cache-IsValid

cache_read_example :
    (c' : Cache) × (cache_read 31 a_cache ≡ some (view a_cache 31, c'))
    × IsValid c'
    × ((t : ℕ) → view c' t ≡ view a_cache t)
    × (c'.fs_device.size ≡ 1000)
cache_read_example = cache_read_lem 31 a_cache a_cache-IsValid (omega arith)

cache_write_example :
    (c' : Cache) × (cache_write 31 (4 ∷ []) a_cache ≡ some c')
    × IsValid c'
    × ((t : ℕ) → view c' t ≡ (if 31 == t then 4 ∷ [] else view a_cache t))
    × (c'.fs_device.size ≡ 1000)
cache_write_example = cache_write_lem 31 (4 ∷ []) a_cache a_cache-IsValid (omega arith)

cache_past_end_example : (cache_read 1000 a_cache ≡ none) × (cache_write 1000 [] a_cache ≡ none)
cache_past_end_example = cache_past_end 1000 [] a_cache a_cache-IsValid (omega arith)

cache_close_example :
    (c' : Cache) × (cache_close a_cache ≡ some c')
    × IsValid c'
    × ((s : ℕ) → (c'.fs_device.content s ≡ view a_cache s) × (view c' s ≡ view a_cache s))
cache_close_example = cache_close_lem a_cache a_cache-IsValid

-- The files 1 and 2 are open on the inode 8, and file 1 denies writes.
abbrev pub files : Filesys
files = record {
  inode = λ i. record {
    sector = i;
    open_cnt = if i == 8 then 2 else 0;
    removed = false;
    deny_write_cnt = if i == 8 then 1 else 0;
    content = [];
  };
  file = λ f. record { inode = 8; pos = 0; deny_write = f == 1 };
  open_inodes = 8 ∷ [];
  device = a_cache;
  deallocated = [];
}

pub files-IsAccounted : IsAccounted files (1 ∷ 2 ∷ [])
files-IsAccounted = record {
  once = λ f. ground arith;
  denials = λ i. ground arith;
  opens = λ i. ground arith;
}

inode_open_once : inode_open 8 none files ≡ some (some 8, inode_reopen 8 files)
unfolding inode_open find_open
inode_open_once = refl
