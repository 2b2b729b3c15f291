-- ===== src/Inode.antt =====
-- filesys/inode.c of pintos_pro3/src: the table of open inodes and the counts of each, without what
-- an inode's blocks are and how they are read and written. An address that malloc returns is an
-- argument, `none` for a null pointer. An inode whose open_cnt is 0 has been freed.
pub mod Open
pub mod Blocks
pub mod Read
pub mod Contents
pub mod Lookup
pub mod Whole
pub mod Write
pub mod Separate
pub mod Written
pub mod Rewrite
use sustech_cs.Prelude.{
  ℕ, zero, suc, ◌+◌, ◌-◌, Bool, true, false, Option, none, some, List, [], ◌∷◌, leb, ◌==◌,
  if◌then◌else◌, ◌>>=◌, update,
}
use sustech_cs.Klist.{list_remove}
use sustech_cs.Block.{Buffer}
use sustech_cs.Cache.{Cache, cache_read}

pub record Inode : Type 0 where
  pub sector : ℕ
  pub open_cnt : ℕ
  pub removed : Bool
  pub deny_write_cnt : ℕ
  pub content : Buffer

pub record File : Type 0 where
  pub inode : ℕ
  pub pos : ℕ
  pub deny_write : Bool

-- The memory of inodes and files, open_inodes, and the cache below. `deallocated` records the inodes
-- whose sectors inode_close gives back to the free map.
pub record Filesys : Type 0 where
  pub inode : ℕ → Inode
  pub file : ℕ → File
  pub open_inodes : List ℕ
  pub device : Cache
  pub deallocated : List ℕ

abbrev pub set_inode : ℕ → Inode → Filesys → Filesys
set_inode i v fs = record fs { inode = update fs.inode i v }

abbrev pub set_file : ℕ → File → Filesys → Filesys
set_file f v fs = record fs { file = update fs.file f v }

unfoldable pub inode_reopen : ℕ → Filesys → Filesys
inode_reopen i fs = set_inode i (record (fs.inode i) { open_cnt = (fs.inode i).open_cnt + 1 }) fs

-- The loop of inode_open over the open inodes.
unfoldable pub find_open : ℕ → List ℕ → Filesys → Option ℕ
find_open sector [] fs = none
find_open sector (i ∷ l) fs =
    let later = find_open sector l fs in if (fs.inode i).sector == sector then some i else later

-- inode_open, where malloc would return `memory`.
unfoldable pub inode_open : ℕ → Option ℕ → Filesys → Option (Option ℕ × Filesys)
inode_open sector memory fs = elim (find_open sector fs.open_inodes fs) [
  | some i ↦ some (some i, inode_reopen i fs)
  | none ↦ elim memory [
    | none ↦ some (none, fs)
    | some a ↦ do
      r ← cache_read sector fs.device
      let (content, device) = r
      some (
        some a,
        set_inode a
            (record {
              sector = sector;
              open_cnt = 1;
              removed = false;
              deny_write_cnt = 0;
              content = content;
            })
            (record fs { open_inodes = a ∷ fs.open_inodes; device = device }),
      )
  ]
]

unfoldable pub inode_close : ℕ → Filesys → Option Filesys
inode_close i fs =
    let closed = set_inode i (record (fs.inode i) { open_cnt = (fs.inode i).open_cnt - 1 }) fs in
    elim (fs.inode i).open_cnt [
      | zero ↦ none
      | suc n ↦
          if n == 0
          then some (record closed {
            open_inodes = list_remove i fs.open_inodes;
            deallocated = if (fs.inode i).removed then i ∷ fs.deallocated else fs.deallocated;
          })
          else some closed
    ]

unfoldable pub inode_remove : ℕ → Filesys → Filesys
inode_remove i fs = set_inode i (record (fs.inode i) { removed = true }) fs

unfoldable pub inode_deny_write : ℕ → Filesys → Option Filesys
inode_deny_write i fs =
    let count = (fs.inode i).deny_write_cnt + 1 in
    if leb count (fs.inode i).open_cnt
    then some (set_inode i (record (fs.inode i) { deny_write_cnt = count }) fs)
    else none

unfoldable pub inode_allow_write : ℕ → Filesys → Option Filesys
inode_allow_write i fs = elim (fs.inode i).deny_write_cnt [
  | zero ↦ none
  | suc count ↦
      if leb (suc count) (fs.inode i).open_cnt
      then some (set_inode i (record (fs.inode i) { deny_write_cnt = count }) fs)
      else none
]

unfoldable pub inode_get_inumber : Inode → ℕ
inode_get_inumber inode = inode.sector
