-- ===== src/File/Read.antt =====
-- The reading of open files in filesys/file.c: file_read, file_read_at and file_length.
use sustech_cs.Prelude.{ℕ, ◌+◌, Bool, Option, none, some, List, ◌>>=◌, length}
use sustech_cs.Prelude.Int.{ℤ}
use sustech_cs.Cache.{Cache}
use sustech_cs.Inode.{File, Filesys, set_file}
use sustech_cs.Inode.Blocks.{inode_length}
use sustech_cs.Inode.Read.{inode_read_at}

-- The state behind a read: the cache and the position have changed.
abbrev pub read_on : ℕ → File → ℕ → Cache → Filesys → Filesys
read_on f file n device fs =
    set_file f (record file { pos = file.pos + n }) (record fs { device = device })

-- The bytes that are read stand for the buffer and the count. `memory` is that of inode_read_at.
unfoldable pub file_read : Bool → ℕ → ℤ → Filesys → Option (List ℕ × Filesys)
file_read memory f size fs = do
  r ← inode_read_at memory (fs.inode (fs.file f).inode) size (fs.file f).pos fs.device
  let (bytes, device) = r
  some (bytes, read_on f (fs.file f) (length bytes) device fs)

unfoldable pub file_read_at : Bool → ℕ → ℤ → ℕ → Filesys → Option (List ℕ × Filesys)
file_read_at memory f size file_ofs fs = do
  r ← inode_read_at memory (fs.inode (fs.file f).inode) size file_ofs fs.device
  let (bytes, device) = r
  some (bytes, record fs { device = device })

-- Of a null pointer it panics.
unfoldable pub file_length : Option ℕ → Filesys → Option ℤ
file_length none fs = none
file_length (some f) fs = some (inode_length (fs.inode (fs.file f).inode))
