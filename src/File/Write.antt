-- ===== src/File/Write.antt =====
-- The writing of open files in filesys/file.c: file_write and file_write_at.
use sustech_cs.Prelude.{ℕ, ◌+◌, Bool, Option, some, ◌>>=◌}
use sustech_cs.Prelude.Int.{ℤ}
use sustech_cs.Block.{Buffer}
use sustech_cs.Cache.{Cache}
use sustech_cs.Inode.{File, Filesys, set_file}
use sustech_cs.Inode.Write.{Write, wrote, grows, inode_write_at}

-- The state behind a write: the cache and the position have changed.
abbrev pub write_on : ℕ → File → ℕ → Cache → Filesys → Filesys
write_on f file n device fs =
    set_file f (record file { pos = file.pos + n }) (record fs { device = device })

unfoldable pub file_write : Bool → ℕ → Buffer → ℤ → Filesys → Option (Write Filesys)
file_write memory f buffer size fs = do
  w ← inode_write_at memory (fs.inode (fs.file f).inode) buffer size (fs.file f).pos fs.device
  elim w [
    | wrote n device ↦ some (wrote n (write_on f (fs.file f) n device fs))
    | grows device ↦ some (grows (record fs { device = device }))
  ]

unfoldable pub file_write_at : Bool → ℕ → Buffer → ℤ → ℕ → Filesys → Option (Write Filesys)
file_write_at memory f buffer size file_ofs fs = do
  w ← inode_write_at memory (fs.inode (fs.file f).inode) buffer size file_ofs fs.device
  elim w [
    | wrote n device ↦ some (wrote n (record fs { device = device }))
    | grows device ↦ some (grows (record fs { device = device }))
  ]
