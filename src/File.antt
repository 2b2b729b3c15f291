-- ===== src/File.antt =====
-- filesys/file.c of pintos_pro3/src: open files, and which of them deny writes to their inode. The
-- children have the reads and writes.
pub mod Deny
pub mod Close
pub mod Read
pub mod Sequence
pub mod Write
use sustech_cs.Prelude.{ℕ, Bool, true, false, Option, none, some, if◌then◌else◌, ◌>>=◌}
use sustech_cs.Prelude.Int.{ℤ, pos, negsuc}
use sustech_cs.Inode.{
  File, Filesys, set_file, inode_reopen, inode_close, inode_deny_write, inode_allow_write,
}

-- file_open, where calloc would return `memory`. Without an inode or memory the inode is closed.
unfoldable pub file_open : Option ℕ → Option ℕ → Filesys → Option (Option ℕ × Filesys)
file_open none memory fs = some (none, fs)
file_open (some i) none fs = do fs' ← inode_close i fs; some (none, fs')
file_open (some i) (some f) fs =
    some (some f, set_file f (record { inode = i; pos = 0; deny_write = false }) fs)

unfoldable pub file_reopen : ℕ → Option ℕ → Filesys → Option (Option ℕ × Filesys)
file_reopen f memory fs =
    file_open (some (fs.file f).inode) memory (inode_reopen (fs.file f).inode fs)

unfoldable pub file_deny_write : ℕ → Filesys → Option Filesys
file_deny_write f fs =
    if (fs.file f).deny_write
    then some fs
    else inode_deny_write (fs.file f).inode
        (set_file f (record (fs.file f) { deny_write = true }) fs)

unfoldable pub file_allow_write : ℕ → Filesys → Option Filesys
file_allow_write f fs =
    if (fs.file f).deny_write
    then inode_allow_write (fs.file f).inode
        (set_file f (record (fs.file f) { deny_write = false }) fs)
    else some fs

-- A null pointer is ignored.
unfoldable pub file_close : Option ℕ → Filesys → Option Filesys
file_close none fs = some fs
file_close (some f) fs = do fs' ← file_allow_write f fs; inode_close (fs'.file f).inode fs'

unfoldable pub file_seek : ℕ → ℤ → Filesys → Option Filesys
file_seek f (pos n) fs = some (set_file f (record (fs.file f) { pos = n }) fs)
file_seek f (negsuc n) fs = none

unfoldable pub file_tell : ℕ → Filesys → ℕ
file_tell f fs = (fs.file f).pos

unfoldable pub is_deny_write : ℕ → Filesys → ℕ
is_deny_write f fs = if (fs.file f).deny_write then 1 else 0

unfoldable pub file_get_inode : ℕ → Filesys → ℕ
file_get_inode f fs = (fs.file f).inode
