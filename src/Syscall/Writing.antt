-- ===== src/Syscall/Writing.antt =====
-- write from the descriptor down to the sectors.
use sustech_cs.Prelude.{
  ℕ, zero, suc, ◌+◌, ◌≤◌, ◌<◌, ◌^◌, ◌≡◌, refl, ap, Bool, true, false, some, ◌==◌, arith, if_true,
  ==_refl, ◌&&◌,
}
use sustech_cs.Prelude.Int.{ℤ, pos, pos_part, eqb_ℤ}
use sustech_cs.FixedPoint.{signed}
use sustech_cs.Block.{Buffer}
use sustech_cs.Cache.{Cache}
use sustech_cs.Cache.View.{IsValid, view}
use sustech_cs.Inode.{File, Filesys}
use sustech_cs.Inode.Blocks.{inode_length}
use sustech_cs.Inode.Contents.{IsIndexed}
use sustech_cs.Inode.Write.{wrote, inode_write_at}
use sustech_cs.Inode.Separate.{IsSeparate}
use sustech_cs.Inode.Written.{Writes}
use sustech_cs.Inode.Rewrite.{inode_write_at_lem}
use sustech_cs.File.{file_tell, is_deny_write}
use sustech_cs.File.Write.{write_on, file_write}
use sustech_cs.Process.Files.{get_file}
use sustech_cs.Syscall.{Caller, returns, check_buffer}
use sustech_cs.Syscall.Reading.{not_null}
use sustech_cs.Syscall.Write.{answers, write}

left_of : (a b : Bool) → (a && b) ≡ true → a ≡ true
left_of true b e = refl
left_of false b e = e

check_buffer_null :
    (pagedir : ℕ → Bool) (buffer n : ℕ)
    → 1 ≤ n
    → check_buffer pagedir buffer n ≡ true
    → (buffer == 0) ≡ false
unfolding check_buffer
check_buffer_null pagedir buffer zero h e = absurd (omega (arith, h))
check_buffer_null pagedir buffer (suc n) h e = not_null pagedir buffer (left_of _ _ e)

file_tell-write_on :
    (f : ℕ) (file : File) (n : ℕ) (c : Cache) (fs : Filesys)
    → file_tell f (write_on f file n c fs) ≡ file.pos + n
unfolding file_tell
file_tell-write_on f file n c fs =
    ap (λ (x : File). x.pos) (if_true (record file { pos = file.pos + n }) (fs.file f) (==_refl f))

file_write-write_on :
    (f n : ℕ) (source : Buffer) (fs : Filesys) (d : Cache)
    → inode_write_at true (fs.inode (fs.file f).inode) source (pos n) (fs.file f).pos fs.device
      ≡ some (wrote n d)
    → file_write true f source (pos n) fs ≡ some (wrote n (write_on f (fs.file f) n d fs))
unfolding file_write
file_write-write_on f n source fs d e = rw e refl

-- write of `n` bytes, at least one and fewer than 2 ^ 31, from a buffer that passes the checks, to
-- a descriptor other than those of the console, by which get_file finds a file that does not deny
-- writes and on whose inode they are not denied, where the bytes lie inside the file, from a valid
-- state of the cache, where the inode's index names different sectors of the device for the blocks
-- below its length, and with memory for a bounce buffer and for the index: it returns `n` and moves
-- the position of the file by as much; the descriptors stay, and the file has the bytes of the
-- buffer from the old position on and elsewhere what it had.
pub write_lem :
    (fd : ℤ) (buffer : ℕ) (source : Buffer) (n f : ℕ) (c : Caller)
    → 1 ≤ n
    → n < 2 ^ 31
    → eqb_ℤ fd (pos 1) ≡ false
    → eqb_ℤ fd (pos 0) ≡ false
    → check_buffer c.pagedir buffer n ≡ true
    → get_file fd c.descriptors ≡ some (some f)
    → is_deny_write f c.fs ≡ 0
    → (c.fs.inode (c.fs.file f).inode).deny_write_cnt ≡ 0
    → IsValid c.fs.device
    → IsIndexed (view c.fs.device) c.fs.device.fs_device.size (c.fs.inode (c.fs.file f).inode)
    → IsSeparate (view c.fs.device) (c.fs.inode (c.fs.file f).inode)
    → (c.fs.file f).pos + n ≤ pos_part (inode_length (c.fs.inode (c.fs.file f).inode))
    → (c' : Caller) × (write true fd buffer source n c ≡ returns (answers (pos n) c'))
      × (file_tell f c'.fs ≡ (c.fs.file f).pos + n)
      × (c'.descriptors ≡ c.descriptors)
      × IsValid c'.fs.device
      × Writes
          (view c.fs.device)
          (view c'.fs.device)
          c.fs.device.fs_device.size
          (c.fs.inode (c.fs.file f).inode)
          source
          (c.fs.file f).pos
          n
          0
unfolding write
write_lem fd buffer source n f c h small console input checked named allowed free v x y inside =
    let file = c.fs.file f in
    let inode = c.fs.inode file.inode in
    let (d, d', e, v', w, back) =
      inode_write_at_lem inode source n file.pos c.fs.device v x y free h inside in
    let size : signed n ≡ pos n = ground (arith, small) in
    let null = check_buffer_null c.pagedir buffer n h checked in
    let open_to : (is_deny_write f c.fs == 0) ≡ true = rw allowed refl in
    let made = file_write-write_on f n source c.fs d e in
    (
      record c { fs = write_on f file n d c.fs },
      rw (null, checked, console, input, named, open_to, size, made) refl,
      file_tell-write_on f file n d c.fs,
      refl,
      v',
      w,
    )
