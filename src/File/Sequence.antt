-- ===== src/File/Sequence.antt =====
-- Reads of a file one after another.
use sustech_cs.Prelude.{
  ℕ, zero, suc, ◌+◌, ◌≡◌, refl, sym, ap, ◌∙◌, true, some, List, ◌++◌, length, arith, if_true,
  ==_refl,
}
use sustech_cs.Prelude.Int.{pos}
use sustech_cs.Block.{Buffer}
use sustech_cs.Cache.{Cache}
use sustech_cs.Cache.View.{IsValid, view}
use sustech_cs.Inode.{Inode, File, Filesys}
use sustech_cs.Inode.Read.{inode_read_at, min, inode_left}
use sustech_cs.Inode.Contents.{file_bytes, IsIndexed, file_bytes-add}
use sustech_cs.Inode.Lookup.{Shown}
use sustech_cs.Inode.Whole.{read_loop_lem}
use sustech_cs.File.{file_tell}
use sustech_cs.File.Read.{read_on, file_read}

pub length-file_bytes :
    (V : ℕ → Buffer) (inode : Inode) (offset n : ℕ) → length (file_bytes V inode offset n) ≡ n
length-file_bytes V inode offset zero = refl
length-file_bytes V inode offset (suc n) = ap suc (length-file_bytes V inode (suc offset) n)

-- How many bytes a read of `n` gives.
abbrev pub got : Filesys → File → ℕ → ℕ
got fs file n = min n (inode_left (fs.inode file.inode) file.pos)

pub file_read_lem :
    (V : ℕ → Buffer) (z f n : ℕ) (file : File) (fs : Filesys)
    → fs.file f ≡ file
    → Shown V z fs.device
    → IsIndexed V z (fs.inode file.inode)
    → (c : Cache) × (file_read true f (pos n) fs
        ≡ some (
          file_bytes V (fs.inode file.inode) file.pos (got fs file n),
          read_on f file (got fs file n) c fs,
        ))
      × Shown V z c
unfolding file_read inode_read_at
file_read_lem V z f n file fs same v x =
    let inode = fs.inode file.inode in
    let (c, e, s) = read_loop_lem (suc n) V z inode n file.pos fs.device v x (omega arith) in
    let k = min n (inode_left inode file.pos) in
    (
      c,
      rw (same, e)
          (ap
            (λ k. some (
              file_bytes V inode file.pos (min n (inode_left inode file.pos)),
              read_on f file k c fs,
            ))
            (length-file_bytes V inode file.pos k)),
      s,
    )

pub file_tell-read_on :
    (f : ℕ) (file : File) (n : ℕ) (c : Cache) (fs : Filesys)
    → file_tell f (read_on f file n c fs) ≡ file.pos + n
unfolding file_tell
file_tell-read_on f file n c fs =
    ap (λ (x : File). x.pos) (if_true (record file { pos = file.pos + n }) (fs.file f) (==_refl f))

-- file_read twice, from a valid state of the cache, of an open file whose index names sectors of
-- the device for the blocks below its length, with memory for bounce buffers and for the index: the
-- second goes on where the first ended, and both together read what one read of both sizes would,
-- and leave the file at the same position.
pub file_read_twice :
    (f n m : ℕ) (fs : Filesys)
    → IsValid fs.device
    → IsIndexed (view fs.device) fs.device.fs_device.size (fs.inode (fs.file f).inode)
    → (first second : List ℕ) × (fs1 fs2 fs3 : Filesys) × (file_read true f (pos n) fs
        ≡ some (first, fs1))
      × (file_read true f (pos m) fs1 ≡ some (second, fs2))
      × (file_read true f (pos (n + m)) fs ≡ some (first ++ second, fs3))
      × (file_tell f fs2 ≡ file_tell f fs3)
file_read_twice f n m fs v x =
    let V = view fs.device in
    let z = fs.device.fs_device.size in
    let file = fs.file f in
    let inode = fs.inode file.inode in
    let start : Shown V z fs.device = record { valid = v; same = refl; size = refl } in
    let (c1, e1, s1) = file_read_lem V z f n file fs refl start x in
    let k1 = min n (inode_left inode file.pos) in
    let fs1 = read_on f file k1 c1 fs in
    let file1 : File = record file { pos = file.pos + k1 } in
    let (c2, e2, s2) = file_read_lem V z f m file1 fs1 (if_true _ _ (==_refl f)) s1 x in
    let k2 = min m (inode_left inode (file.pos + k1)) in
    let (c3, e3, s3) = file_read_lem V z f (n + m) file fs refl start x in
    let k3 = min (n + m) (inode_left inode file.pos) in
    let position : file.pos + k1 + k2 ≡ file.pos + k3 = ground arith in
    let sum : k1 + k2 ≡ k3 = ground arith in
    (
      _,
      _,
      fs1,
      _,
      _,
      e1,
      e2,
      e3
          ∙ ap (λ l. some (l, read_on f file k3 c3 fs))
              (sym (file_bytes-add V inode file.pos k1 k2 k3 sum)),
      file_tell-read_on f file1 k2 c2 fs1 ∙ position ∙ sym (file_tell-read_on f file k3 c3 fs),
    )
