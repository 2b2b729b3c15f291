-- ===== src/Tests/Inodes.antt =====
-- An inode of four bytes on the device of the cache, and the theorems on it.
use sustech_cs.Prelude.{
  ℕ, ◌*◌, ◌<◌, ◌≡◌, List, ◌++◌, refl, false, true, some, [], ◌∷◌, arith, ltb, sym, subst, ◌∙◌,
}
use sustech_cs.Prelude.Int.{pos}
use sustech_cs.Cache.{Cache, cache_find, find_from}
use sustech_cs.Cache.View.{IsValid, view}
use sustech_cs.Tests.Files.{a_cache, a_cache-IsValid}
use sustech_cs.Inode.{Inode, Filesys}
use sustech_cs.File.{file_tell, is_deny_write}
use sustech_cs.File.Read.{file_read}
use sustech_cs.File.Sequence.{file_read_twice}
use sustech_cs.Process.Files.{get_file}
use sustech_cs.Syscall.{Caller, returns, check_buffer}
use sustech_cs.Syscall.Write.{answers, write}
use sustech_cs.Syscall.Writing.{write_lem}
use sustech_cs.Inode.Blocks.{inode_length}
use sustech_cs.Inode.Read.{inode_read_at}
use sustech_cs.Inode.Contents.{IsIndexed, sector_of}
use sustech_cs.Inode.Write.{wrote, inode_write_at}
use sustech_cs.Inode.Separate.{IsSeparate}
use sustech_cs.Inode.Written.{Writes}
use sustech_cs.Inode.Rewrite.{inode_write_at_lem}
use sustech_cs.Inode.Whole.{Unchanged, inode_read_at_lem}

-- Its block is the sector 31.
abbrev small : Inode
small = record {
  sector = 8;
  open_cnt = 1;
  removed = false;
  deny_write_cnt = 0;
  content = 4 ∷ 0 ∷ 0 ∷ 0 ∷ 31 ∷ [];
}

-- The file has one block, and the sectors for more blocks are not used.
small_block : (i : ℕ) → i * 512 < 4 → i ≡ 0
small_block i h = omega (arith, h)

small-IsIndexed : IsIndexed (view a_cache) 1000 small
unfolding inode_length
small-IsIndexed = record {
  indirect = λ h. absurd (omega (arith, h));
  doubly = λ h. absurd (omega (arith, h));
  second = λ i behind h. absurd (omega (arith, behind, h));
  blocks = λ i h.
      subst (λ k. sector_of (view a_cache) small k < 1000) (sym (small_block i h)) (omega arith);
  holds = omega arith;
}

inode_read_at_example :
    (c' : Cache) × (inode_read_at true small (pos 100) 0 a_cache ≡ some (31 ∷ 0 ∷ 0 ∷ 0 ∷ [], c'))
    × Unchanged a_cache c'
unfolding inode_length find_from cache_find
inode_read_at_example = inode_read_at_lem small 100 0 a_cache a_cache-IsValid small-IsIndexed

-- A file system in which the file 1 is open on the inode.
abbrev open_small : Filesys
open_small = record {
  inode = λ i. small;
  file = λ f. record { inode = 8; pos = 0; deny_write = false };
  open_inodes = 8 ∷ [];
  device = a_cache;
  deallocated = [];
}

file_read_twice_example :
    (first second : List ℕ) × (fs1 fs2 fs3 : Filesys) × (file_read true 1 (pos 1) open_small
      ≡ some (first, fs1))
    × (file_read true 1 (pos 2) fs1 ≡ some (second, fs2))
    × (file_read true 1 (pos 3) open_small ≡ some (first ++ second, fs3))
    × (file_tell 1 fs2 ≡ file_tell 1 fs3)
file_read_twice_example = file_read_twice 1 1 2 open_small a_cache-IsValid small-IsIndexed

-- A process that has the file open under the descriptor 2.
abbrev caller : Caller
caller = record {
  descriptors = record {
    file_list = record { process_file = 1; fd = 2 } ∷ [];
    fd = 3;
    file_num = 1;
  };
  pagedir = λ ptr. true;
  writable = λ ptr. ltb ptr 134524928;
  fs = open_small;
}

caller_names : get_file (pos 2) caller.descriptors ≡ some (some 1)
unfolding get_file
caller_names = refl

small-IsSeparate : IsSeparate (view a_cache) small
unfolding inode_length
small-IsSeparate = record {
  apart = λ i j h h' e. small_block i h ∙ sym (small_block j h');
  indirect = λ i h used e. omega (arith, used);
  doubly = λ i h used e. omega (arith, used);
  second = λ i j h behind h' e. omega (arith, behind, h');
}

inode_write_at_example :
    (c' : Cache) × (c'' : Cache) × (inode_write_at true small (7 ∷ 8 ∷ []) (pos 2) 1 a_cache
      ≡ some (wrote 2 c'))
    × IsValid c'
    × Writes (view a_cache) (view c') 1000 small (7 ∷ 8 ∷ []) 1 2 0
    × (inode_read_at true small (pos 2) 1 c' ≡ some (7 ∷ 8 ∷ [], c''))
unfolding inode_length
inode_write_at_example =
    inode_write_at_lem small (7 ∷ 8 ∷ []) 2 1 a_cache a_cache-IsValid small-IsIndexed
      small-IsSeparate refl (omega arith) (omega arith)

caller_buffer : check_buffer caller.pagedir 134520832 2 ≡ true
unfolding check_buffer
caller_buffer = refl

write_example :
    (c' : Caller) × (write true (pos 2) 134520832 (7 ∷ 8 ∷ []) 2 caller
      ≡ returns (answers (pos 2) c'))
    × (file_tell 1 c'.fs ≡ 2)
    × (c'.descriptors ≡ caller.descriptors)
    × IsValid c'.fs.device
    × Writes (view a_cache) (view c'.fs.device) 1000 small (7 ∷ 8 ∷ []) 0 2 0
unfolding inode_length is_deny_write
write_example =
    write_lem (pos 2) 134520832 (7 ∷ 8 ∷ []) 2 1 caller (omega arith) (omega arith) refl refl
      caller_buffer caller_names refl refl a_cache-IsValid small-IsIndexed small-IsSeparate
      (omega arith)
