-- ===== src/Syscall/Write.antt =====
-- write of userprog/syscall.c.
use sustech_cs.Prelude.{ℕ, Bool, none, some, ◌==◌, if◌then◌else◌}
use sustech_cs.Prelude.Int.{ℤ, pos, negsuc, eqb_ℤ}
use sustech_cs.FixedPoint.{signed}
use sustech_cs.Block.{Buffer}
use sustech_cs.Inode.{Filesys}
use sustech_cs.Inode.Write.{Write, wrote}
use sustech_cs.File.{is_deny_write}
use sustech_cs.File.Write.{file_write}
use sustech_cs.Process.Files.{get_file}
use sustech_cs.Syscall.{Outcome, returns, exits, ◌>>=◌, kernel, Caller, check_buffer}

-- The result, or that the file has to grow first.
pub data Answer : Type 0 where
  answers : ℤ → Caller → Answer
  grows : Caller → Answer

abbrev pub answer : Caller → Write Filesys → Outcome Answer
answer c (wrote n fs) = returns (answers (pos n) (record c { fs = fs }))
answer c (Write.grows fs) = returns (Answer.grows (record c { fs = fs }))

-- `source` is what the memory holds from `buffer` on. The console's output is not modelled.
unfoldable pub write : Bool → ℤ → ℕ → Buffer → ℕ → Caller → Outcome Answer
write memory fd buffer source size c =
    if buffer == 0
    then exits (negsuc 0)
    else if check_buffer c.pagedir buffer size
    then (if eqb_ℤ fd (pos 1)
        then returns (answers (signed size) c)
        else if eqb_ℤ fd (pos 0)
        then returns (answers (negsuc 0) c)
        else (do
          file ← kernel (get_file fd c.descriptors)
          elim file [
            | none ↦ returns (answers (negsuc 0) c)
            | some f ↦
                if is_deny_write f c.fs == 0
                then (do w ← kernel (file_write memory f source (signed size) c.fs); answer c w)
                else returns (answers (pos 0) c)
          ]))
    else exits (negsuc 0)
