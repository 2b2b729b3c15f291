-- ===== src/Process/Files.antt =====
-- The file descriptors of a process: add_file, get_file and close_file of userprog/process.c, and
-- the loop of thread_exit that closes every file (threads/thread.c). A file control block is a page,
-- and `memory` says whether palloc_get_page gives one.
use sustech_cs.Prelude.{
  ℕ, zero, suc, ◌+◌, ◌-◌, Bool, true, false, Option, none, some, List, [], ◌∷◌, ◌++◌, ltb, ◌==◌,
  if◌then◌else◌, ◌>>=◌,
}
use sustech_cs.Prelude.Int.{ℤ, pos, negsuc}
use sustech_cs.Inode.{Filesys}
use sustech_cs.File.{file_close}

pub record FileControlBlock : Type 0 where
  pub process_file : ℕ
  pub fd : ℕ

-- The fields of struct thread that the functions use.
pub record Descriptors : Type 0 where
  pub file_list : List FileControlBlock
  pub fd : ℕ
  pub file_num : ℕ

-- init_thread: the first descriptor is 2.
abbrev pub init_descriptors : Descriptors
init_descriptors = record { file_list = []; fd = 2; file_num = 0 }

unfoldable pub add_file : Bool → ℕ → Descriptors → ℤ × Descriptors
add_file false f t = (negsuc 0, t)
add_file true f t =
    let fc : FileControlBlock = record { process_file = f; fd = t.fd } in
    (
      pos t.fd,
      record { file_list = t.file_list ++ fc ∷ []; fd = t.fd + 1; file_num = t.file_num + 1 },
    )

-- The loop of get_file and of close_file: the first block of the descriptor. It runs over a copy of
-- the list's header, whose tail no element leads to, so that behind the last element it goes on to
-- the next of the tail, where list_next fails its ASSERT: `none`.
abbrev pub find_fd : ℕ → List FileControlBlock → Option FileControlBlock
find_fd fd [] = none
find_fd fd (fc ∷ l) = let rest = find_fd fd l in if fc.fd == fd then some fc else rest

-- list_remove of the block that find_fd finds.
abbrev pub remove_fd : ℕ → List FileControlBlock → List FileControlBlock
remove_fd fd [] = []
remove_fd fd (fc ∷ l) = let rest = remove_fd fd l in if fc.fd == fd then l else fc ∷ rest

-- `some none` is the null pointer.
unfoldable pub get_file : ℤ → Descriptors → Option (Option ℕ)
get_file (negsuc n) t = some none
get_file (pos fd) t =
    if ltb t.fd fd then some none else (do fc ← find_fd fd t.file_list; some (some fc.process_file))

unfoldable pub close_file : ℤ → Descriptors → Filesys → Option (Bool × Descriptors × Filesys)
close_file (negsuc n) t fs = some (false, t, fs)
close_file (pos fd) t fs =
    if ltb t.fd fd
    then some (false, t, fs)
    else if t.file_num == 0
    then some (false, t, fs)
    else (do
      fc ← find_fd fd t.file_list
      fs' ← file_close (some fc.process_file) fs
      some
          (true, record t { file_list = remove_fd fd t.file_list; file_num = t.file_num - 1 }, fs'))

-- The loop of thread_exit, by `file_num`. list_pop_front of an empty list fails its ASSERT.
unfoldable pub close_files :
    ℕ → List FileControlBlock → Filesys → Option (List FileControlBlock × Filesys)
close_files zero l fs = some (l, fs)
close_files (suc n) [] fs = none
close_files (suc n) (fc ∷ l) fs = do fs' ← file_close (some fc.process_file) fs; close_files n l fs'

unfoldable pub exit_files : Descriptors → Filesys → Option (Descriptors × Filesys)
exit_files t fs = do
  r ← close_files t.file_num t.file_list fs
  let (l, fs') = r
  some (record t { file_list = l; file_num = 0 }, fs')
