-- ===== src/Tests/Processes.antt =====
-- A process with two open files, a program with two arguments, and a machine whose state is the list
-- of the pages that are installed.
use sustech_cs.Prelude.{
  ℕ, ◌+◌, ◌/◌, ◌%◌, ◌<◌, ◌≡◌, ◌≢◌, ◌^◌, refl, Bool, true, false, if◌then◌else◌, ◌==◌, none, some,
  List, [], ◌∷◌, ◌++◌, arith, All, subst, some-injective,
}
use sustech_cs.Prelude.Int.{ℤ, pos}
use sustech_cs.Inode.{Filesys, inode_close}
use sustech_cs.File.{file_close, file_allow_write}
use sustech_cs.File.Deny.{IsAccounted}
use sustech_cs.Tests.Files.{files, files-IsAccounted}
use sustech_cs.Process.Files.{Descriptors, add_file, get_file, close_file, exit_files}
use sustech_cs.Process.Descriptors.{
  IsValid, add_file_lem, close_file_lem, get_file_missing, exit_files_lem,
}
use sustech_cs.Process.Blocks.{count_fd}
use sustech_cs.Process.Stack.{Stack, setup_argument}
use sustech_cs.Process.Memory.{IsWords, IsKept}
use sustech_cs.Process.Arguments.{IsStrings, setup_argument_lem}
use sustech_cs.Process.Segment.{Phdr, segment_of}
use sustech_cs.Process.Region.{IsLoadable}
use sustech_cs.Process.Load.{Machine, load_segment, Ehdr, load_image}
use sustech_cs.Process.Pages.{pages_from, fill_pages, load_segment_lem}
use sustech_cs.Process.Children.{
  ChildProcess, returns, blocks, wait_resume, process_wait, may_wait, wait_test, begin_wait,
  set_child, mark_waited, exit_child,
}
use sustech_cs.Process.Wait.{process_wait_lem}
use sustech_cs.Syscall.{check_buffer}
use sustech_cs.Syscall.Pointers.{check_buffer_lem}
use sustech_cs.Process.UserPages.{IsUserPage, Keeps, load_image_lem}

-- The files 1 and 2 have the descriptors 2 and 3.
abbrev two_files : Descriptors
two_files = record {
  file_list = record { process_file = 1; fd = 2 } ∷ record { process_file = 2; fd = 3 } ∷ [];
  fd = 4;
  file_num = 2;
}

two_files-IsValid : IsValid two_files
two_files-IsValid = record {
  once = λ fd. ground arith;
  standard = λ fd b. ground (arith, b);
  fresh = λ fd b. ground (arith, b);
  started = omega arith;
  num = refl;
}

add_file_example :
    (t' : Descriptors) × (add_file true 9 two_files ≡ (pos 4, t'))
    × (count_fd 4 two_files.file_list ≡ 0)
    × (get_file (pos 4) t' ≡ some (some 9))
    × ((g : ℕ) → g < 4 → get_file (pos g) t' ≡ get_file (pos g) two_files)
    × IsValid t'
add_file_example = add_file_lem 9 two_files two_files-IsValid

abbrev after_close : Filesys
after_close = elim (file_close (some 2) files) [ none ↦ files | some fs ↦ fs ]

file_2_named : get_file (pos 3) two_files ≡ some (some 2)
unfolding get_file
file_2_named = refl

file_2_closed : file_close (some 2) files ≡ some after_close
unfolding file_close file_allow_write inode_close
file_2_closed = refl

close_file_example :
    (t' : Descriptors) × (close_file (pos 3) two_files files ≡ some (true, t', after_close))
    × (count_fd 3 t'.file_list ≡ 0)
    × ((g : ℕ) → get_file (pos g) t' ≡ (if 3 == g then none else get_file (pos g) two_files))
    × IsValid t'
close_file_example =
    close_file_lem 3 2 two_files files after_close two_files-IsValid file_2_named file_2_closed

two_files-some : two_files.file_num ≢ 0
two_files-some e = omega (arith, e)

get_file_missing_example :
    (get_file (pos 4) two_files ≡ none)
    × (two_files.file_num ≢ 0 → close_file (pos 4) two_files files ≡ none)
    × (two_files.file_num ≡ 0 → close_file (pos 4) two_files files ≡ some (false, two_files, files))
get_file_missing_example = get_file_missing 4 two_files files (omega arith) refl

exit_files_example :
    (t' : Descriptors) × (fs' : Filesys) × (exit_files two_files files ≡ some (t', fs'))
    × (t'.file_list ≡ [])
    × IsAccounted fs' []
exit_files_example = exit_files_lem two_files [] files two_files-IsValid files-IsAccounted

-- "ls" and "-l", and the stack of a new process.
abbrev arguments : List (List ℕ)
arguments = (108 ∷ 115 ∷ []) ∷ (45 ∷ 108 ∷ []) ∷ []

abbrev stack : Stack
stack = record { esp = 3221225472; memory = λ a. 0 }

setup_argument_example :
    (let s' = setup_argument arguments stack in
      (l : List ℕ) × IsWords s'.memory s'.esp (0 ∷ 2 ∷ (s'.esp + 12) ∷ l ++ 0 ∷ [])
      × IsStrings s'.memory l arguments
      × (s'.esp % 4 ≡ 0)
      × IsKept 3221225472 stack.memory s'.memory)
setup_argument_example = setup_argument_lem arguments stack (omega arith) (omega arith)

-- A segment of two pages and a half from the middle of a page on, of which 5000 bytes are read.
abbrev phdr : Phdr
phdr = record {
  p_type = 1;
  p_offset = 6144;
  p_vaddr = 134514688;
  p_filesz = 5000;
  p_memsz = 10240;
  p_flags = 6;
}

phdr-IsLoadable : IsLoadable phdr 20000
phdr-IsLoadable = record {
  same_offset = refl;
  in_file = omega arith;
  fits = omega arith;
  more = omega arith;
  above = omega arith;
  below = omega arith;
}

abbrev machine : Machine (List ℕ)
machine = record {
  palloc_get_page = λ s. (some 3222274048, s);
  palloc_free_page = λ k s. s;
  file_length = λ s. pos 20000;
  file_seek = λ n s. s;
  file_read = λ k n s. (pos n, s);
  read_phdr = λ s. (some phdr, s);
  memset_zero = λ k n s. s;
  install_page = λ u k w s. (true, u ∷ s);
}

load_segment_example :
    (let seg = segment_of phdr in
      load_segment machine seg []
      ≡ some (
          fill_pages machine
            (pages_from seg.mem_page seg.read_bytes 0 ((seg.read_bytes + seg.zero_bytes) / 4096))
            seg.writable
            []))
load_segment_example = load_segment_lem machine phdr 20000 [] phdr-IsLoadable

machine-Keeps : Keeps machine (All IsUserPage)
machine-Keeps = record {
  get_page = λ s p. p;
  free_page = λ k s p. p;
  seek = λ n s p. p;
  read = λ k n s p. p;
  header = λ s p. p;
  memset = λ k n s p. p;
  install = λ u k w s user p. (user, p);
  words = λ s h e.
      subst (λ x. (x.p_vaddr < 2 ^ 32) × (x.p_memsz < 2 ^ 32)) (some-injective phdr h e)
        (omega arith, omega arith);
}

abbrev header : Ehdr
header = record {
  e_ident = 127 ∷ 69 ∷ 76 ∷ 70 ∷ 1 ∷ 1 ∷ 1 ∷ [];
  e_type = 2;
  e_machine = 3;
  e_version = 1;
  e_phoff = 52;
  e_phentsize = 32;
  e_phnum = 2;
}

load_image_example :
    (ok : Bool) × (s' : List ℕ) × (load_image machine (some header) [] ≡ some (ok, s'))
    × All IsUserPage s'
load_image_example = load_image_lem machine (All IsUserPage) machine-Keeps (some header) [] tt

-- The children 5 and 6 of a process.
abbrev child : ℤ → ChildProcess
child tid = record { tid = tid; exited = false; waited = false; sema = 0; exit_status = pos 0 }

abbrev children : List ChildProcess
children = child (pos 5) ∷ child (pos 6) ∷ []

process_wait_example :
    (let gone = exit_child (pos 6) (pos 81) children in
      (process_wait (pos 6) gone ≡ returns (pos 81) gone)
      × ((l' : List ChildProcess) × (process_wait (pos 6) children ≡ blocks l')
          × (wait_resume (pos 6) (exit_child (pos 6) (pos 81) l')
              ≡ returns (pos 81) (child (pos 5) ∷ [])))
      × (wait_test (pos 6) children ≡ may_wait)
      × (begin_wait (pos 6) gone ≡ blocks (set_child (pos 6) mark_waited gone)))
process_wait_example =
    process_wait_lem (pos 6) (pos 81) children (child (pos 6)) refl refl refl refl refl

-- All of the user's memory is mapped; a buffer of two bytes at its very end does not pass.
abbrev all_mapped : ℕ → Bool
all_mapped ptr = true

check_buffer_example : check_buffer all_mapped 3221225470 2 ≡ false
check_buffer_example = check_buffer_lem all_mapped 3221225470 1 (omega arith)
