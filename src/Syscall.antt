-- ===== src/Syscall.antt =====
-- userprog/syscall.c of pintos_pro3/src: the checks of user pointers, and the system calls on open
-- files, each under filesys_lock. The calls on names of files and on processes are not here.
pub mod Pointers
pub mod Reading
pub mod Write
pub mod Writing
use sustech_cs.Prelude.{
  ℕ, zero, suc, ◌+◌, ◌*◌, Bool, true, false, not, ◌&&◌, ◌||◌, Option, none, some, List, [], ◌∷◌,
  ltb, ◌==◌, if◌then◌else◌, length,
}
use sustech_cs.Prelude.Int.{ℤ, pos, negsuc, eqb_ℤ}
use sustech_cs.FixedPoint.{signed}
use sustech_cs.Inode.{Filesys}
use sustech_cs.File.{file_seek, file_tell, file_deny_write}
use sustech_cs.File.Read.{file_read, file_length}
use sustech_cs.Process.Stack.{Memory, load_word}
use sustech_cs.Process.Segment.{add_word, phys_base}
use sustech_cs.Process.Files.{Descriptors, add_file, get_file, close_file}

-- A call returns, or it ends the process with a status, or the kernel panics.
pub data Outcome {ℓ} (A : Type ℓ) : Type ℓ where
  returns : A → Outcome A
  exits : ℤ → Outcome A
  panics : Outcome A

abbrev pub kernel {ℓ} : {A : Type ℓ} → Option A → Outcome A
kernel none = panics
kernel (some a) = returns a

infixl 5 ◌>>=◌
abbrev pub ◌>>=◌ {ℓ κ} : {A : Type ℓ} {B : Type κ} → Outcome A → (A → Outcome B) → Outcome B
returns a >>= f = f a
exits status >>= f = exits status
panics >>= f = panics

abbrev pub ptr_bottom : ℕ
ptr_bottom = 134512640

-- Whether is_valid_ptr_single lets a pointer pass: `pagedir` says which addresses are mapped.
abbrev pub is_valid_ptr_single : (ℕ → Bool) → ℕ → Bool
is_valid_ptr_single pagedir ptr =
    if ptr == 0 || not (ltb ptr phys_base) || ltb ptr ptr_bottom then false else pagedir ptr

abbrev pub is_valid_ptr : (ℕ → Bool) → ℕ → Bool
is_valid_ptr pagedir ptr =
    is_valid_ptr_single pagedir ptr
    && (is_valid_ptr_single pagedir ptr
        && (is_valid_ptr_single pagedir (add_word ptr 1)
            && (is_valid_ptr_single pagedir (add_word ptr 2)
                && is_valid_ptr_single pagedir (add_word ptr 3))))

abbrev pub check_ptr : (ℕ → Bool) → ℕ → Outcome (Unit {0})
check_ptr pagedir ptr = if is_valid_ptr pagedir ptr then returns tt else exits (negsuc 0)

-- The loop of read_args from the argument of number `i` on.
abbrev pub read_args_from : ℕ → ℕ → (ℕ → Bool) → Memory → ℕ → Outcome (List ℕ)
read_args_from i zero pagedir m esp = returns []
read_args_from i (suc n) pagedir m esp = do
  let ptr = add_word esp (4 * (1 + i))
  u ← check_ptr pagedir ptr
  rest ← read_args_from (suc i) n pagedir m esp
  returns (load_word m ptr ∷ rest)

unfoldable pub read_args : ℕ → (ℕ → Bool) → Memory → ℕ → Outcome (List ℕ)
read_args n pagedir m esp = read_args_from 0 n pagedir m esp

-- The loop of write over the bytes of the buffer.
unfoldable pub check_buffer : (ℕ → Bool) → ℕ → ℕ → Bool
check_buffer pagedir buffer zero = true
check_buffer pagedir buffer (suc n) =
    is_valid_ptr pagedir buffer && check_buffer pagedir (add_word buffer 1) n

-- A process: its descriptors and page directory, with the file system. `writable` says which
-- addresses are mapped to be written.
pub record Caller : Type 0 where
  pub descriptors : Descriptors
  pub pagedir : ℕ → Bool
  pub writable : ℕ → Bool
  pub fs : Filesys

-- open, where filesys_open gave `file` and the state of `c`, and `own` says that it is the program's
-- own name.
unfoldable pub open_file : Bool → Option ℕ → Bool → Caller → Outcome (ℤ × Caller)
open_file memory none true c = panics
open_file memory none false c = returns (negsuc 0, c)
open_file memory (some f) own c = do
  fs ← kernel (if own then file_deny_write f c.fs else some c.fs)
  let (fd, t) = add_file memory f c.descriptors
  returns (fd, record c { descriptors = t; fs = fs })

unfoldable pub filesize : ℤ → Caller → Outcome ℤ
filesize fd c = do
  file ← kernel (get_file fd c.descriptors)
  elim file [ none ↦ returns (negsuc 0) | some f ↦ kernel (file_length (some f) c.fs) ]

-- Whether `n` bytes can be stored from an address on.
abbrev pub can_store : (ℕ → Bool) → ℕ → ℕ → Bool
can_store writable ptr zero = true
can_store writable ptr (suc n) = writable ptr && can_store writable (add_word ptr 1) n

-- The bytes that are read stand for the buffer. Where one of them cannot be stored, page_fault of
-- userprog/exception.c ends the process; the model tests this behind the whole of file_read, so that
-- a panic in a later part of the read goes before it. For the console's output nothing is read.
unfoldable pub read : Bool → ℤ → ℕ → ℕ → Caller → Outcome (ℤ × List ℕ × Caller)
read memory fd buffer length' c = if buffer == 0 then exits (negsuc 0) else (do
  u ← check_ptr c.pagedir buffer
  if eqb_ℤ fd (pos 1) then returns (signed length', [], c) else (do
    file ← kernel (get_file fd c.descriptors)
    elim file [
      | none ↦ returns (negsuc 0, [], c)
      | some f ↦ do
        r ← kernel (file_read memory f (signed length') c.fs)
        let (bytes, fs) = r
        if can_store c.writable buffer (length bytes)
            then returns (pos (length bytes), bytes, record c { fs = fs })
            else exits (negsuc 0)
    ]))

-- The result of seek is not used.
unfoldable pub seek : ℤ → ℕ → Caller → Outcome Caller
seek fd position c = do
  file ← kernel (get_file fd c.descriptors)
  elim file [
    | none ↦ returns c
    | some f ↦ do fs ← kernel (file_seek f (signed position) c.fs); returns (record c { fs = fs })
  ]

unfoldable pub tell : ℤ → Caller → Outcome ℤ
tell fd c = do
  file ← kernel (get_file fd c.descriptors)
  elim file [ none ↦ returns (negsuc 0) | some f ↦ returns (pos (file_tell f c.fs)) ]

unfoldable pub close : ℤ → Caller → Outcome Caller
close fd c = do
  r ← kernel (close_file fd c.descriptors c.fs)
  let (ok, t, fs) = r
  if ok then returns (record c { descriptors = t; fs = fs }) else exits (negsuc 0)
