-- ===== src/Process/Segment.antt =====
-- The segments of an executable in userprog/process.c: validate_segment, and what load makes of a
-- program header. Addresses and sizes are words of 32 bits.
use sustech_cs.Prelude.{
  ℕ, ◌+◌, ◌-◌, ◌*◌, ◌/◌, ◌%◌, ◌^◌, Bool, true, false, not, ltb, ◌==◌, if◌then◌else◌,
}
use sustech_cs.Process.Stack.{sub_ptr}

-- PGSIZE and PHYS_BASE.
abbrev pub page_size : ℕ
page_size = 4096

abbrev pub phys_base : ℕ
phys_base = 3221225472

-- The fields of struct Elf32_Phdr that the program reads.
pub record Phdr : Type 0 where
  pub p_type : ℕ
  pub p_offset : ℕ
  pub p_vaddr : ℕ
  pub p_filesz : ℕ
  pub p_memsz : ℕ
  pub p_flags : ℕ

abbrev pub add_word : ℕ → ℕ → ℕ
add_word a b = (a + b) % 2 ^ 32

-- `length` is that of the file, as an Elf32_Off.
unfoldable pub validate_segment : Phdr → ℕ → Bool
validate_segment phdr length =
    if not (phdr.p_offset % page_size == phdr.p_vaddr % page_size)
    then false
    else if ltb length phdr.p_offset
    then false
    else if ltb phdr.p_memsz phdr.p_filesz
    then false
    else if phdr.p_memsz == 0
    then false
    else if not (ltb phdr.p_vaddr phys_base)
    then false
    else if not (ltb (add_word phdr.p_vaddr phdr.p_memsz) phys_base)
    then false
    else if ltb (add_word phdr.p_vaddr phdr.p_memsz) phdr.p_vaddr
    then false
    else if ltb phdr.p_vaddr page_size
    then false
    else true

abbrev pub round_up : ℕ → ℕ → ℕ
round_up x step = add_word x (step - 1) / step * step

-- The arguments of load_segment.
pub record Segment : Type 0 where
  pub file_page : ℕ
  pub mem_page : ℕ
  pub read_bytes : ℕ
  pub zero_bytes : ℕ
  pub writable : Bool

unfoldable pub segment_of : Phdr → Segment
segment_of phdr =
    let page_offset = phdr.p_vaddr % page_size in
    let end = round_up (add_word page_offset phdr.p_memsz) page_size in
    let read_bytes = if phdr.p_filesz == 0 then 0 else add_word page_offset phdr.p_filesz in
    record {
      file_page = phdr.p_offset - phdr.p_offset % page_size;
      mem_page = phdr.p_vaddr - page_offset;
      read_bytes = read_bytes;
      zero_bytes = sub_ptr end read_bytes;
      writable = not (phdr.p_flags / 2 % 2 == 0);
    }
