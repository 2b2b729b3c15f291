-- ===== src/Process/Load.antt =====
-- load_segment and the loop of load over the program headers in userprog/process.c, over the
-- operations of memory and of the executable file that they call.
use sustech_cs.Prelude.{
  ℕ, zero, suc, ◌+◌, ◌-◌, ◌/◌, ◌%◌, Bool, true, false, not, ◌||◌, ◌&&◌, Option, none, some, List,
  [], ◌∷◌, ltb, ◌==◌, if◌then◌else◌, ◌>>=◌,
}
use sustech_cs.Prelude.Int.{ℤ, pos, ◌+ℤ◌, ltb_ℤ, eqb_ℤ}
use sustech_cs.FixedPoint.{word, signed}
use sustech_cs.Process.Stack.{sub_ptr}
use sustech_cs.Process.Segment.{page_size, Phdr, add_word, validate_segment, Segment, segment_of}

-- The fields of struct Elf32_Ehdr that the program reads; of e_ident the first seven bytes.
pub record Ehdr : Type 0 where
  pub e_ident : List ℕ
  pub e_type : ℕ
  pub e_machine : ℕ
  pub e_version : ℕ
  pub e_phoff : ℕ
  pub e_phentsize : ℕ
  pub e_phnum : ℕ

abbrev pub same_bytes : List ℕ → List ℕ → Bool
same_bytes [] [] = true
same_bytes [] (b ∷ l) = false
same_bytes (a ∷ l) [] = false
same_bytes (a ∷ l) (b ∷ l') = a == b && same_bytes l l'

-- The test of load on the executable's header.
abbrev pub is_executable : Ehdr → Bool
is_executable ehdr =
    same_bytes ehdr.e_ident (127 ∷ 69 ∷ 76 ∷ 70 ∷ 1 ∷ 1 ∷ 1 ∷ [])
    && (ehdr.e_type == 2
        && (ehdr.e_machine == 3
            && (ehdr.e_version == 1 && (ehdr.e_phentsize == 32 && not (ltb 1024 ehdr.e_phnum)))))

-- The operations on a state `S`. A page of memory is given by its address, `none` for NULL.
-- read_phdr is file_read of a program header, `none` where it reads less than that.
pub record Machine (S : Type 0) : Type 0 where
  pub palloc_get_page : S → Option ℕ × S
  pub palloc_free_page : ℕ → S → S
  pub file_length : S → ℤ
  pub file_seek : ℤ → S → S
  pub file_read : ℕ → ℕ → S → ℤ × S
  pub read_phdr : S → Option Phdr × S
  pub memset_zero : ℕ → ℕ → S → S
  pub install_page : ℕ → ℕ → Bool → S → Bool × S

module _ {S : Type 0} (m : Machine S) where
  -- The body of the loop of load_segment: the page for `upage`, with `page_read_bytes` from the
  -- file.
  unfoldable pub fill_page : ℕ → ℕ → Bool → S → Bool × S
  fill_page upage page_read_bytes writable s =
      let page_zero_bytes = page_size - page_read_bytes in
      let (page, s1) = m.palloc_get_page s in
      elim page [
        | none ↦ (false, s1)
        | some kpage ↦
            let (got, s2) = m.file_read kpage page_read_bytes s1 in
            if not (eqb_ℤ got (pos page_read_bytes))
            then (false, m.palloc_free_page kpage s2)
            else let (ok, s3) =
                m.install_page upage kpage writable
                  (m.memset_zero (kpage + page_read_bytes) page_zero_bytes s2) in
              if ok then (true, s3) else (false, m.palloc_free_page kpage s3)
      ]

  -- The loop, on fuel.
  unfoldable pub load_loop : ℕ → ℕ → ℕ → ℕ → Bool → S → Option (Bool × S)
  load_loop zero read_bytes zero_bytes upage writable s = none
  load_loop (suc fuel) read_bytes zero_bytes upage writable s =
      let page_read_bytes = if ltb read_bytes page_size then read_bytes else page_size in
      let page_zero_bytes = page_size - page_read_bytes in
      let (ok, s') = fill_page upage page_read_bytes writable s in
      let rest =
        load_loop fuel (read_bytes - page_read_bytes) (sub_ptr zero_bytes page_zero_bytes)
          (add_word upage page_size) writable s' in
      if ltb 0 read_bytes || ltb 0 zero_bytes
      then if ok then rest else some (false, s')
      else some (true, s)

  -- A failed ASSERT is `none`. Each round is for a page, so their number is fuel enough.
  unfoldable pub load_segment : Segment → S → Option (Bool × S)
  load_segment seg s =
      let size = add_word seg.read_bytes seg.zero_bytes in
      if size % page_size == 0 && seg.mem_page % page_size == 0 && seg.file_page % page_size == 0
      then load_loop (suc (size / page_size)) seg.read_bytes seg.zero_bytes seg.mem_page
          seg.writable (m.file_seek (signed seg.file_page) s)
      else none

  -- The switch of load for one program header: `false` is `goto done`.
  unfoldable pub load_phdr : Phdr → S → Option (Bool × S)
  load_phdr phdr s =
      if phdr.p_type == 2 || phdr.p_type == 3 || phdr.p_type == 5
      then some (false, s)
      else if not (phdr.p_type == 1)
      then some (true, s)
      else if validate_segment phdr (word (m.file_length s))
      then load_segment (segment_of phdr) s
      else some (false, s)

  -- The loop of load over `n` program headers from the offset `file_ofs` on.
  unfoldable pub load_headers : ℕ → ℤ → S → Option (Bool × S)
  load_headers zero file_ofs s = some (true, s)
  load_headers (suc n) file_ofs s =
      let (header, s1) = m.read_phdr (m.file_seek file_ofs s) in
      let rest = load_headers n (signed (word (file_ofs +ℤ pos 32))) in
      if ltb_ℤ file_ofs (pos 0) || ltb_ℤ (m.file_length s) file_ofs
      then some (false, s)
      else elim header [
        | none ↦ some (false, s1)
        | some phdr ↦ do
          r ← load_phdr phdr s1
          let (ok, s2) = r
          if ok then rest s2 else some (false, s2)
      ]

  -- load from the header to the segments; `none` for a header that cannot be read.
  unfoldable pub load_image : Option Ehdr → S → Option (Bool × S)
  load_image none s = some (false, s)
  load_image (some ehdr) s =
      let segments = load_headers ehdr.e_phnum (signed ehdr.e_phoff) s in
      if is_executable ehdr then segments else some (false, s)
