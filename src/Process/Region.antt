-- ===== src/Process/Region.antt =====
-- A segment that validate_segment lets pass stays in the memory of the user.
use sustech_cs.Prelude.{
  ℕ, ◌+◌, ◌*◌, ◌/◌, ◌%◌, ◌^◌, ◌≤◌, ◌<◌, ◌≡◌, ◌≢◌, refl, Bool, true, false, not, ltb, ◌==◌,
  if◌then◌else◌, arith,
}
use sustech_cs.Process.Segment.{
  page_size, phys_base, Phdr, add_word, validate_segment, round_up, segment_of,
}

-- What validate_segment promises, without wrap-around.
pub record IsLoadable (phdr : Phdr) (length : ℕ) : Type 0 where
  pub same_offset : phdr.p_offset % 4096 ≡ phdr.p_vaddr % 4096
  pub in_file : phdr.p_offset ≤ length
  pub fits : phdr.p_filesz ≤ phdr.p_memsz
  pub more : 0 < phdr.p_memsz
  pub above : 4096 ≤ phdr.p_vaddr
  pub below : phdr.p_vaddr + phdr.p_memsz < phys_base

-- A test that ends in `false` if it holds, and what it is that does not hold.
passed : (b rest : Bool) → (if b then false else rest) ≡ true → (b ≡ false) × (rest ≡ true)
passed true rest h = absurd cc
passed false rest h = (refl, h)

add_word-below : (a b : ℕ) → a + b < phys_base → add_word a b ≡ a + b
add_word-below a b h = omega (arith, h)

no_wrap :
    (a b : ℕ)
    → a < 2 ^ 32
    → b < 2 ^ 32
    → not (ltb a phys_base) ≡ false
    → not (ltb (add_word a b) phys_base) ≡ false
    → ltb (add_word a b) a ≡ false
    → a + b < phys_base
no_wrap a b ha hb user end around =
    let user' : a < phys_base = ground (arith, user) in
    let end' : (a + b) % 2 ^ 32 < phys_base = ground (arith, end) in
    let around' : a ≤ (a + b) % 2 ^ 32 = ground (arith, around) in
    omega (arith, ha, hb, user', end', around')

-- validate_segment of a header of words lets it pass exactly if the pages of the file and of the
-- memory have the same offset, the segment starts in the file, is not empty and not longer in the
-- file than in memory, and all of it lies behind page 0 and before the kernel's memory.
pub validate_segment_lem :
    (phdr : Phdr) (length : ℕ)
    → phdr.p_vaddr < 2 ^ 32
    → phdr.p_memsz < 2 ^ 32
    → ((validate_segment phdr length ≡ true → IsLoadable phdr length)
        × (IsLoadable phdr length → validate_segment phdr length ≡ true))
unfolding validate_segment
validate_segment_lem phdr length v m = (
  λ h.
      let (offset, h1) = passed (not (phdr.p_offset % 4096 == phdr.p_vaddr % 4096)) _ h in
      let (file, h2) = passed (ltb length phdr.p_offset) _ h1 in
      let (sizes, h3) = passed (ltb phdr.p_memsz phdr.p_filesz) _ h2 in
      let (empty, h4) = passed (phdr.p_memsz == 0) _ h3 in
      let (user, h5) = passed _ _ h4 in
      let (end, h6) = passed _ _ h5 in
      let (around, h7) = passed _ _ h6 in
      let (page0, h8) = passed (ltb phdr.p_vaddr 4096) true h7 in
      record {
        same_offset = ground (arith, offset);
        in_file = ground (arith, file);
        fits = ground (arith, sizes);
        more = ground (arith, empty);
        above = ground (arith, page0);
        below = no_wrap _ _ v m user end around;
      },
  λ l.
      let sum = add_word-below phdr.p_vaddr phdr.p_memsz l.below in
      let offset : not (phdr.p_offset % 4096 == phdr.p_vaddr % 4096) ≡ false =
        ground (arith, l.same_offset) in
      let file : ltb length phdr.p_offset ≡ false = ground (arith, l.in_file) in
      let sizes : ltb phdr.p_memsz phdr.p_filesz ≡ false = ground (arith, l.fits) in
      let empty : (phdr.p_memsz == 0) ≡ false = ground (arith, l.more) in
      let user : not (ltb phdr.p_vaddr phys_base) ≡ false = ground (arith, l.below) in
      let end : not (ltb (add_word phdr.p_vaddr phdr.p_memsz) phys_base) ≡ false =
        ground (arith, sum, l.below) in
      let around : ltb (add_word phdr.p_vaddr phdr.p_memsz) phdr.p_vaddr ≡ false =
        ground (arith, sum) in
      let page0 : ltb phdr.p_vaddr page_size ≡ false = ground (arith, l.above) in
      rw (offset, file, sizes, empty, user, end, around, page0) refl,
)

-- For a loadable segment, the arguments that load passes to load_segment meet its ASSERTs; the pages
-- to fill lie behind page 0 and before the kernel's memory, they cover the segment from its first
-- byte to its last, and what is read covers the bytes that stand in the file and no others.
pub segment_of_lem :
    (phdr : Phdr) (length : ℕ)
    → IsLoadable phdr length
    → (let s = segment_of phdr in
        ((s.read_bytes + s.zero_bytes) % 4096 ≡ 0)
        × (s.mem_page % 4096 ≡ 0)
        × (s.file_page % 4096 ≡ 0)
        × (4096 ≤ s.mem_page)
        × (s.mem_page + s.read_bytes + s.zero_bytes ≤ phys_base)
        × (s.mem_page ≤ phdr.p_vaddr)
        × (phdr.p_vaddr + phdr.p_memsz ≤ s.mem_page + s.read_bytes + s.zero_bytes)
        × (phdr.p_filesz ≢ 0 → s.mem_page + s.read_bytes ≡ phdr.p_vaddr + phdr.p_filesz)
        × (phdr.p_vaddr + s.file_page ≡ s.mem_page + phdr.p_offset))
unfolding segment_of
segment_of_lem phdr length l =
    let v = phdr.p_vaddr in
    let off = v % 4096 in
    let size : add_word off phdr.p_memsz ≡ off + phdr.p_memsz = omega (arith, l.below) in
    let end : round_up (add_word off phdr.p_memsz) 4096
        ≡ (off + phdr.p_memsz + 4095) / 4096 * 4096 =
      omega (arith, size, l.below) in
    let file : add_word off phdr.p_filesz ≡ off + phdr.p_filesz = omega (arith, l.below, l.fits) in
    let read : (segment_of phdr).read_bytes ≤ off + phdr.p_memsz = ground (arith, file, l.fits) in
    let zero_bytes : (segment_of phdr).zero_bytes + (segment_of phdr).read_bytes
        ≡ (off + phdr.p_memsz + 4095) / 4096 * 4096 =
      ground (arith, end, read) in
    let below = l.below in
    let above = l.above in
    let same = l.same_offset in
    (
      omega (arith, zero_bytes),
      omega arith,
      omega arith,
      omega (arith, above),
      omega (arith, zero_bytes, below),
      omega arith,
      omega (arith, zero_bytes),
      λ n. ground (arith, n, file),
      omega (arith, same),
    )
