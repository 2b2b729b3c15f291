-- ===== src/Process/Pages.antt =====
-- load_segment fills one page after another, and load fills pages of the user's memory only.
use sustech_cs.Prelude.{
  ℕ, zero, suc, ◌+◌, ◌-◌, ◌*◌, ◌/◌, ◌%◌, ◌^◌, ◌≤◌, ◌<◌, ◌≡◌, refl, ap, ◌∙◌, Bool, true, false, ◌||◌,
  some, List, [], ◌∷◌, ltb, if◌then◌else◌, arith, if_true, if_false,
}
use sustech_cs.Process.Stack.{sub_ptr}
use sustech_cs.Process.Segment.{phys_base, Phdr, add_word, Segment, segment_of}
use sustech_cs.FixedPoint.{signed}
use sustech_cs.Process.Region.{IsLoadable, segment_of_lem}
use sustech_cs.Process.Load.{Machine, fill_page, load_loop, load_segment}

-- The pages of a segment at `upage` of which `read_bytes` are read: for each its address, and how
-- many bytes of it are read. Those from the number `k` on, `n` of them.
abbrev pub pages_from : ℕ → ℕ → ℕ → ℕ → List (ℕ × ℕ)
pages_from upage read_bytes k zero = []
pages_from upage read_bytes k (suc n) =
    let left = read_bytes - 4096 * k in
    (upage + 4096 * k, if ltb left 4096 then left else 4096) ∷ pages_from upage read_bytes (suc k) n

if_some {ℓ} :
    {A : Type ℓ} (b : Bool) (x y : A) → (if b then some x else some y) ≡ some (if b then x else y)
if_some true x y = refl
if_some false x y = refl

module _ {S : Type 0} (m : Machine S) where
  -- The pages one after another, up to one that cannot be filled.
  abbrev pub fill_pages : List (ℕ × ℕ) → Bool → S → Bool × S
  fill_pages [] writable s = (true, s)
  fill_pages ((upage, bytes) ∷ l) writable s =
      let (ok, s') = fill_page m upage bytes writable s in
      let rest = fill_pages l writable s' in if ok then rest else (false, s')

  load_loop-cong :
      (fuel r r' z u u' : ℕ) (w : Bool) (s : S)
      → r ≡ r'
      → u ≡ u'
      → load_loop m fuel r z u w s ≡ load_loop m fuel r' z u' w s
  load_loop-cong fuel r r' z u u' w s e f = cc

  load_loop_lem :
      (fuel n k upage read_bytes zero_bytes : ℕ) (writable : Bool) (s : S)
      → n < fuel
      → read_bytes - 4096 * k + zero_bytes ≡ n * 4096
      → upage + 4096 * k + n * 4096 < 2 ^ 32
      → load_loop m fuel (read_bytes - 4096 * k) zero_bytes (upage + 4096 * k) writable s
        ≡ some (fill_pages (pages_from upage read_bytes k n) writable s)
  unfolding load_loop
  load_loop_lem zero n k upage r z w s f e b = absurd (omega (arith, f))
  load_loop_lem (suc fuel) zero k upage r z w s f e b =
      let nothing : (ltb 0 (r - 4096 * k) || ltb 0 z) ≡ false = ground (arith, e) in
      if_false _ _ nothing
  load_loop_lem (suc fuel) (suc n) k upage r z w s f e b =
      let more : (ltb 0 (r - 4096 * k) || ltb 0 z) ≡ true = ground (arith, e) in
      let left = r - 4096 * k in
      let p = if ltb left 4096 then left else 4096 in
      let s' = (fill_page m (upage + 4096 * k) p w s).1 in
      let z' = sub_ptr z (4096 - p) in
      let rest =
        load_loop_lem fuel n (suc k) upage r z' w s' (omega (arith, f)) (ground (arith, e))
          (omega (arith, b)) in
      let same =
        load_loop-cong fuel (left - p) (r - 4096 * suc k) z' (add_word (upage + 4096 * k) 4096)
          (upage + 4096 * suc k) w s' (ground arith) (omega (arith, b)) in
      if_true _ _ more
      ∙ ap (λ o. if (fill_page m (upage + 4096 * k) p w s).0 then o else some (false, s'))
          (same ∙ rest)
      ∙ if_some _ _ _

  load_segment-fits :
      (seg : Segment) (s : S)
      → (seg.read_bytes + seg.zero_bytes) % 4096 ≡ 0
      → seg.mem_page % 4096 ≡ 0
      → seg.file_page % 4096 ≡ 0
      → seg.mem_page + seg.read_bytes + seg.zero_bytes ≤ phys_base
      → load_segment m seg s
        ≡ some (
            fill_pages
              (pages_from seg.mem_page seg.read_bytes 0 ((seg.read_bytes + seg.zero_bytes) / 4096))
              seg.writable
              (m.file_seek (signed seg.file_page) s))
  unfolding load_segment
  load_segment-fits seg s size mem file below =
      let total : add_word seg.read_bytes seg.zero_bytes ≡ seg.read_bytes + seg.zero_bytes =
        omega (arith, below) in
      let n = (seg.read_bytes + seg.zero_bytes) / 4096 in
      let loop =
        load_loop_lem (suc n) n 0 seg.mem_page seg.read_bytes seg.zero_bytes seg.writable
          (m.file_seek (signed seg.file_page) s) (omega arith) (omega (arith, size))
          (omega (arith, size, below)) in
      rw (total, size, mem, file)
        (load_loop-cong (suc n) seg.read_bytes (seg.read_bytes - 4096 * 0) seg.zero_bytes
            seg.mem_page (seg.mem_page + 4096 * 0) seg.writable
            (m.file_seek (signed seg.file_page) s) (omega arith) (omega arith)
          ∙ loop)

  -- load_segment, called as load calls it for a segment that validate_segment lets pass, fails no
  -- ASSERT and comes to an end: from the start of the segment in the file on it fills the pages from
  -- `mem_page` to the end of the segment, in order and each once, up to one that cannot be filled.
  pub load_segment_lem :
      (phdr : Phdr) (length : ℕ) (s : S)
      → IsLoadable phdr length
      → (let seg = segment_of phdr in
          load_segment m seg s
          ≡ some (
              fill_pages
                (pages_from seg.mem_page seg.read_bytes 0
                  ((seg.read_bytes + seg.zero_bytes) / 4096))
                seg.writable
                (m.file_seek (signed seg.file_page) s)))
  load_segment_lem phdr length s l =
      let r = segment_of_lem phdr length l in load_segment-fits (segment_of phdr) s r.0 r.1 r.2 r.4
