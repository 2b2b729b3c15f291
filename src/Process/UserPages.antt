-- ===== src/Process/UserPages.antt =====
-- load installs pages of the user's memory only.
use sustech_cs.Prelude.{
  none, ℕ, zero, suc, ◌+◌, ◌-◌, ◌*◌, ◌/◌, ◌%◌, ◌^◌, ◌≤◌, ◌<◌, ◌≡◌, refl, Bool, true, false, not,
  ◌||◌, Option, some, List, [], ◌∷◌, if◌then◌else◌, arith, if_true, Bool-cases, Option-cases, inl,
  inr, All,
}
use sustech_cs.Prelude.Int.{ℤ, pos, ◌+ℤ◌, ltb_ℤ, eqb_ℤ}
use sustech_cs.FixedPoint.{word, signed}
use sustech_cs.Process.Segment.{page_size, phys_base, Phdr, segment_of}
use sustech_cs.Process.Region.{IsLoadable, validate_segment_lem, segment_of_lem}
use sustech_cs.Process.Load.{
  Machine, fill_page, load_segment, load_phdr, load_headers, Ehdr, is_executable, load_image,
}
use sustech_cs.Process.Pages.{pages_from, fill_pages, load_segment_lem}

-- A page of the user's memory behind page 0.
abbrev pub IsUserPage : ℕ → Type 0
IsUserPage u = (u % 4096 ≡ 0) × (4096 ≤ u) × (u + 4096 ≤ phys_base)

-- What the operations of memory and of the file keep, install_page if it is called for a page of the
-- user; and a program header holds words.
pub record Keeps {S : Type 0} (m : Machine S) (P : S → Type 0) : Type 0 where
  pub get_page : (s : S) → P s → P (m.palloc_get_page s).1
  pub free_page : (k : ℕ) (s : S) → P s → P (m.palloc_free_page k s)
  pub seek : (n : ℤ) (s : S) → P s → P (m.file_seek n s)
  pub read : (k n : ℕ) (s : S) → P s → P (m.file_read k n s).1
  pub header : (s : S) → P s → P (m.read_phdr s).1
  pub memset : (k n : ℕ) (s : S) → P s → P (m.memset_zero k n s)
  pub install : (u k : ℕ) (w : Bool) (s : S) → IsUserPage u → P s → P (m.install_page u k w s).1
  pub words :
      (s : S) (phdr : Phdr)
      → (m.read_phdr s).0 ≡ some phdr
      → (phdr.p_vaddr < 2 ^ 32) × (phdr.p_memsz < 2 ^ 32)

module _ {S : Type 0} (m : Machine S) (P : S → Type 0) (k : Keeps m P) where
  if_both : (b : Bool) (x y : Bool × S) → P x.1 → P y.1 → P (if b then x else y).1
  if_both true x y p q = p
  if_both false x y p q = q

  fill_page-Keeps : (u n : ℕ) (w : Bool) (s : S) → IsUserPage u → P s → P (fill_page m u n w s).1
  unfolding fill_page
  fill_page-Keeps u n w s user p = elim (Option-cases (m.palloc_get_page s).0) [
    | inl no_page ↦ rw (fill_page, no_page) (k.get_page s p)
    | inr (kpage, page) ↦
        let s2 = (m.file_read kpage n (m.palloc_get_page s).1).1 in
        let p2 = k.read kpage n _ (k.get_page s p) in
        let cleared = m.memset_zero (kpage + n) (page_size - n) s2 in
        let p3 = k.install u kpage w cleared user (k.memset (kpage + n) (page_size - n) s2 p2) in
        let (ok, s3) = m.install_page u kpage w cleared in
        let freed = m.palloc_free_page kpage s3 in
        let last = if_both ok (true, s3) (false, freed) p3 (k.free_page kpage s3 p3) in
        rw (fill_page, page)
          (if_both (not (eqb_ℤ (m.file_read kpage n (m.palloc_get_page s).1).0 (pos n)))
            (false, m.palloc_free_page kpage s2) (if ok then (true, s3) else (false, freed))
            (k.free_page kpage s2 p2) last)
  ]

  fill_pages-Keeps :
      (l : List (ℕ × ℕ)) (w : Bool) (s : S)
      → All (λ page. IsUserPage page.0) l
      → P s
      → P (fill_pages m l w s).1
  fill_pages-Keeps [] w s user p = p
  fill_pages-Keeps ((u, n) ∷ l) w s (user, users) p =
      let p' = fill_page-Keeps u n w s user p in if_both _ _ _ (fill_pages-Keeps l w _ users p') p'

pages_from-IsUserPage :
    (u r k n : ℕ)
    → u % 4096 ≡ 0
    → 4096 ≤ u
    → u + 4096 * k + 4096 * n ≤ phys_base
    → All (λ page. IsUserPage page.0) (pages_from u r k n)
pages_from-IsUserPage u r k zero whole above below = tt
pages_from-IsUserPage u r k (suc n) whole above below = (
  (omega (arith, whole), omega (arith, above), omega (arith, below)),
  pages_from-IsUserPage u r (suc k) n whole above (omega (arith, below)),
)

module _ {S : Type 0} (m : Machine S) (P : S → Type 0) (k : Keeps m P) where
  -- A run that ends, in a state with `P`.
  abbrev pub Ends : Option (Bool × S) → Type 0
  Ends o = (ok : Bool) × (s' : S) × (o ≡ some (ok, s')) × P s'

  Ends-some : (b : Bool) (s : S) → P s → Ends (some (b, s))
  Ends-some b s p = (b, s, refl, p)

  Ends-if :
      (b : Bool) (x y : Option (Bool × S))
      → (b ≡ true → Ends x)
      → Ends y
      → Ends (if b then x else y)
  Ends-if true x y ex ey = ex refl
  Ends-if false x y ex ey = ey

  load_segment-Ends :
      (phdr : Phdr) (length : ℕ) (s : S)
      → IsLoadable phdr length
      → P s
      → Ends (load_segment m (segment_of phdr) s)
  load_segment-Ends phdr length s l p =
      let seg = segment_of phdr in
      let n = (seg.read_bytes + seg.zero_bytes) / 4096 in
      let pages = pages_from seg.mem_page seg.read_bytes 0 n in
      let r = segment_of_lem phdr length l in
      let end = r.4 in
      let below : seg.mem_page + 4096 * 0 + 4096 * n ≤ phys_base = omega (arith, end) in
      let users = pages_from-IsUserPage seg.mem_page seg.read_bytes 0 n r.1 r.3 below in
      (
        _,
        _,
        load_segment_lem m phdr length s l,
        fill_pages-Keeps m P k pages seg.writable _ users (k.seek _ s p),
      )

  load_phdr-Ends :
      (phdr : Phdr) (s : S)
      → (phdr.p_vaddr < 2 ^ 32) × (phdr.p_memsz < 2 ^ 32)
      → P s
      → Ends (load_phdr m phdr s)
  unfolding load_phdr
  load_phdr-Ends phdr s (v, z) p =
      let length = word (m.file_length s) in
      Ends-if _ _ _ (λ h. Ends-some false s p)
        (Ends-if _ _ _ (λ h. Ends-some true s p)
          (Ends-if _ _ _
            (λ h. load_segment-Ends phdr length s ((validate_segment_lem phdr length v z).0 h) p)
            (Ends-some false s p)))

  load_headers_lem :
      (n : ℕ) (file_ofs : ℤ) (s : S)
      → P s
      → (ok : Bool) × (s' : S) × (load_headers m n file_ofs s ≡ some (ok, s')) × P s'
  unfolding load_headers
  load_headers_lem zero ofs s p = (true, s, refl, p)
  load_headers_lem (suc n) ofs s p =
      let s1 = m.file_seek ofs s in
      let p2 = k.header s1 (k.seek ofs s p) in
      let next = signed (word (ofs +ℤ pos 32)) in
      elim (Bool-cases (ltb_ℤ ofs (pos 0) || ltb_ℤ (m.file_length s) ofs)) [
        | inl outside ↦ (false, s, if_true _ _ outside, p)
        | inr inside ↦ elim (Option-cases (m.read_phdr s1).0) [
          | inl short ↦ (false, (m.read_phdr s1).1, rw (inside, short) refl, p2)
          | inr (phdr, read) ↦
              let (ok, s3, e, p3) = load_phdr-Ends phdr _ (k.words s1 phdr read) p2 in
              let (ok', s4, e4, p4) =
                Ends-if ok (load_headers m n next s3) (some (false, s3))
                  (λ h. load_headers_lem n next s3 p3) (Ends-some false s3 p3) in
              (ok', s4, rw (inside, read, e) e4, p4)
        ]
      ]

  -- load, with any header and any program headers of words of 32 bits, from a state that has a
  -- property which the operations of memory and of the file keep as long as install_page is called
  -- only for pages of the user's memory behind page 0: it fails no ASSERT and comes to an end, and
  -- the state has that property then.
  pub load_image_lem :
      (ehdr : Option Ehdr) (s : S)
      → P s
      → (ok : Bool) × (s' : S) × (load_image m ehdr s ≡ some (ok, s')) × P s'
  unfolding load_image
  load_image_lem none s p = Ends-some false s p
  load_image_lem (some ehdr) s p =
      Ends-if (is_executable ehdr) (load_headers m ehdr.e_phnum (signed ehdr.e_phoff) s)
        (some (false, s)) (λ h. load_headers_lem ehdr.e_phnum _ s p) (Ends-some false s p)
