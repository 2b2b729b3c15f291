-- ===== src/Inode/Separate.antt =====
-- The contents of a file behind the writing of a part of one of its sectors.
use sustech_cs.Prelude.{
  update-other, ℕ, zero, suc, ◌+◌, ◌-◌, ◌*◌, ◌/◌, ◌%◌, ◌≤◌, ◌<◌, ◌≡◌, ◌≢◌, refl, sym, ap, ◌∙◌, inl,
  inr, Bool, false, ◌&&◌, List, [], ◌∷◌, ltb, leb, ◌==◌, if◌then◌else◌, length, update, arith,
  Bool-cases, if_true, if_false, ==_refl, eq_of_==, ne_of_==,
}
use sustech_cs.Prelude.Int.{pos_part}
use sustech_cs.Block.{Buffer}
use sustech_cs.Inode.{Inode}
use sustech_cs.Inode.Blocks.{byte_at, word_at, inode_length, indirect_index, doubly_indirect_index}
use sustech_cs.Inode.Read.{bytes_from}
use sustech_cs.Inode.Contents.{sector_of, file_byte}
use sustech_cs.Inode.Write.{copy_into}

-- The blocks of a file below its length are different sectors, and none of them is a sector of the
-- index that leads to one of them.
pub record IsSeparate (v : ℕ → Buffer) (inode : Inode) : Type 0 where
  pub apart :
      (i j : ℕ)
      → i * 512 < pos_part (inode_length inode)
      → j * 512 < pos_part (inode_length inode)
      → sector_of v inode i ≡ sector_of v inode j
      → i ≡ j
  pub indirect :
      (i : ℕ)
      → i * 512 < pos_part (inode_length inode)
      → 124 * 512 < pos_part (inode_length inode)
      → sector_of v inode i ≢ indirect_index inode
  pub doubly :
      (i : ℕ)
      → i * 512 < pos_part (inode_length inode)
      → 252 * 512 < pos_part (inode_length inode)
      → sector_of v inode i ≢ doubly_indirect_index inode
  pub second :
      (i j : ℕ)
      → i * 512 < pos_part (inode_length inode)
      → 252 ≤ j
      → j * 512 < pos_part (inode_length inode)
      → sector_of v inode i ≢ word_at (v (doubly_indirect_index inode)) ((j - 124 - 128) / 128)

-- Writing a block leaves the index what it is.
pub sector_of-update :
    (V : ℕ → Buffer) (inode : Inode) (i j : ℕ) (b : Buffer)
    → IsSeparate V inode
    → i * 512 < pos_part (inode_length inode)
    → j * 512 < pos_part (inode_length inode)
    → sector_of (update V (sector_of V inode i) b) inode j ≡ sector_of V inode j
sector_of-update V inode i j b x h le =
    let s = sector_of V inode i in
    let w = word_at (V (doubly_indirect_index inode)) ((j - 124 - 128) / 128) in
    elim (Bool-cases (ltb j 124)) [
      | inl near ↦ rw near refl
      | inr far ↦ elim (Bool-cases (ltb (j - 124) 128)) [
        | inl nearer ↦
            let used : 124 * 512 < pos_part (inode_length inode) = ground (arith, far, le) in
            let at_indirect = update-other V s (indirect_index inode) b (x.indirect i h used) in
            rw (far, nearer) (ap (λ c. word_at c (j - 124)) at_indirect)
        | inr farther ↦
            let behind : 252 ≤ j = ground (arith, far, farther) in
            let used : 252 * 512 < pos_part (inode_length inode) = omega (arith, behind, le) in
            let at_doubly = update-other V s (doubly_indirect_index inode) b (x.doubly i h used) in
            let at_second = update-other V s w b (x.second i j h behind le) in
            rw (far, farther)
              (ap
                  (λ c.
                    word_at (update V s b (word_at c ((j - 124 - 128) / 128)))
                      ((j - 124 - 128) % 128))
                  at_doubly
                ∙ ap (λ c. word_at c ((j - 124 - 128) % 128)) at_second)
      ]
    ]

-- Whether `j` is one of the `n` places from `a` on.
abbrev pub among : ℕ → ℕ → ℕ → Bool
among a n j = leb a j && ltb j (a + n)

first_place : (x d n : ℕ) → x ≡ (if among 0 (suc n) 0 then x else d)
first_place x d n = ground arith

next_place :
    (x d k : ℕ) (l : List ℕ)
    → (if among 0 (length l) k then byte_at l (k - 0) else d)
      ≡ (if among 0 (suc (length l)) (suc k) then byte_at (x ∷ l) (suc k - 0) else d)
next_place x d k l =
    let a : among 0 (suc (length l)) (suc k) ≡ among 0 (length l) k = ground arith in
    let i : k - 0 ≡ k = omega arith in let j : suc k - 0 ≡ suc k = omega arith in rw (a, i, j) refl

later_place :
    (ofs d k : ℕ) (l : List ℕ)
    → (if among ofs (length l) k then byte_at l (k - ofs) else d)
      ≡ (if among (suc ofs) (length l) (suc k) then byte_at l (suc k - suc ofs) else d)
later_place ofs d k l =
    let a : among (suc ofs) (length l) (suc k) ≡ among ofs (length l) k = ground arith in
    let i : suc k - suc ofs ≡ k - ofs = omega arith in rw (a, i) refl

pub byte_at-copy_into :
    (b : Buffer) (ofs : ℕ) (l : List ℕ) (k : ℕ)
    → byte_at (copy_into b ofs l) k
      ≡ (if among ofs (length l) k then byte_at l (k - ofs) else byte_at b k)
byte_at-copy_into b zero [] k =
    let out : among 0 0 k ≡ false = ground arith in sym (if_false _ _ out)
byte_at-copy_into [] zero (x ∷ l) zero = first_place x 0 (length l)
byte_at-copy_into [] zero (x ∷ l) (suc k) = byte_at-copy_into [] zero l k ∙ next_place x 0 k l
byte_at-copy_into (c ∷ b) zero (x ∷ l) zero = first_place x c (length l)
byte_at-copy_into (c ∷ b) zero (x ∷ l) (suc k) =
    byte_at-copy_into b zero l k ∙ next_place x (byte_at b k) k l
byte_at-copy_into [] (suc ofs) l zero =
    let out : among (suc ofs) (length l) 0 ≡ false = ground arith in sym (if_false _ _ out)
byte_at-copy_into [] (suc ofs) l (suc k) = byte_at-copy_into [] ofs l k ∙ later_place ofs 0 k l
byte_at-copy_into (c ∷ b) (suc ofs) l zero =
    let out : among (suc ofs) (length l) 0 ≡ false = ground arith in sym (if_false _ _ out)
byte_at-copy_into (c ∷ b) (suc ofs) l (suc k) =
    byte_at-copy_into b ofs l k ∙ later_place ofs (byte_at b k) k l

pub length-bytes_from : (b : Buffer) (ofs n : ℕ) → length (bytes_from b ofs n) ≡ n
length-bytes_from b ofs zero = refl
length-bytes_from b ofs (suc n) = ap suc (length-bytes_from b (suc ofs) n)

pub byte_at-bytes_from :
    (b : Buffer) (ofs n k : ℕ) → k < n → byte_at (bytes_from b ofs n) k ≡ byte_at b (ofs + k)
byte_at-bytes_from b ofs zero k h = absurd (omega (arith, h))
byte_at-bytes_from b ofs (suc n) zero h = ap (byte_at b) (omega arith)
byte_at-bytes_from b ofs (suc n) (suc k) h =
    byte_at-bytes_from b (suc ofs) n k (omega (arith, h)) ∙ ap (byte_at b) (omega arith)

among-block :
    (offset n j : ℕ)
    → offset % 512 + n ≤ 512
    → offset / 512 ≡ j / 512
    → among (offset % 512) n (j % 512) ≡ among offset n j
among-block offset n j fits same =
    let lo : leb (offset % 512) (j % 512) ≡ leb offset j = ground (arith, same) in
    let hi : ltb (j % 512) (offset % 512 + n) ≡ ltb j (offset + n) = ground (arith, same) in
    rw (lo, hi) refl

among-other :
    (offset n j : ℕ) → offset % 512 + n ≤ 512 → offset / 512 ≢ j / 512 → among offset n j ≡ false
among-other offset n j fits other = ground (arith, fits, other)

chosen :
    (V : ℕ → Buffer) (inode : Inode) (offset n j : ℕ) (d : ℕ → ℕ)
    → offset / 512 ≡ j / 512
    → (if among offset n j
        then d (j % 512 - offset % 512)
        else byte_at (V (sector_of V inode (offset / 512))) (j % 512))
      ≡ (if among offset n j then d (j - offset) else file_byte V inode j)
chosen V inode offset n j d same =
    let place : j % 512 - offset % 512 ≡ j - offset = omega (arith, same) in rw (place, same) refl

-- A block is written with a sector of which the bytes from `offset` on, to `n` of them, are `d` and
-- the others what they were: then so are those of the file.
pub file_byte-update :
    (V : ℕ → Buffer) (inode : Inode) (offset n j : ℕ) (b : Buffer) (d : ℕ → ℕ)
    → IsSeparate V inode
    → offset < pos_part (inode_length inode)
    → offset % 512 + n ≤ 512
    → ((k : ℕ)
        → k < 512
        → byte_at b k ≡ (
            if among (offset % 512) n k
            then d (k - offset % 512)
            else byte_at (V (sector_of V inode (offset / 512))) k))
    → j < pos_part (inode_length inode)
    → file_byte (update V (sector_of V inode (offset / 512)) b) inode j
      ≡ (if among offset n j then d (j - offset) else file_byte V inode j)
file_byte-update V inode offset n j b d x inside fits wrote below =
    let i = offset / 512 in
    let s = sector_of V inode i in
    let W = update V s b in
    let same_sector =
      sector_of-update V inode i (j / 512) b x (omega (arith, inside)) (omega (arith, below)) in
    ap (λ t. byte_at (W t) (j % 512)) same_sector ∙ elim (Bool-cases (i == (j / 512))) [
      | inl e ↦
          let same = eq_of_== i (j / 512) e in
          let here : W (sector_of V inode (j / 512)) ≡ b =
            ap (λ t. W (sector_of V inode t)) (sym same) ∙ if_true _ _ (==_refl s) in
          let places : among (offset % 512) n (j % 512) ≡ among offset n j =
            among-block offset n j fits same in
          ap (λ c. byte_at c (j % 512)) here
          ∙ (wrote (j % 512) (omega arith) ∙ rw places (chosen V inode offset n j d same))
      | inr e ↦
          let other = ne_of_== i (j / 512) e in
          let away : s ≢ sector_of V inode (j / 512) = λ same.
            other (x.apart i (j / 512) (omega (arith, inside)) (omega (arith, below)) same) in
          ap (λ c. byte_at c (j % 512)) (update-other V s (sector_of V inode (j / 512)) b away)
          ∙ sym (if_false _ _ (among-other offset n j fits other))
    ]
