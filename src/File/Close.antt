-- ===== src/File/Close.antt =====
-- Opening and closing files keeps the counts of the inodes correct.
use sustech_cs.Prelude.{
  ℕ, zero, suc, ◌+◌, ◌-◌, ◌<◌, ◌≡◌, refl, sym, ap, ◌∙◌, false, inl, inr, none, some, List, [], ◌∷◌,
  arith, count, ◌==◌, if◌then◌else◌, Bool-cases, if_true, if_false,
}
use sustech_cs.Klist.{list_remove}
use sustech_cs.Klist.Ordered.{count-remove}
use sustech_cs.Inode.{Filesys, set_inode, inode_close}
use sustech_cs.File.{file_close}
use sustech_cs.File.Deny.{openers, deniers, IsAccounted, file_allow_write_lem}

-- Without the file `f`, an inode has one opener less if `f` was open on it.
openers-remove :
    (f i : ℕ) (fs : Filesys) (l : List ℕ)
    → count f l ≡ 1
    → openers fs i (list_remove f l) + (if (fs.file f).inode == i then 1 else 0) ≡ openers fs i l
unfolding list_remove
openers-remove f i fs [] h = ground (arith, h)
openers-remove f i fs (g ∷ l) h = elim (Bool-cases (g == f)) [
  | inl same ↦ ground (arith, same, h)
  | inr other ↦ ground (arith, other, h, openers-remove f i fs l)
]

-- A file that denies nothing is no denier.
deniers-remove :
    (f i : ℕ) (fs : Filesys) (l : List ℕ)
    → (fs.file f).deny_write ≡ false
    → deniers fs i (list_remove f l) ≡ deniers fs i l
unfolding list_remove
deniers-remove f i fs [] d = refl
deniers-remove f i fs (g ∷ l) d = elim (Bool-cases (g == f)) [
  | inl same ↦ ground (arith, same, d)
  | inr other ↦ ground (arith, other, d, deniers-remove f i fs l d)
]

-- The counts depend on the files alone.
deniers-cong :
    (fs fs' : Filesys) (i : ℕ) (l : List ℕ) → fs'.file ≡ fs.file → deniers fs' i l ≡ deniers fs i l
deniers-cong fs fs' i [] e = refl
deniers-cong fs fs' i (g ∷ l) e = rw (e, deniers-cong fs fs' i l e) refl

openers-cong :
    (fs fs' : Filesys) (i : ℕ) (l : List ℕ) → fs'.file ≡ fs.file → openers fs' i l ≡ openers fs i l
openers-cong fs fs' i [] e = refl
openers-cong fs fs' i (g ∷ l) e = rw (e, openers-cong fs fs' i l e) refl

-- What inode_close changes of the counts.
inode_close_lem :
    (i : ℕ) (fs : Filesys)
    → 0 < (fs.inode i).open_cnt
    → (fs' : Filesys) × (inode_close i fs ≡ some fs')
      × (fs'.file ≡ fs.file)
      × ((j : ℕ) → (fs'.inode j).deny_write_cnt ≡ (fs.inode j).deny_write_cnt)
      × ((j : ℕ) → (fs'.inode j).open_cnt + (if i == j then 1 else 0) ≡ (fs.inode j).open_cnt)
unfolding inode_close
inode_close_lem i fs h =
    let n : ℕ = (fs.inode i).open_cnt - 1 in
    let counted : (fs.inode i).open_cnt ≡ suc n = omega (arith, h) in
    let closed = set_inode i (record (fs.inode i) { open_cnt = n }) fs in
    let gone = record closed {
      open_inodes = list_remove i fs.open_inodes;
      deallocated = if (fs.inode i).removed then i ∷ fs.deallocated else fs.deallocated;
    } in
    let opens =
      ap (λ c. elim c [ zero ↦ none | suc m ↦ if m == 0 then some gone else some closed ])
        counted in
    elim (Bool-cases (n == 0)) [
      | inl last ↦
          (gone, opens ∙ if_true _ _ last, refl, λ j. ground arith, λ j. ground (arith, counted))
      | inr more ↦
          (closed, opens ∙ if_false _ _ more, refl, λ j. ground arith, λ j. ground (arith, counted))
    ]

-- With correct counts, file_close of an open file succeeds, and the counts are correct for the files
-- that are left.
pub file_close_lem :
    (f : ℕ) (l : List ℕ) (fs : Filesys)
    → IsAccounted fs l
    → count f l ≡ 1
    → (fs' : Filesys) × (file_close (some f) fs ≡ some fs') × IsAccounted fs' (list_remove f l)
unfolding file_close
file_close_lem f l fs a h =
    let (k, e, b, d) = file_allow_write_lem f l fs a h in
    let i = (k.file f).inode in
    let opened : 0 < (k.inode i).open_cnt = ground (arith, b.opens i, openers-remove f i k l h) in
    let (fs', e', same, den, ops) = inode_close_lem i k opened in
    (
      fs',
      rw e e',
      record {
        once = λ g. ground (arith, count-remove g f l, b.once g);
        denials = λ j.
            den j
            ∙ b.denials j
            ∙ sym (deniers-remove f j k l d)
            ∙ sym (deniers-cong k fs' j (list_remove f l) same);
        opens = λ j. ground (
          arith,
          openers-cong k fs' j (list_remove f l) same,
          openers-remove f j k l h,
          ops j,
          b.opens j,
        );
      },
    )
