-- ===== src/File/Deny.antt =====
-- The count of an inode's writers that are held off agrees with the files that hold them off, so
-- that the ASSERTs of inode_deny_write and inode_allow_write hold.
use sustech_cs.Prelude.{
  ℕ, suc, ◌+◌, ◌≤◌, ◌≡◌, refl, ◌∙◌, Bool, true, false, ◌&&◌, inl, inr, some, List, [], ◌∷◌, arith,
  count, leb, ◌==◌, if◌then◌else◌, Bool-cases, if_true, if_false,
}
use sustech_cs.Inode.{Inode, Filesys, set_inode, set_file, inode_deny_write, inode_allow_write}
use sustech_cs.File.{file_deny_write, file_allow_write}

-- How many files of a list are open on inode `i`, and how many of them deny writes to it.
abbrev pub openers : Filesys → ℕ → List ℕ → ℕ
openers fs i [] = 0
openers fs i (f ∷ l) = if (fs.file f).inode == i then suc (openers fs i l) else openers fs i l

abbrev pub deniers : Filesys → ℕ → List ℕ → ℕ
deniers fs i [] = 0
deniers fs i (f ∷ l) =
    if (fs.file f).deny_write && (fs.file f).inode == i
    then suc (deniers fs i l)
    else deniers fs i l

-- `l` are the open files, each once: every inode counts as many denials as there are files that
-- deny writes to it, and at least as many openers as there are files.
pub record IsAccounted (fs : Filesys) (l : List ℕ) : Type 0 where
  pub once : (f : ℕ) → count f l ≤ 1
  pub denials : (i : ℕ) → (fs.inode i).deny_write_cnt ≡ deniers fs i l
  pub opens : (i : ℕ) → openers fs i l ≤ (fs.inode i).open_cnt

deniers-le : (fs : Filesys) (i : ℕ) (l : List ℕ) → deniers fs i l ≤ openers fs i l
deniers-le fs i [] = omega arith
deniers-le fs i (f ∷ l) = ground (arith, deniers-le fs i l)

-- What `deny_write` of one file adds to the counts of its inode.
module _ (f : ℕ) (b : Bool) (fs : Filesys) where
  marked : Filesys
  marked = set_file f (record (fs.file f) { deny_write = b }) fs

  openers-marked : (i : ℕ) (l : List ℕ) → openers marked i l ≡ openers fs i l
  unfolding marked
  openers-marked i [] = refl
  openers-marked i (g ∷ l) = ground (arith, openers-marked i l)

  deniers-away : (i : ℕ) (l : List ℕ) → count f l ≡ 0 → deniers marked i l ≡ deniers fs i l
  unfolding marked
  deniers-away i [] h = refl
  deniers-away i (g ∷ l) h = ground (arith, h, deniers-away i l)

deniers-denied :
    (f i : ℕ) (fs : Filesys) (l : List ℕ)
    → (fs.file f).deny_write ≡ false
    → count f l ≡ 1
    → deniers (set_file f (record (fs.file f) { deny_write = true }) fs) i l
      ≡ deniers fs i l + (if (fs.file f).inode == i then 1 else 0)
unfolding marked
deniers-denied f i fs [] d h = ground (arith, h)
deniers-denied f i fs (g ∷ l) d h = elim (Bool-cases (g == f)) [
  | inl same ↦ ground (arith, same, d, h, deniers-away f true fs i l)
  | inr other ↦ ground (arith, other, d, h, deniers-denied f i fs l d)
]

deniers-allowed :
    (f i : ℕ) (fs : Filesys) (l : List ℕ)
    → (fs.file f).deny_write ≡ true
    → count f l ≡ 1
    → deniers fs i l
      ≡ deniers (set_file f (record (fs.file f) { deny_write = false }) fs) i l
        + (if (fs.file f).inode == i then 1 else 0)
unfolding marked
deniers-allowed f i fs [] d h = ground (arith, h)
deniers-allowed f i fs (g ∷ l) d h = elim (Bool-cases (g == f)) [
  | inl same ↦ ground (arith, same, d, h, deniers-away f false fs i l)
  | inr other ↦ ground (arith, other, d, h, deniers-allowed f i fs l d)
]

-- Another record of an inode changes none of the files.
module _ (j : ℕ) (v : Inode) (fs : Filesys) where
  openers-set_inode : (i : ℕ) (l : List ℕ) → openers (set_inode j v fs) i l ≡ openers fs i l
  openers-set_inode i [] = refl
  openers-set_inode i (g ∷ l) = ground (arith, openers-set_inode i l)

  deniers-set_inode : (i : ℕ) (l : List ℕ) → deniers (set_inode j v fs) i l ≡ deniers fs i l
  deniers-set_inode i [] = refl
  deniers-set_inode i (g ∷ l) = ground (arith, deniers-set_inode i l)

-- With correct counts, file_deny_write of an open file succeeds, the counts stay correct, and the
-- file denies writes.
file_deny_write_lem :
    (f : ℕ) (l : List ℕ) (fs : Filesys)
    → IsAccounted fs l
    → count f l ≡ 1
    → (fs' : Filesys) × (file_deny_write f fs ≡ some fs')
      × IsAccounted fs' l
      × ((fs'.file f).deny_write ≡ true)
unfolding file_deny_write inode_deny_write marked
file_deny_write_lem f l fs a h = elim (Bool-cases (fs.file f).deny_write) [
  | inl d ↦ (fs, if_true _ _ d, a, d)
  | inr d ↦
      let i = (fs.file f).inode in
      let m = set_file f (record (fs.file f) { deny_write = true }) fs in
      let v = record (fs.inode i) { deny_write_cnt = (fs.inode i).deny_write_cnt + 1 } in
      let fits : leb ((fs.inode i).deny_write_cnt + 1) (fs.inode i).open_cnt ≡ true = ground (
        arith,
        a.denials i,
        a.opens i,
        deniers-denied f i fs l d h,
        deniers-le m i l,
        openers-marked f true fs i l,
      ) in
      (
        set_inode i v m,
        if_false _ _ d ∙ if_true _ _ fits,
        record {
          once = a.once;
          denials = λ j.
              ground (arith, a.denials j, deniers-set_inode i v m j l, deniers-denied f j fs l d h);
          opens = λ j.
              ground (arith, a.opens j, openers-set_inode i v m j l, openers-marked f true fs j l);
        },
        ground arith,
      )
]

-- With correct counts, file_allow_write of an open file succeeds, the counts stay correct, and the
-- file denies no writes.
pub file_allow_write_lem :
    (f : ℕ) (l : List ℕ) (fs : Filesys)
    → IsAccounted fs l
    → count f l ≡ 1
    → (fs' : Filesys) × (file_allow_write f fs ≡ some fs')
      × IsAccounted fs' l
      × ((fs'.file f).deny_write ≡ false)
unfolding file_allow_write inode_allow_write marked
file_allow_write_lem f l fs a h = elim (Bool-cases (fs.file f).deny_write) [
  | inr d ↦ (fs, if_false _ _ d, a, d)
  | inl d ↦
      let i = (fs.file f).inode in
      let m = set_file f (record (fs.file f) { deny_write = false }) fs in
      let c = deniers m i l in
      let v = record (fs.inode i) { deny_write_cnt = c } in
      let one_more : (fs.inode i).deny_write_cnt ≡ suc c =
        ground (arith, a.denials i, deniers-allowed f i fs l d h) in
      let fits : leb (suc c) (fs.inode i).open_cnt ≡ true =
        ground (arith, one_more, a.denials i, a.opens i, deniers-le fs i l) in
      (
        set_inode i v m,
        if_true _ _ d ∙ rw (inode_allow_write, one_more) (if_true _ _ fits),
        record {
          once = a.once;
          denials = λ j.
              ground
                (arith, a.denials j, deniers-set_inode i v m j l, deniers-allowed f j fs l d h);
          opens = λ j.
              ground (arith, a.opens j, openers-set_inode i v m j l, openers-marked f false fs j l);
        },
        ground arith,
      )
]
