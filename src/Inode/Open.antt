-- ===== src/Inode/Open.antt =====
-- An inode that is opened twice is one inode.
use sustech_cs.Prelude.{
  ℕ, ◌≡◌, refl, sym, ap, ◌∙◌, false, inl, inr, Option, none, some, List, [], ◌∷◌, arith,
  Option-cases, some-injective,
}
use sustech_cs.Inode.{Filesys, set_inode, inode_open, inode_reopen, find_open}
use sustech_cs.Block.{Buffer}
use sustech_cs.Cache.{Cache, cache_read}

find_open-cong :
    (s : ℕ) (l : List ℕ) (fs fs' : Filesys)
    → ((i : ℕ) → (fs'.inode i).sector ≡ (fs.inode i).sector)
    → find_open s l fs' ≡ find_open s l fs
unfolding find_open
find_open-cong s [] fs fs' same = refl
find_open-cong s (i ∷ l) fs fs' same = rw (same i, find_open-cong s l fs fs' same) refl

-- The inode of a sector, once it is found, is found again after it has been opened.
opened :
    (s i : ℕ) (fs : Filesys)
    → find_open s fs.open_inodes fs ≡ some i
    → (b : Option ℕ) → inode_open s b fs ≡ some (some i, inode_reopen i fs)
unfolding inode_open
opened s i fs e b = rw (inode_open, e) refl

found_again :
    (s i : ℕ) (fs : Filesys)
    → find_open s fs.open_inodes fs ≡ some i
    → find_open s (inode_reopen i fs).open_inodes (inode_reopen i fs) ≡ some i
unfolding inode_reopen
found_again s i fs e =
    find_open-cong s fs.open_inodes fs (inode_reopen i fs) (λ j. ground arith) ∙ e

-- The state in which the inode at `m` has been entered for sector `s`.
abbrev entered : ℕ → ℕ → Buffer × Cache → Filesys → Filesys
entered s m r fs =
    set_inode m
      (record { sector = s; open_cnt = 1; removed = false; deny_write_cnt = 0; content = r.0 })
      (record fs { open_inodes = m ∷ fs.open_inodes; device = r.1 })

entered-first :
    (s m : ℕ) (r : Buffer × Cache) (fs : Filesys)
    → find_open s (entered s m r fs).open_inodes (entered s m r fs) ≡ some m
unfolding find_open
entered-first s m r fs = ground arith

nothing :
    (s i : ℕ) (fs fs' : Filesys)
    → ◌≡◌ {A = Option (Option ℕ × Filesys)} (some (none, fs)) (some (some i, fs'))
    → ⊥
nothing s i fs fs' e = ground (arith, e)

nowhere :
    (s i : ℕ) (fs fs' : Filesys)
    → ◌≡◌ {A = Option (Option ℕ × Filesys)} none (some (some i, fs'))
    → ⊥
nowhere s i fs fs' e = ground (arith, e)

finds :
    (s i : ℕ) (a : Option ℕ) (fs fs' : Filesys)
    → inode_open s a fs ≡ some (some i, fs')
    → find_open s fs'.open_inodes fs' ≡ some i
unfolding inode_open
finds s i a fs fs' e = elim (Option-cases (find_open s fs.open_inodes fs)) [
  | inr (j, f) ↦
      let p : (some j, inode_reopen j fs) ≡ (some i, fs') =
        some-injective _ _ (sym (opened s j fs f a) ∙ e) in
      ap (λ (x : Filesys). find_open s x.open_inodes x) (sym (ap (λ r. r.1) p))
      ∙ found_again s j fs f
      ∙ ap (λ r. r.0) p
  | inl f ↦ elim (Option-cases a) [
    | inl n ↦ absurd (nothing s i fs fs' (sym (rw (inode_open, f, n) refl) ∙ e))
    | inr (m, y) ↦ elim (Option-cases (cache_read s fs.device)) [
      | inl c ↦ absurd (nowhere s i fs fs' (sym (rw (inode_open, f, y, c) refl) ∙ e))
      | inr (r, c) ↦
          let q : inode_open s a fs ≡ some (some m, entered s m r fs) =
            rw (inode_open, f, y, c) refl in
          let p : (some m, entered s m r fs) ≡ (some i, fs') = some-injective _ _ (sym q ∙ e) in
          ap (λ (x : Filesys). find_open s x.open_inodes x) (sym (ap (λ r. r.1) p))
          ∙ entered-first s m r fs
          ∙ ap (λ r. r.0) p
    ]
  ]
]

-- If inode_open of a sector returns an inode, then opening the same sector again at once returns the
-- same inode, whatever memory there is, and only counts one more opener.
inode_open_twice :
    (s i : ℕ) (a b : Option ℕ) (fs fs' : Filesys)
    → inode_open s a fs ≡ some (some i, fs')
    → inode_open s b fs' ≡ some (some i, inode_reopen i fs')
inode_open_twice s i a b fs fs' e = opened s i fs' (finds s i a fs fs' e) b
