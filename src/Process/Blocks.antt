-- ===== src/Process/Blocks.antt =====
-- Looking up, adding and removing a file control block.
use sustech_cs.Prelude.{
  ℕ, suc, ◌≤◌, ◌<◌, ◌≡◌, ◌≢◌, refl, sym, ap, ◌∙◌, false, none, some, List, [], ◌∷◌, ◌++◌, ◌==◌,
  if◌then◌else◌, inl, inr, arith, Bool-cases, if_true, if_false, length, subst, eq_of_==,
}
use sustech_cs.Process.Files.{FileControlBlock, find_fd, remove_fd}

-- How many blocks have the descriptor `fd`.
abbrev pub count_fd : ℕ → List FileControlBlock → ℕ
count_fd fd [] = 0
count_fd fd (fc ∷ l) = if fc.fd == fd then suc (count_fd fd l) else count_fd fd l

pub count_fd-append :
    (fd : ℕ) (fc : FileControlBlock) (l : List FileControlBlock)
    → count_fd fd (l ++ fc ∷ []) ≡ count_fd fd (fc ∷ l)
count_fd-append fd fc [] = refl
count_fd-append fd fc (x ∷ l) = ground (arith, count_fd-append fd fc l)

pub count_fd-remove :
    (fd : ℕ) (l : List FileControlBlock) → count_fd fd l ≤ 1 → count_fd fd (remove_fd fd l) ≡ 0
count_fd-remove fd [] h = refl
count_fd-remove fd (x ∷ l) h = elim (Bool-cases (x.fd == fd)) [
  | inl e ↦ ap (count_fd fd) (if_true _ _ e) ∙ ground (arith, e, h)
  | inr e ↦
      ap (count_fd fd) (if_false _ _ e)
      ∙ if_false _ _ e
      ∙ count_fd-remove fd l (ground (arith, e, h))
]

pub count_fd-remove-le :
    (fd g : ℕ) (l : List FileControlBlock) → count_fd g (remove_fd fd l) ≤ count_fd g l
count_fd-remove-le fd g [] = omega arith
count_fd-remove-le fd g (x ∷ l) = elim (Bool-cases (x.fd == fd)) [
  | inl e ↦ subst (λ r. count_fd g r ≤ count_fd g (x ∷ l)) (sym (if_true _ _ e)) (ground arith)
  | inr e ↦
      subst (λ r. count_fd g r ≤ count_fd g (x ∷ l)) (sym (if_false _ _ e))
        (ground (arith, count_fd-remove-le fd g l))
]

pub find_fd-none : (fd : ℕ) (l : List FileControlBlock) → count_fd fd l ≡ 0 → find_fd fd l ≡ none
find_fd-none fd [] h = refl
find_fd-none fd (x ∷ l) h = elim (Bool-cases (x.fd == fd)) [
  | inl e ↦ absurd (ground (arith, e, h))
  | inr e ↦ if_false _ _ e ∙ find_fd-none fd l (ground (arith, e, h))
]

pub length-remove :
    (fd : ℕ) (l : List FileControlBlock)
    → 0 < count_fd fd l
    → length l ≡ suc (length (remove_fd fd l))
length-remove fd [] h = absurd (omega (arith, h))
length-remove fd (x ∷ l) h = ground (arith, h, length-remove fd l)

pub find_fd-append :
    (fd : ℕ) (fc : FileControlBlock) (l : List FileControlBlock)
    → count_fd fd l ≡ 0
    → find_fd fd (l ++ fc ∷ []) ≡ find_fd fd (fc ∷ [])
find_fd-append fd fc [] h = refl
find_fd-append fd fc (x ∷ l) h = elim (Bool-cases (x.fd == fd)) [
  | inl e ↦ absurd (ground (arith, e, h))
  | inr e ↦ if_false _ _ e ∙ find_fd-append fd fc l (ground (arith, e, h))
]

pub find_fd-append-other :
    (fd : ℕ) (fc : FileControlBlock) (l : List FileControlBlock)
    → (fc.fd == fd) ≡ false
    → find_fd fd (l ++ fc ∷ []) ≡ find_fd fd l
find_fd-append-other fd fc [] h = if_false _ _ h
find_fd-append-other fd fc (x ∷ l) h =
    ap (λ o. if x.fd == fd then some x else o) (find_fd-append-other fd fc l h)

pub find_fd-remove-other :
    (fd g : ℕ) (l : List FileControlBlock) → fd ≢ g → find_fd g (remove_fd fd l) ≡ find_fd g l
find_fd-remove-other fd g [] h = refl
find_fd-remove-other fd g (x ∷ l) h = elim (Bool-cases (x.fd == fd)) [
  | inl e ↦
      let other : (x.fd == g) ≡ false = ground (arith, e, h) in
      ap (find_fd g) (if_true _ _ e) ∙ sym (if_false _ _ other)
  | inr e ↦
      ap (find_fd g) (if_false _ _ e)
      ∙ ap (λ o. if x.fd == g then some x else o) (find_fd-remove-other fd g l h)
]

pub find_fd-count :
    (fd : ℕ) (l : List FileControlBlock) (fc : FileControlBlock)
    → find_fd fd l ≡ some fc
    → 0 < count_fd fd l
find_fd-count fd l fc e = elim (Bool-cases (count_fd fd l == 0)) [
  | inl z ↦ (let n = find_fd-none fd l (eq_of_== _ _ z) in cc)
  | inr p ↦ ground (arith, p)
]
