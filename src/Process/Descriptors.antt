-- ===== src/Process/Descriptors.antt =====
-- The descriptors of a process name its open files.
use sustech_cs.Prelude.{
  ℕ, ◌+◌, ◌-◌, ◌≤◌, ◌<◌, ◌≡◌, ◌≢◌, refl, sym, ap, ◌∙◌, true, false, Option, none, some, List, [],
  ◌∷◌, ◌++◌, ltb, ◌==◌, if◌then◌else◌, ◌>>=◌, inl, inr, arith, Bool-cases, Option-cases, if_true,
  if_false, length, length-append, ==_refl, subst, some-injective, eq_of_==, ne_of_==,
}
use sustech_cs.Prelude.Int.{pos}
use sustech_cs.Inode.{Filesys}
use sustech_cs.Klist.{list_remove}
use sustech_cs.File.{file_close}
use sustech_cs.File.Deny.{IsAccounted}
use sustech_cs.File.Close.{file_close_lem}
use sustech_cs.Process.Files.{
  FileControlBlock, Descriptors, add_file, find_fd, remove_fd, get_file, close_file, close_files,
  exit_files,
}
use sustech_cs.Process.Blocks.{
  count_fd, count_fd-append, count_fd-remove, count_fd-remove-le, find_fd-none, length-remove,
  find_fd-append, find_fd-append-other, find_fd-remove-other, find_fd-count,
}

-- Every descriptor is used once at most, is none of the console's, and comes before the next one.
pub record IsValid (t : Descriptors) : Type 0 where
  pub once : (fd : ℕ) → count_fd fd t.file_list ≤ 1
  pub standard : (fd : ℕ) → fd < 2 → count_fd fd t.file_list ≡ 0
  pub fresh : (fd : ℕ) → t.fd ≤ fd → count_fd fd t.file_list ≡ 0
  pub started : 2 ≤ t.fd
  pub num : t.file_num ≡ length t.file_list

-- get_file of a descriptor that is not past the counter.
named : Option FileControlBlock → Option (Option ℕ)
named o = o >>= λ fc. some (some fc.process_file)

get_file_lem :
    (g : ℕ) (t : Descriptors) → g ≤ t.fd → get_file (pos g) t ≡ named (find_fd g t.file_list)
unfolding get_file named
get_file_lem g t b = let near : ltb t.fd g ≡ false = ground (arith, b) in if_false _ _ near

-- add_file, where there is a page for the block, gives the process a descriptor that it did not
-- have, by which get_file finds the file; the earlier descriptors name what they named, and the
-- descriptors stay valid.
pub add_file_lem :
    (f : ℕ) (t : Descriptors)
    → IsValid t
    → (t' : Descriptors) × (add_file true f t ≡ (pos t.fd, t'))
      × (count_fd t.fd t.file_list ≡ 0)
      × (get_file (pos t.fd) t' ≡ some (some f))
      × ((g : ℕ) → g < t.fd → get_file (pos g) t' ≡ get_file (pos g) t)
      × IsValid t'
unfolding add_file named
add_file_lem f t v =
    let fc : FileControlBlock = record { process_file = f; fd = t.fd } in
    let new = v.fresh t.fd (omega arith) in
    let t' : Descriptors = record {
      file_list = t.file_list ++ fc ∷ [];
      fd = t.fd + 1;
      file_num = t.file_num + 1;
    } in
    let found : find_fd t.fd (t.file_list ++ fc ∷ []) ≡ some fc =
      find_fd-append t.fd fc t.file_list new ∙ if_true _ _ (==_refl t.fd) in
    (
      t',
      refl,
      new,
      get_file_lem t.fd t' (omega arith) ∙ ap named found,
      λ g b.
          let other : (t.fd == g) ≡ false = ground (arith, b) in
          get_file_lem g t' (omega (arith, b))
          ∙ ap named (find_fd-append-other g fc t.file_list other)
          ∙ sym (get_file_lem g t (omega (arith, b))),
      record {
        once = λ g. ground (arith, v.once g, new, count_fd-append g fc t.file_list);
        standard =
            λ g b. ground (arith, v.standard g b, v.started, count_fd-append g fc t.file_list);
        fresh = λ g b.
            ground (arith, v.fresh g (omega (arith, b)), b, count_fd-append g fc t.file_list);
        started = omega (arith, v.started);
        num = omega (arith, v.num, length-append t.file_list (fc ∷ []));
      },
    )

get_file-some :
    (fd f : ℕ) (t : Descriptors)
    → get_file (pos fd) t ≡ some (some f)
    → (fc : FileControlBlock) × (ltb t.fd fd ≡ false)
      × (find_fd fd t.file_list ≡ some fc)
      × (fc.process_file ≡ f)
unfolding get_file
get_file-some fd f t e = elim (Bool-cases (ltb t.fd fd)) [
  | inl far ↦ absurd (let n = some-injective _ _ (sym (if_true _ _ far) ∙ e) in cc)
  | inr near ↦ elim (Option-cases (find_fd fd t.file_list)) [
    | inl absent ↦
        absurd (let n : none ≡ some (some f) = sym (if_false _ _ near ∙ rw absent refl) ∙ e in cc)
    | inr (fc, found) ↦
        let n = sym (if_false _ _ near ∙ rw found refl) ∙ e in
        (fc, near, found, some-injective _ _ (some-injective _ _ n))
  ]
]

-- close_file of a descriptor by which get_file finds a file, where file_close succeeds, closes that
-- file and no other. No block has the descriptor then, so that get_file of it panics; every other
-- descriptor names what it named, and the descriptors stay valid.
pub close_file_lem :
    (fd f : ℕ) (t : Descriptors) (fs fs' : Filesys)
    → IsValid t
    → get_file (pos fd) t ≡ some (some f)
    → file_close (some f) fs ≡ some fs'
    → (t' : Descriptors) × (close_file (pos fd) t fs ≡ some (true, t', fs'))
      × (count_fd fd t'.file_list ≡ 0)
      × ((g : ℕ) → get_file (pos g) t' ≡ (if fd == g then none else get_file (pos g) t))
      × IsValid t'
unfolding close_file get_file named
close_file_lem fd f t fs fs' v h e =
    let (fc, near, found, same) = get_file-some fd f t h in
    let has = find_fd-count fd t.file_list fc found in
    let gone = count_fd-remove fd t.file_list (v.once fd) in
    let fewer = λ (g : ℕ). count_fd-remove-le fd g t.file_list in
    let opened : (t.file_num == 0) ≡ false =
      ground (arith, v.num, length-remove fd t.file_list has) in
    let t' : Descriptors = record t {
      file_list = remove_fd fd t.file_list;
      file_num = t.file_num - 1;
    } in
    (
      t',
      rw (near, opened, found, same, e) refl,
      gone,
      λ g. elim (Bool-cases (fd == g)) [
        | inl this ↦
            let near' : ltb t.fd g ≡ false = ground (arith, near, this) in
            let same : fd ≡ g = eq_of_== fd g this in
            let none_has : count_fd g (remove_fd fd t.file_list) ≡ 0 =
              ap (λ k. count_fd k (remove_fd fd t.file_list)) (sym same) ∙ gone in
            if_false _ _ near'
            ∙ ap named (find_fd-none g (remove_fd fd t.file_list) none_has)
            ∙ sym (if_true _ _ this)
        | inr other ↦
            ap (λ o. if ltb t.fd g then some none else named o)
              (find_fd-remove-other fd g t.file_list (ne_of_== fd g other))
            ∙ sym (if_false _ _ other)
      ],
      record {
        once = λ g. omega (arith, v.once g, fewer g);
        standard = λ g b. omega (arith, v.standard g b, fewer g);
        fresh = λ g b. omega (arith, v.fresh g b, fewer g);
        started = v.started;
        num = omega (arith, v.num, length-remove fd t.file_list has);
      },
    )

-- get_file of a descriptor that is not past the counter and that no block has panics. close_file of
-- it panics too where a file is open; where none is, it returns false and changes nothing.
pub get_file_missing :
    (fd : ℕ) (t : Descriptors) (fs : Filesys)
    → fd ≤ t.fd
    → count_fd fd t.file_list ≡ 0
    → (get_file (pos fd) t ≡ none)
      × (t.file_num ≢ 0 → close_file (pos fd) t fs ≡ none)
      × (t.file_num ≡ 0 → close_file (pos fd) t fs ≡ some (false, t, fs))
unfolding close_file named
get_file_missing fd t fs b none_has =
    let absent = find_fd-none fd t.file_list none_has in
    let near : ltb t.fd fd ≡ false = ground (arith, b) in
    (
      get_file_lem fd t b ∙ ap named absent,
      λ some_open.
          let opened : (t.file_num == 0) ≡ false = ground (arith, some_open) in
          rw (near, opened, absent) refl,
      λ closed. let empty : (t.file_num == 0) ≡ true = rw closed refl in rw (near, empty) refl,
    )

-- The files of the blocks.
abbrev pub open_files : List FileControlBlock → List ℕ
open_files [] = []
open_files (fc ∷ l) = fc.process_file ∷ open_files l

list_remove-head : (f : ℕ) (l : List ℕ) → list_remove f (f ∷ l) ≡ l
unfolding list_remove
list_remove-head f l = if_true _ _ (==_refl f)

close_files_lem :
    (l : List FileControlBlock) (others : List ℕ) (fs : Filesys)
    → IsAccounted fs (open_files l ++ others)
    → (fs' : Filesys) × (close_files (length l) l fs ≡ some ([], fs')) × IsAccounted fs' others
unfolding close_files
close_files_lem [] others fs a = (fs, refl, a)
close_files_lem (fc ∷ l) others fs a =
    let f = fc.process_file in
    let rest = open_files l ++ others in
    let (fs1, e1, a1) = file_close_lem f (f ∷ rest) fs a (ground (arith, a.once f)) in
    let (fs2, e2, a2) =
      close_files_lem l others fs1 (subst (IsAccounted fs1) (list_remove-head f rest) a1) in
    (fs2, rw e1 e2, a2)

-- The loop of thread_exit, where the files of the process and `others` are the open files of the
-- system, with correct counts, ends without a panic: no descriptor is left, and the counts are
-- correct for `others`.
pub exit_files_lem :
    (t : Descriptors) (others : List ℕ) (fs : Filesys)
    → IsValid t
    → IsAccounted fs (open_files t.file_list ++ others)
    → (t' : Descriptors) × (fs' : Filesys) × (exit_files t fs ≡ some (t', fs'))
      × (t'.file_list ≡ [])
      × IsAccounted fs' others
unfolding exit_files
exit_files_lem t others fs v a =
    let (fs', e, a') = close_files_lem t.file_list others fs a in
    (record t { file_list = []; file_num = 0 }, fs', rw (v.num, e) refl, refl, a')
