-- ===== src/Banker/Commands.antt =====
-- The commands of main in lab7/banker.cpp keep the bank consistent and safe.
use sustech_cs.Prelude.{
  ℕ, ◌+◌, ◌-◌, ◌≤◌, ◌<◌, ◌≡◌, ◌↔◌, refl, sym, subst, ◌⊎◌, inl, inr, Bool, true, false, ◌||◌, not,
  none, some, List, ◌==◌, ltb, All, Bool-cases, Option-cases, if_true, if_false, arith,
}
use sustech_cs.Banker.{
  Vec, Task, Bank, is_safe, safe_check, find, requested, permits, request_judge, new_judge, insert,
  new_process, erase, recycle, Command, request, new, terminate, other, Reply, ok, not_ok, silent,
  reply, exec,
}
use sustech_cs.Banker.Order.{Take, Completes, total, Completes-without, Completes-with, total-Take}
use sustech_cs.Banker.Safe.{all_below-lem, all_below-true, is_safe-Completes}
use sustech_cs.Banker.Tasks.{
  Distinct, All-Take, All-put, Distinct-Take, find-pid, Take-erase, find-none, granted,
  Take-requested, requested-Distinct, Take-insert, insert-Distinct,
}

-- What a process needs and holds makes up what it has declared.
abbrev pub IsFull : ℕ → Task → Type 0
IsFull r t = (i : ℕ) → i < r → t.needed i + t.allocated i ≡ t.max i

-- The bank between two commands: nothing is lost, and all processes can still finish.
pub record IsValid (b : Bank) : Type 0 where
  pub distinct : Distinct b.tasks
  pub full : All (IsFull b.r) b.tasks
  pub conserved : (i : ℕ) → i < b.r → b.remain i + total b.tasks i ≡ b.resource i
  pub safe : Completes b.r b.remain b.tasks

abbrev pub Permits : ℕ → Vec → Task → Vec → Type 0
Permits r req t remain = (i : ℕ) → i < r → (req i + t.allocated i ≤ t.max i) × (req i ≤ remain i)

permits-lem : (a b c d : ℕ) → (not (ltb a (b + c) || ltb d b) ≡ true) ↔ ((b + c ≤ a) × (b ≤ d))
permits-lem a b c d = ground arith

permits-Permits :
    (r : ℕ) (req : Vec) (t : Task) (remain : Vec)
    → (permits r req t remain ≡ true) ↔ Permits r req t remain
permits-Permits r req t remain =
    let test = λ (i : ℕ). not (ltb (t.max i) (req i + t.allocated i) || ltb (remain i) (req i)) in
    (
      λ e i h.
          (permits-lem (t.max i) (req i) (t.allocated i) (remain i)).0 (all_below-lem r test i e h),
      λ p.
          all_below-true r test
            (λ i h. (permits-lem (t.max i) (req i) (t.allocated i) (remain i)).1 (p i h)),
    )

-- The two ways in which safe_check ends.
safe_check-cases :
    (req : Vec) (tmp : List Task) (b : Bank)
    → (Completes b.r (λ i. b.remain i - req i) tmp
        × (safe_check req tmp b
            ≡ (true, record b { remain = λ i. b.remain i - req i; tasks = tmp })))
      ⊎ (¬ Completes b.r (λ i. b.remain i - req i) tmp × (safe_check req tmp b ≡ (false, b)))
unfolding safe_check
safe_check-cases req tmp b =
    let work = λ (i : ℕ). b.remain i - req i in
    let exact = is_safe-Completes b.r tmp work in
    elim (Bool-cases (is_safe b.r tmp work)) [
      | inl e ↦ inl (exact.0 e, if_true _ _ e)
      | inr e ↦ inr (λ c. let e' = exact.1 c in cc, if_false _ _ e)
    ]

-- A request of a process that is there is answered; it is granted exactly if it keeps to what the
-- process has declared and to what is free, and all processes can still finish behind it, and a
-- request that is not granted changes nothing.
pub request_judge_lem :
    (pid : ℕ) (req : Vec) (b : Bank) (t : Task)
    → find pid b.tasks ≡ some t
    → (res : Bool) × (b' : Bank) × (request_judge pid req b ≡ some (res, b'))
      × ((res ≡ true) ↔ (
          Permits b.r req t b.remain
          × Completes b.r (λ i. b.remain i - req i) (requested pid req b.tasks)))
      × (res ≡ true
          → b' ≡ record b { remain = λ i. b.remain i - req i; tasks = requested pid req b.tasks })
      × (res ≡ false → b' ≡ b)
unfolding request_judge
request_judge_lem pid req b t e =
    let tmp = requested pid req b.tasks in
    let exact = permits-Permits b.r req t b.remain in
    elim (Bool-cases (permits b.r req t b.remain)) [
      | inl p ↦ elim (safe_check-cases req tmp b) [
        | inl (c, s) ↦ (
          true,
          record b { remain = λ i. b.remain i - req i; tasks = tmp },
          rw (request_judge, e, p, s) refl,
          (λ h. (exact.0 p, c), λ h. refl),
          λ h. refl,
          λ h. cc,
        )
        | inr (n, s) ↦ (
          false,
          b,
          rw (request_judge, e, p, s) refl,
          (λ h. cc, λ (q, c). absurd (n c)),
          λ h. cc,
          λ h. refl,
        )
      ]
      | inr p ↦ (
        false,
        b,
        rw (request_judge, e, p) refl,
        (λ h. cc, λ (q, c). let p' = exact.1 q in cc),
        λ h. cc,
        λ h. refl,
      )
    ]

-- A grant keeps the bank valid.
granted-IsValid :
    (pid : ℕ) (req : Vec) (b : Bank) (t : Task)
    → IsValid b
    → find pid b.tasks ≡ some t
    → Permits b.r req t b.remain
    → Completes b.r (λ i. b.remain i - req i) (requested pid req b.tasks)
    → IsValid (record b { remain = λ i. b.remain i - req i; tasks = requested pid req b.tasks })
granted-IsValid pid req b t v e p c =
    let k = Take-erase pid b.tasks t e in
    let k' = Take-requested pid req b.tasks t v.distinct e in
    let (f, others) = All-Take (IsFull b.r) t b.tasks (erase pid b.tasks) k v.full in
    record {
      distinct = requested-Distinct pid req b.tasks v.distinct;
      full =
          All-put (IsFull b.r) (granted req t) (requested pid req b.tasks) (erase pid b.tasks) k'
            (λ i h. omega (arith, f i h, (p i h).0)) others;
      conserved = λ i h. omega (
        arith,
        v.conserved i h,
        (p i h).1,
        total-Take t b.tasks (erase pid b.tasks) i k,
        total-Take (granted req t) (requested pid req b.tasks) (erase pid b.tasks) i k',
      );
      safe = c;
    }

new-bound : (a b : ℕ) → not (ltb a b) ≡ true → b ≤ a
new-bound a b e = ground arith

new_process-IsValid :
    (pid : ℕ) (req : Vec) (b : Bank)
    → IsValid b
    → new_judge pid req b ≡ true
    → IsValid (new_process pid req b)
unfolding new_judge new_process
new_process-IsValid pid req b v e = elim (Bool-cases (b.r == 0)) [
  | inl z ↦ subst IsValid (sym (if_true _ _ z)) v
  | inr z ↦ elim (Option-cases (find pid b.tasks)) [
    | inl none_there ↦
        let e' = all_below-lem b.r (λ (i : ℕ). not (ltb (b.resource i) (req i))) in
        let small : (i : ℕ) → i < b.r → req i ≤ b.resource i =
          λ i h. new-bound (b.resource i) (req i) (e' i (rw (new_judge, none_there) at e) h) in
        let t : Task = record { pid = pid; max = req; needed = req; allocated = λ i. 0 } in
        let k = Take-insert t b.tasks in
        subst IsValid (sym (if_false _ _ z)) (record {
          distinct = insert-Distinct t b.tasks (find-none pid b.tasks none_there) v.distinct;
          full = All-put (IsFull b.r) t (insert t b.tasks) b.tasks k (λ i h. omega arith) v.full;
          conserved =
              λ i h. omega (arith, v.conserved i h, total-Take t (insert t b.tasks) b.tasks i k);
          safe =
              Completes-with b.r b.remain b.tasks (insert t b.tasks) t k
                (λ i h. omega (arith, small i h, v.conserved i h)) v.safe;
        })
    | inr (t, there_is) ↦ let e' : false ≡ true = rw (new_judge, there_is) at e in cc
  ]
]

recycle-IsValid :
    (pid : ℕ) (b : Bank) (t : Task) → IsValid b → find pid b.tasks ≡ some t → IsValid (recycle t b)
unfolding recycle
recycle-IsValid pid b t v e =
    let same = find-pid pid b.tasks t e in
    let k = subst (λ p. Take t b.tasks (erase p b.tasks)) (sym same) (Take-erase pid b.tasks t e) in
    let left = erase t.pid b.tasks in
    record {
      distinct = Distinct-Take t b.tasks left k v.distinct;
      full = (All-Take (IsFull b.r) t b.tasks left k v.full).1;
      conserved = λ i h. omega (arith, v.conserved i h, total-Take t b.tasks left i k);
      safe = Completes-without b.r b.remain b.tasks left t k v.safe;
    }

-- Whether a command is not a request of a process that is unknown.
abbrev pub is_defined : Command → Bank → Bool
is_defined (request pid req) b = elim (find pid b.tasks) [ none ↦ false | some t ↦ true ]
is_defined (new pid req) b = true
is_defined (terminate pid) b = true
is_defined (other pid req) b = true

-- From a valid bank every command, but for a request of a process that is unknown, is carried out
-- and leaves a valid bank: no resource is lost, each process needs and holds together what it has
-- declared, and all processes can finish one after the other.
pub exec-IsValid :
    (c : Command) (b : Bank)
    → IsValid b
    → is_defined c b ≡ true
    → (answer : Reply) × (b' : Bank) × (exec c b ≡ some (answer, b')) × IsValid b'
unfolding exec
exec-IsValid (request pid req) b v d = elim (Option-cases (find pid b.tasks)) [
  | inl e ↦ let d' : false ≡ true = rw (is_defined, e) at d in cc
  | inr (t, e) ↦
      let (res, b', made, exact, yes_then, no_then) = request_judge_lem pid req b t e in
      (
        reply res,
        b',
        rw (exec, made) refl,
        elim (Bool-cases res) [
          | inl f ↦
              let (p, c) = exact.0 f in
              subst IsValid (sym (yes_then f)) (granted-IsValid pid req b t v e p c)
          | inr f ↦ subst IsValid (sym (no_then f)) v
        ],
      )
]
exec-IsValid (new pid req) b v d = elim (Bool-cases (new_judge pid req b)) [
  | inl e ↦ (ok, new_process pid req b, if_true _ _ e, new_process-IsValid pid req b v e)
  | inr e ↦ (not_ok, b, if_false _ _ e, v)
]
exec-IsValid (terminate pid) b v d = elim (Option-cases (find pid b.tasks)) [
  | inl e ↦ (not_ok, b, rw (exec, e) refl, v)
  | inr (t, e) ↦ (ok, recycle t b, rw (exec, e) refl, recycle-IsValid pid b t v e)
]
exec-IsValid (other pid req) b v d = (silent, b, refl, v)
