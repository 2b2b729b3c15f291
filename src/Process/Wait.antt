-- ===== src/Process/Wait.antt =====
-- Whether a process waits for its child before it exits or after, it gets the child's status.
use sustech_cs.Prelude.{
  ◌+◌, ◌≡◌, refl, sym, ap, ◌∙◌, true, false, some, List, [], ◌∷◌, ◌==◌, arith, Bool-cases, if_true,
  if_false, inl, inr, some-injective,
}
use sustech_cs.Prelude.Int.{ℤ, negsuc, eqb_ℤ}
use sustech_cs.Process.Children.{
  ChildProcess, find_child, set_child, remove_child, returns, blocks, wait_resume, mark_waited,
  may_wait, wait_test, begin_wait, process_wait, mark_exited, up_child, exit_child,
}

module _ (tid : ℤ) (f : ChildProcess → ChildProcess)
    (same : (c : ChildProcess) → (f c).tid ≡ c.tid) where
  find_child-set_child :
      (l : List ChildProcess) (c : ChildProcess)
      → find_child tid l ≡ some c
      → find_child tid (set_child tid f l) ≡ some (f c)
  find_child-set_child [] c e = absurd cc
  find_child-set_child (x ∷ l) c e = elim (Bool-cases (eqb_ℤ x.tid tid)) [
    | inl this ↦
        let kept : eqb_ℤ (f x).tid tid ≡ true = ap (λ t. eqb_ℤ t tid) (same x) ∙ this in
        ap (find_child tid) (if_true _ _ this)
        ∙ if_true _ _ kept
        ∙ ap (λ c. some (f c)) (some-injective _ _ (sym (if_true _ _ this) ∙ e))
    | inr other ↦
        ap (find_child tid) (if_false _ _ other)
        ∙ if_false _ _ other
        ∙ find_child-set_child l c (sym (if_false _ _ other) ∙ e)
  ]

  remove_child-set_child :
      (l : List ChildProcess) → remove_child tid (set_child tid f l) ≡ remove_child tid l
  remove_child-set_child [] = refl
  remove_child-set_child (x ∷ l) = elim (Bool-cases (eqb_ℤ x.tid tid)) [
    | inl this ↦
        let kept : eqb_ℤ (f x).tid tid ≡ true = ap (λ t. eqb_ℤ t tid) (same x) ∙ this in
        ap (remove_child tid) (if_true _ _ this) ∙ if_true _ _ kept ∙ sym (if_true _ _ this)
    | inr other ↦
        ap (remove_child tid) (if_false _ _ other)
        ∙ if_false _ _ other
        ∙ ap (λ l. x ∷ l) (remove_child-set_child l)
        ∙ sym (if_false _ _ other)
  ]

-- process_wait of a child that has exited.
process_wait-exited :
    (tid : ℤ) (l : List ChildProcess) (c : ChildProcess)
    → eqb_ℤ tid (negsuc 0) ≡ false
    → find_child tid l ≡ some c
    → c.waited ≡ false
    → c.exited ≡ true
    → process_wait tid l ≡ returns c.exit_status l
unfolding process_wait wait_test
process_wait-exited tid l c valid e alone over =
    rw (process_wait, wait_test, e, valid, alone, over) refl

wait_test-alive :
    (tid : ℤ) (l : List ChildProcess) (c : ChildProcess)
    → eqb_ℤ tid (negsuc 0) ≡ false
    → find_child tid l ≡ some c
    → c.waited ≡ false
    → c.exited ≡ false
    → wait_test tid l ≡ may_wait
unfolding wait_test
wait_test-alive tid l c valid e alone alive = rw (wait_test, e, valid, alone, alive) refl

-- process_wait of a child that has not.
process_wait-alive :
    (tid : ℤ) (l : List ChildProcess) (c : ChildProcess)
    → eqb_ℤ tid (negsuc 0) ≡ false
    → find_child tid l ≡ some c
    → c.waited ≡ false
    → c.exited ≡ false
    → process_wait tid l ≡ wait_resume tid (set_child tid mark_waited l)
unfolding process_wait begin_wait
process_wait-alive tid l c valid e alone alive =
    rw (process_wait, wait_test-alive tid l c valid e alone alive) refl

wait_resume-blocks :
    (tid : ℤ) (l : List ChildProcess) (c : ChildProcess)
    → find_child tid l ≡ some c
    → (c.sema == 0) ≡ true
    → wait_resume tid l ≡ blocks l
unfolding wait_resume
wait_resume-blocks tid l c e value = rw (wait_resume, e, value) refl

wait_resume-returns :
    (tid : ℤ) (l : List ChildProcess) (c : ChildProcess)
    → find_child tid l ≡ some c
    → (c.sema == 0) ≡ false
    → wait_resume tid l ≡ returns c.exit_status (remove_child tid l)
unfolding wait_resume
wait_resume-returns tid l c e value = rw (wait_resume, e, value) refl

-- A child, of a number other than -1, that is in its parent's list, neither has exited nor is
-- waited for, and whose semaphore is at 0. If it exits before the tests of process_wait,
-- process_wait returns the status at once and leaves the list as it is, so that a second call
-- returns it again. If it exits when process_wait has blocked, process_wait goes on, returns the
-- status and takes the child out of the list. If it exits between the tests of process_wait and the
-- setting of waited, process_wait blocks with the exit behind it.
pub process_wait_lem :
    (tid status : ℤ) (l : List ChildProcess) (c : ChildProcess)
    → eqb_ℤ tid (negsuc 0) ≡ false
    → find_child tid l ≡ some c
    → c.exited ≡ false
    → c.waited ≡ false
    → c.sema ≡ 0
    → (let gone = exit_child tid status l in
        (process_wait tid gone ≡ returns status gone)
        × ((l' : List ChildProcess) × (process_wait tid l ≡ blocks l')
            × (wait_resume tid (exit_child tid status l') ≡ returns status (remove_child tid l)))
        × (wait_test tid l ≡ may_wait)
        × (begin_wait tid gone ≡ blocks (set_child tid mark_waited gone)))
unfolding exit_child begin_wait
process_wait_lem tid status l c valid e alive alone zero_sema =
    let l' = set_child tid mark_waited l in
    let gone = exit_child tid status l in
    let over = mark_exited status c in
    let e1 = find_child-set_child tid (mark_exited status) (λ c. refl) l c e in
    let e2 : find_child tid gone ≡ some over =
      find_child-set_child tid up_child up_child-tid _ _ e1 ∙ ap some (if_false _ _ alone) in
    let m2 = find_child-set_child tid mark_waited (λ c. refl) gone over e2 in
    let w1 : find_child tid l' ≡ some (mark_waited c) =
      find_child-set_child tid mark_waited (λ c. refl) l c e in
    let w2 = find_child-set_child tid (mark_exited status) (λ c. refl) l' _ w1 in
    let w3 = find_child-set_child tid up_child up_child-tid _ _ w2 in
    let value : (c.sema == 0) ≡ true = ground (arith, zero_sema) in
    let value' : (c.sema + 1 == 0) ≡ false = ground arith in
    (
      process_wait-exited tid gone over valid e2 alone refl,
      (
        l',
        process_wait-alive tid l c valid e alone alive
            ∙ wait_resume-blocks tid l' (mark_waited c) w1 value,
        wait_resume-returns tid _ _ w3 value' ∙ ap (returns status) (removed tid status l),
      ),
      wait_test-alive tid l c valid e alone alive,
      wait_resume-blocks tid (set_child tid mark_waited gone) (mark_waited over) m2 value,
    )
  where
    up_child-tid : (c : ChildProcess) → (up_child c).tid ≡ c.tid
    up_child-tid c = elim (Bool-cases c.waited) [ inl w ↦ rw w refl | inr w ↦ rw w refl ]

    removed :
        (tid status : ℤ) (l : List ChildProcess)
        → remove_child tid (exit_child tid status (set_child tid mark_waited l))
          ≡ remove_child tid l
    removed tid status l =
        let l' = set_child tid mark_waited l in
        remove_child-set_child tid up_child up_child-tid (set_child tid (mark_exited status) l')
        ∙ remove_child-set_child tid (mark_exited status) (λ c. refl) l'
        ∙ remove_child-set_child tid mark_waited (λ c. refl) l
