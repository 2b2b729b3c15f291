-- ===== src/Process/Children.antt =====
-- The children of a process: what process_execute adds, process_wait and process_exit of
-- userprog/process.c, exit of userprog/syscall.c, and the end of thread_exit (threads/thread.c). The
-- loop of process_wait begins at the head of the list, which is no child; it is taken to have the
-- number of no thread.
use sustech_cs.Prelude.{
  ℕ, ◌+◌, Bool, true, false, ◌||◌, Option, none, some, List, [], ◌∷◌, ◌++◌, ◌==◌, if◌then◌else◌,
}
use sustech_cs.Prelude.Int.{ℤ, pos, negsuc, eqb_ℤ}

pub record ChildProcess : Type 0 where
  pub tid : ℤ
  pub exited : Bool
  pub waited : Bool
  pub sema : ℕ
  pub exit_status : ℤ

abbrev pub find_child : ℤ → List ChildProcess → Option ChildProcess
find_child tid [] = none
find_child tid (c ∷ l) = let rest = find_child tid l in if eqb_ℤ c.tid tid then some c else rest

-- A change of the fields of that child, and its removal.
abbrev pub set_child : ℤ → (ChildProcess → ChildProcess) → List ChildProcess → List ChildProcess
set_child tid f [] = []
set_child tid f (c ∷ l) =
    let rest = set_child tid f l in if eqb_ℤ c.tid tid then f c ∷ l else c ∷ rest

abbrev pub remove_child : ℤ → List ChildProcess → List ChildProcess
remove_child tid [] = []
remove_child tid (c ∷ l) = let rest = remove_child tid l in if eqb_ℤ c.tid tid then l else c ∷ rest

-- The part of process_execute behind the loading, where malloc would give memory or not.
unfoldable pub add_child : Bool → ℤ → List ChildProcess → ℤ × List ChildProcess
add_child memory tid l =
    if eqb_ℤ tid (negsuc 0)
    then (tid, l)
    else if memory
    then (
      tid,
      l ++ record { tid = tid; exited = false; waited = false; sema = 0; exit_status = pos 0 } ∷ [],
    )
    else (negsuc 0, l)

-- A call of process_wait returns, or blocks in sema_down.
pub data Waiting : Type 0 where
  returns : ℤ → List ChildProcess → Waiting
  blocks : List ChildProcess → Waiting

-- process_wait from sema_down on: it goes on once the value of the semaphore is not 0.
unfoldable pub wait_resume : ℤ → List ChildProcess → Waiting
wait_resume tid l = elim (find_child tid l) [
  | none ↦ blocks l
  | some child ↦
      if child.sema == 0 then blocks l else returns child.exit_status (remove_child tid l)
]

abbrev pub mark_waited : ChildProcess → ChildProcess
mark_waited c = record c { waited = true }

-- What the tests of process_wait find: a status to return, or that the process may wait.
pub data Tested : Type 0 where
  answered : ℤ → Tested
  may_wait : Tested

unfoldable pub wait_test : ℤ → List ChildProcess → Tested
wait_test tid l = elim (find_child tid l) [
  | none ↦ answered (negsuc 0)
  | some child ↦
      if eqb_ℤ tid (negsuc 0) || child.waited
      then answered (negsuc 0)
      else if child.exited
      then answered child.exit_status
      else may_wait
]

-- process_wait behind the tests. Interrupts are on, so that the child may exit before.
unfoldable pub begin_wait : ℤ → List ChildProcess → Waiting
begin_wait tid l = wait_resume tid (set_child tid mark_waited l)

-- process_wait with nothing between the tests and the wait.
unfoldable pub process_wait : ℤ → List ChildProcess → Waiting
process_wait tid l = elim (wait_test tid l) [
  | answered status ↦ returns status l
  | may_wait ↦ begin_wait tid l
]

abbrev pub mark_exited : ℤ → ChildProcess → ChildProcess
mark_exited status c = record c { exited = true; exit_status = status }

abbrev pub up_child : ChildProcess → ChildProcess
up_child c = if c.waited then record c { sema = c.sema + 1 } else c

-- exit with a status by the child `tid`, on its parent's list: exit, then thread_exit.
unfoldable pub exit_child : ℤ → ℤ → List ChildProcess → List ChildProcess
exit_child tid status l = set_child tid up_child (set_child tid (mark_exited status) l)

-- process_exit takes every child out of the list.
abbrev pub process_exit : List ChildProcess → List ChildProcess
process_exit [] = []
process_exit (c ∷ l) = process_exit l
