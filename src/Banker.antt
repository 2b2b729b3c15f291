-- ===== src/Banker.antt =====
-- lab7/banker.cpp: the banker's algorithm. A vector is a function of the index, of which the
-- places below `r` are read. The maps needed, allocated and _max gain and lose their keys
-- together, so that one list in the order of the keys holds an entry of the three for each process.
-- The numbers that are read are not negative and small enough that no sum overflows an int.
pub mod Order
pub mod Safe
pub mod Tasks
pub mod Commands
use sustech_cs.Prelude.{
  ℕ, zero, suc, ◌+◌, ◌-◌, Bool, true, false, ◌&&◌, ◌||◌, not, Option, none, some, List, [], ◌∷◌,
  ltb, leb, ◌==◌, if◌then◌else◌,
}

abbrev pub Vec : Type 0
Vec = ℕ → ℕ

-- What the three maps hold for a process.
pub record Task : Type 0 where
  pub pid : ℕ
  pub max : Vec
  pub needed : Vec
  pub allocated : Vec

-- The globals; `req` is an argument of the functions that read it.
pub record Bank : Type 0 where
  pub r : ℕ
  pub remain : Vec
  pub resource : Vec
  pub tasks : List Task

-- A loop over i < r that stops at the first place where the test fails.
abbrev pub all_below : ℕ → (ℕ → Bool) → Bool
all_below zero p = true
all_below (suc n) p = all_below n p && p n

abbrev pub add : Vec → Vec → Vec
add v w i = v i + w i

abbrev pub fits : ℕ → Vec → Vec → Bool
fits r needed work = all_below r (λ j. leb (needed j) (work j))

-- An entry of tmp_needed and tmp_allocated with that of `finish`.
pub record Mark : Type 0 where
  pub task : Task
  pub finish : Bool

-- The body of the inner loop over the processes, the new value of `work`, and whether
-- flag_outer is set.
unfoldable pub visit : ℕ → Mark → Vec → Mark × (Vec × Bool)
visit r m work =
    if m.finish
    then (m, (work, false))
    else if fits r m.task.needed work
    then (record m { finish = true }, (add work m.task.allocated, true))
    else (m, (work, false))

abbrev pub pass : ℕ → List Mark → Vec → List Mark × (Vec × Bool)
pass r [] work = ([], (work, false))
pass r (m ∷ l) work =
    let (m', (work', moved)) = visit r m work in
    let (l', (work'', flag)) = pass r l work' in (m' ∷ l', (work'', moved || flag))

-- The outer loop with the rounds that are left; the first number is its bound.
abbrev pub rounds : ℕ → ℕ → List Mark → Vec → List Mark
rounds zero r l work = l
rounds (suc n) r l work =
    let (l', (work', flag)) = pass r l work in
    let rest = rounds n r l' work' in if flag then rest else l'

abbrev pub marks : List Task → List Mark
marks [] = []
marks (t ∷ l) = record { task = t; finish = false } ∷ marks l

abbrev pub all_finished : List Mark → Bool
all_finished [] = true
all_finished (m ∷ l) = m.finish && all_finished l

abbrev pub size : List Task → ℕ
size [] = 0
size (t ∷ l) = suc (size l)

-- The decision of safe_check on the entries and the resources that are left.
unfoldable pub is_safe : ℕ → List Task → Vec → Bool
is_safe r tasks work = all_finished (rounds (size tasks) r (marks tasks) work)

-- The whole of it; the entries it commits are those it was given.
unfoldable pub safe_check : Vec → List Task → Bank → Bool × Bank
safe_check req tmp b =
    let work = λ (i : ℕ). b.remain i - req i in
    if is_safe b.r tmp work then (true, record b { remain = work; tasks = tmp }) else (false, b)

abbrev pub find : ℕ → List Task → Option Task
find pid [] = none
find pid (t ∷ l) = let rest = find pid l in if t.pid == pid then some t else rest

-- tmp_needed and tmp_allocated.
abbrev pub requested : ℕ → Vec → List Task → List Task
requested pid req [] = []
requested pid req (t ∷ l) =
    let rest = requested pid req l in
    if t.pid == pid
    then (record t { needed = λ i. t.needed i - req i; allocated = λ i. t.allocated i + req i }
        ∷ rest)
    else t ∷ rest

-- The test of the first loop of request_judge.
abbrev pub permits : ℕ → Vec → Task → Vec → Bool
permits r req t remain =
    all_below r (λ i. not (ltb (t.max i) (req i + t.allocated i) || ltb (remain i) (req i)))

-- For a process that is not there the loop reads _max[pid][0] of a vector that it has just made
-- empty: `none`. With no kind of resource there is no such loop, and no process either.
unfoldable pub request_judge : ℕ → Vec → Bank → Option (Bool × Bank)
request_judge pid req b = elim (find pid b.tasks) [
  | none ↦ if b.r == 0 then some (safe_check req (requested pid req b.tasks) b) else none
  | some t ↦ some (
      if permits b.r req t b.remain
      then safe_check req (requested pid req b.tasks) b
      else (false, b))
]

unfoldable pub new_judge : ℕ → Vec → Bank → Bool
new_judge pid req b = elim (find pid b.tasks) [
  | none ↦ all_below b.r (λ i. not (ltb (b.resource i) (req i)))
  | some t ↦ false
]

-- A new key of the three maps.
abbrev pub insert : Task → List Task → List Task
insert t [] = t ∷ []
insert t (u ∷ l) = let rest = insert t l in if ltb t.pid u.pid then t ∷ (u ∷ l) else u ∷ rest

-- The first push_back makes the entries, if there is one.
unfoldable pub new_process : ℕ → Vec → Bank → Bank
new_process pid req b = if b.r == 0 then b else record b {
  tasks = insert (record { pid = pid; max = req; needed = req; allocated = λ i. 0 }) b.tasks;
}

abbrev pub erase : ℕ → List Task → List Task
erase pid [] = []
erase pid (t ∷ l) = let rest = erase pid l in if t.pid == pid then l else t ∷ rest

-- For a process that is there; `t` is its entry.
unfoldable pub recycle : Task → Bank → Bank
recycle t b = record b { remain = add b.remain t.allocated; tasks = erase t.pid b.tasks }

pub data Command : Type 0 where
  request : ℕ → Vec → Command
  new : ℕ → Vec → Command
  terminate : ℕ → Command
  other : ℕ → Vec → Command

pub data Reply : Type 0 where
  ok : Reply
  not_ok : Reply
  silent : Reply

abbrev pub reply : Bool → Reply
reply b = if b then ok else not_ok

-- The body of the loop of main.
unfoldable pub exec : Command → Bank → Option (Reply × Bank)
exec (request pid req) b = elim (request_judge pid req b) [
  | none ↦ none
  | some (res, b') ↦ some (reply res, b')
]
exec (new pid req) b =
    if new_judge pid req b then some (ok, new_process pid req b) else some (not_ok, b)
exec (terminate pid) b = elim (find pid b.tasks) [
  | none ↦ some (not_ok, b)
  | some t ↦ some (ok, recycle t b)
]
exec (other pid req) b = some (silent, b)

-- What main has read before the loop.
abbrev pub init : ℕ → Vec → Bank
init r resource = record { r = r; remain = resource; resource = resource; tasks = [] }
