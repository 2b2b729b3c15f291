-- ===== src/Process/Stack.antt =====
-- setup_argument of userprog/process.c: the arguments of a program on its stack. Memory is an array
-- of bytes, an address is a number below 2 ^ 32, and a string is the list of its characters.
use sustech_cs.Prelude.{
  ℕ, suc, ◌+◌, ◌-◌, ◌*◌, ◌/◌, ◌%◌, ◌^◌, List, [], ◌∷◌, ◌++◌, leb, length, if◌then◌else◌, update,
}

abbrev pub Memory : Type 0
Memory = ℕ → ℕ

-- A pointer less `n`, with the wrap-around of 32 bits.
abbrev pub sub_ptr : ℕ → ℕ → ℕ
sub_ptr a n = if leb n a then a - n else a + 2 ^ 32 - n

-- memcpy to `a`.
abbrev pub store_bytes : ℕ → List ℕ → Memory → Memory
store_bytes a [] m = m
store_bytes a (b ∷ l) m = update (store_bytes (suc a) l m) a b

-- The store of a word of 32 bits, the lowest byte first.
abbrev pub store_word : ℕ → ℕ → Memory → Memory
store_word a w m =
    store_bytes a (w % 256 ∷ w / 256 % 256 ∷ w / 65536 % 256 ∷ w / 16777216 % 256 ∷ []) m

abbrev pub load_word : Memory → ℕ → ℕ
load_word m a = m a + 256 * m (a + 1) + 65536 * m (a + 2) + 16777216 * m (a + 3)

-- A stack pointer and the memory.
pub record Stack : Type 0 where
  pub esp : ℕ
  pub memory : Memory

abbrev pub push_word : ℕ → Stack → Stack
push_word w s =
    let esp = sub_ptr s.esp 4 in record { esp = esp; memory = store_word esp w s.memory }

-- The first loop, from the last argument to the first; the array argv_address, and the stack.
abbrev pub push_strings : List (List ℕ) → Stack → List ℕ × Stack
push_strings [] s = ([], s)
push_strings (arg ∷ argv) s =
    let (argv_address, s') = push_strings argv s in
    let esp = sub_ptr s'.esp (length arg + 1) in
    (esp ∷ argv_address, record { esp = esp; memory = store_bytes esp (arg ++ 0 ∷ []) s'.memory })

-- The second loop, from the last address to the first.
abbrev pub push_addresses : List ℕ → Stack → Stack
push_addresses [] s = s
push_addresses (a ∷ l) s = push_word a (push_addresses l s)

unfoldable pub setup_argument : List (List ℕ) → Stack → Stack
setup_argument argv s =
    let (argv_address, strings) = push_strings argv s in
    let aligned = record strings { esp = strings.esp - strings.esp % 4 } in
    let addresses = push_addresses argv_address (push_word 0 aligned) in
    let address = push_word addresses.esp addresses in push_word 0 (push_word (length argv) address)
