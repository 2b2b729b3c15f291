-- ===== src/Process/Arguments.antt =====
-- The stack that setup_argument leaves holds the arguments.
use sustech_cs.Prelude.{
  ℕ, ◌+◌, ◌-◌, ◌*◌, ◌%◌, ◌^◌, ◌≤◌, ◌<◌, ◌≡◌, refl, ◌∙◌, subst, List, [], ◌∷◌, ◌++◌, length,
  length-append, arith, All,
}
use sustech_cs.Process.Stack.{
  Memory, Stack, sub_ptr, store_bytes, push_word, push_strings, push_addresses, setup_argument,
}
use sustech_cs.Process.Memory.{
  sub_ptr_lem, IsString, IsWords, IsKept, store_bytes-IsKept, IsString-kept, IsWords-kept,
  IsString-store_bytes, load_word-store_word, store_word-IsKept,
}

-- The bytes of the strings with the zeros behind them.
abbrev pub total : List (List ℕ) → ℕ
total [] = 0
total (arg ∷ argv) = length arg + 1 + total argv

-- The addresses of the strings, one for each.
abbrev pub IsStrings : Memory → List ℕ → List (List ℕ) → Type 0
IsStrings m [] [] = Unit
IsStrings m (a ∷ l) (arg ∷ argv) = IsString m a arg × IsStrings m l argv
IsStrings m [] (arg ∷ argv) = ⊥
IsStrings m (a ∷ l) [] = ⊥

IsStrings-kept :
    (low : ℕ) (l : List ℕ) (argv : List (List ℕ)) (m m' : Memory)
    → IsKept low m m'
    → All (λ a. low ≤ a) l
    → IsStrings m l argv
    → IsStrings m' l argv
IsStrings-kept low [] [] m m' k b s = s
IsStrings-kept low (a ∷ l) (arg ∷ argv) m m' k (b, bs) (s, ss) =
    (IsString-kept a low arg m m' k b s, IsStrings-kept low l argv m m' k bs ss)
IsStrings-kept low [] (arg ∷ argv) m m' k b s = s
IsStrings-kept low (a ∷ l) [] m m' k b s = s

All-le : (low low' : ℕ) (l : List ℕ) → low' ≤ low → All (λ a. low ≤ a) l → All (λ a. low' ≤ a) l
All-le low low' [] h b = b
All-le low low' (a ∷ l) h (b, bs) = (omega (arith, b, h), All-le low low' l h bs)

-- From `s` to `s'` the stack grows by `n` bytes, and what it held stays.
record Grows (n : ℕ) (s s' : Stack) : Type 0 where
  esp : s'.esp ≡ s.esp - n
  kept : IsKept s.esp s.memory s'.memory

Grows-trans : (n k : ℕ) (s s' s'' : Stack) → Grows n s s' → Grows k s' s'' → Grows (n + k) s s''
Grows-trans n k s s' s'' g h = record {
  esp = omega (arith, g.esp, h.esp);
  kept = λ a b. h.kept a (omega (arith, b, g.esp)) ∙ g.kept a b;
}

push_word-Grows : (w : ℕ) (s : Stack) → 4 ≤ s.esp → Grows 4 s (push_word w s)
push_word-Grows w s room =
    let esp = sub_ptr_lem s.esp 4 room in
    record {
      esp = esp;
      kept = λ a b. store_word-IsKept (sub_ptr s.esp 4) w s.memory a (omega (arith, b, esp, room));
    }

push_word-IsWords :
    (w : ℕ) (s : Stack) (ws : List ℕ)
    → 4 ≤ s.esp
    → w < 2 ^ 32
    → IsWords s.memory s.esp ws
    → IsWords (push_word w s).memory (push_word w s).esp (w ∷ ws)
push_word-IsWords w s ws room h words =
    let g = push_word-Grows w s room in
    let next : s.esp ≡ sub_ptr s.esp 4 + 4 = omega (arith, g.esp, room) in
    (
      load_word-store_word (sub_ptr s.esp 4) w s.memory h,
      subst (λ a. IsWords (push_word w s).memory a ws) next
          (IsWords-kept s.esp s.esp ws _ _ g.kept (omega arith) words),
    )

push_addresses-Grows :
    (l : List ℕ) (s : Stack) → 4 * length l ≤ s.esp → Grows (4 * length l) s (push_addresses l s)
push_addresses-Grows [] s room = record { esp = omega arith; kept = λ a b. refl }
push_addresses-Grows (a ∷ l) s room =
    let rest = push_addresses-Grows l s (omega (arith, room)) in
    subst (λ n. Grows n s (push_addresses (a ∷ l) s)) (omega arith)
      (Grows-trans _ _ _ _ _ rest (push_word-Grows a _ (omega (arith, rest.esp, room))))

push_addresses-IsWords :
    (l : List ℕ) (s : Stack) (ws : List ℕ)
    → 4 * length l ≤ s.esp
    → All (λ a. a < 2 ^ 32) l
    → IsWords s.memory s.esp ws
    → IsWords (push_addresses l s).memory (push_addresses l s).esp (l ++ ws)
push_addresses-IsWords [] s ws room b words = words
push_addresses-IsWords (a ∷ l) s ws room (b, bs) words =
    let g = push_addresses-Grows l s (omega (arith, room)) in
    push_word-IsWords a (push_addresses l s) (l ++ ws) (omega (arith, g.esp, room)) b
      (push_addresses-IsWords l s ws (omega (arith, room)) bs words)

record Strings (argv : List (List ℕ)) (s : Stack) (l : List ℕ) (s' : Stack) : Type 0 where
  grows : Grows (total argv) s s'
  strings : IsStrings s'.memory l argv
  above : All (λ a. s'.esp ≤ a) l
  below : All (λ a. a < 2 ^ 32) l
  num : length l ≡ length argv

push_strings_lem :
    (argv : List (List ℕ)) (s : Stack)
    → total argv ≤ s.esp
    → s.esp < 2 ^ 32
    → Strings argv s (push_strings argv s).0 (push_strings argv s).1
push_strings_lem [] s room h = record {
  grows = record { esp = omega arith; kept = λ a b. refl };
  strings = tt;
  above = tt;
  below = tt;
  num = refl;
}
push_strings_lem (arg ∷ argv) s room h =
    let rest = push_strings_lem argv s (omega (arith, room)) h in
    let s' = (push_strings argv s).1 in
    let at = rest.grows.esp in
    let esp = sub_ptr_lem s'.esp (length arg + 1) (omega (arith, at, room)) in
    let size = length-append arg (0 ∷ []) in
    let kept : IsKept s'.esp s'.memory
        (store_bytes (sub_ptr s'.esp (length arg + 1)) (arg ++ 0 ∷ []) s'.memory) =
      λ a b.
        store_bytes-IsKept (sub_ptr s'.esp (length arg + 1)) (arg ++ 0 ∷ []) s'.memory a
          (omega (arith, b, esp, size, at, room)) in
    record {
      grows = record {
        esp = omega (arith, esp, at, room);
        kept = λ a b. kept a (omega (arith, b, at)) ∙ rest.grows.kept a b;
      };
      strings = (
        IsString-store_bytes _ arg s'.memory,
        IsStrings-kept s'.esp _ argv _ _ kept rest.above rest.strings,
      );
      above = (omega arith, All-le s'.esp _ _ (omega (arith, esp)) rest.above);
      below = (omega (arith, esp, at, h), rest.below);
      num = omega (arith, rest.num);
    }

-- From `s` to `s'` the stack grows by `n` bytes, and shows the words `ws`.
record Shows (n : ℕ) (s s' : Stack) (ws : List ℕ) : Type 0 where
  grows : Grows n s s'
  words : IsWords s'.memory s'.esp ws

push_word-Shows :
    (w n : ℕ) (s s' : Stack) (ws : List ℕ)
    → n + 4 ≤ s.esp
    → w < 2 ^ 32
    → Shows n s s' ws
    → Shows (n + 4) s (push_word w s') (w ∷ ws)
push_word-Shows w n s s' ws room h sh =
    let fits : 4 ≤ s'.esp = omega (arith, sh.grows.esp, room) in
    record {
      grows = Grows-trans n 4 _ _ _ sh.grows (push_word-Grows w s' fits);
      words = push_word-IsWords w s' ws fits h sh.words;
    }

push_addresses-Shows :
    (l : List ℕ) (n : ℕ) (s s' : Stack) (ws : List ℕ)
    → n + 4 * length l ≤ s.esp
    → All (λ a. a < 2 ^ 32) l
    → Shows n s s' ws
    → Shows (n + 4 * length l) s (push_addresses l s') (l ++ ws)
push_addresses-Shows l n s s' ws room b sh =
    let fits : 4 * length l ≤ s'.esp = omega (arith, sh.grows.esp, room) in
    record {
      grows = Grows-trans n (4 * length l) _ _ _ sh.grows (push_addresses-Grows l s' fits);
      words = push_addresses-IsWords l s' ws fits b sh.words;
    }

length-le-total : (argv : List (List ℕ)) → length argv ≤ total argv
length-le-total [] = omega arith
length-le-total (arg ∷ argv) = omega (arith, length-le-total argv)

-- setup_argument, with room for the strings, the addresses and 19 bytes more, leaves a stack pointer
-- that is a multiple of 4, at which stand the words that a program finds: a return address 0, argc,
-- argv, which is the address 12 bytes further on, and there the addresses of the arguments with a
-- null pointer behind the last. At each of these addresses stands its argument, with a zero behind
-- it; and what the stack held before stays.
pub setup_argument_lem :
    (argv : List (List ℕ)) (s : Stack)
    → total argv + 4 * length argv + 19 ≤ s.esp
    → s.esp < 2 ^ 32
    → (let s' = setup_argument argv s in
        (l : List ℕ) × IsWords s'.memory s'.esp (0 ∷ length argv ∷ (s'.esp + 12) ∷ l ++ 0 ∷ [])
        × IsStrings s'.memory l argv
        × (s'.esp % 4 ≡ 0)
        × IsKept s.esp s.memory s'.memory)
unfolding setup_argument
setup_argument_lem argv s room h =
    let l = (push_strings argv s).0 in
    let s1 = (push_strings argv s).1 in
    let p = push_strings_lem argv s (omega (arith, room)) h in
    let s2 : Stack = record s1 { esp = s1.esp - s1.esp % 4 } in
    let n = length-le-total argv in
    let fits : 4 * length l + 16 ≤ s2.esp = omega (arith, p.grows.esp, p.num, room) in
    let small : s2.esp < 2 ^ 32 = omega (arith, p.grows.esp, h) in
    let s3 = push_word 0 s2 in
    let start : Shows 0 s2 s2 [] = record {
      grows = record { esp = omega arith; kept = λ a b. refl };
      words = tt;
    } in
    let w3 = push_word-Shows 0 0 s2 s2 [] (omega (arith, fits)) (omega arith) start in
    let s4 = push_addresses l s3 in
    let w4 = push_addresses-Shows l 4 s2 s3 (0 ∷ []) (omega (arith, fits)) p.below w3 in
    let w5 =
      push_word-Shows s4.esp _ s2 s4 _ (omega (arith, fits)) (omega (arith, small, w4.grows.esp))
        w4 in
    let s5 = push_word s4.esp s4 in
    let w6 =
      push_word-Shows (length argv) _ s2 s5 _ (omega (arith, fits)) (omega (arith, n, room, h))
        w5 in
    let s6 = push_word (length argv) s5 in
    let w7 = push_word-Shows 0 _ s2 s6 _ (omega (arith, fits)) (omega arith) w6 in
    let s7 = push_word 0 s6 in
    let address : s4.esp ≡ s7.esp + 12 = omega (arith, w4.grows.esp, w7.grows.esp, fits) in
    let kept : IsKept s1.esp s1.memory s7.memory = λ a b. w7.grows.kept a (omega (arith, b)) in
    (
      l,
      subst (λ a. IsWords s7.memory s7.esp (0 ∷ length argv ∷ a ∷ l ++ 0 ∷ [])) address w7.words,
      IsStrings-kept s1.esp l argv _ _ kept p.above p.strings,
      omega (arith, w7.grows.esp),
      λ a b. kept a (omega (arith, b, p.grows.esp)) ∙ p.grows.kept a b,
    )
