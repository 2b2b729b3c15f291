-- ===== src/Process/Memory.antt =====
-- What a store to memory shows, and what it leaves.
use sustech_cs.Prelude.{
  ℕ, suc, ◌+◌, ◌-◌, ◌/◌, ◌%◌, ◌^◌, ◌≤◌, ◌<◌, ◌≡◌, refl, ◌∙◌, List, [], ◌∷◌, ◌++◌, length, arith,
  if_true, if_false, ==_of_ne, ==_refl,
}
use sustech_cs.Process.Stack.{Memory, sub_ptr, store_bytes, store_word, load_word}

pub sub_ptr_lem : (a n : ℕ) → n ≤ a → sub_ptr a n ≡ a - n
sub_ptr_lem a n h = ground (arith, h)

-- The string at an address, with the zero behind it.
abbrev pub IsString : Memory → ℕ → List ℕ → Type 0
IsString m a [] = m a ≡ 0
IsString m a (c ∷ l) = (m a ≡ c) × IsString m (suc a) l

-- Words one after another from an address on.
abbrev pub IsWords : Memory → ℕ → List ℕ → Type 0
IsWords m a [] = Unit
IsWords m a (w ∷ l) = (load_word m a ≡ w) × IsWords m (a + 4) l

-- What is stored from `low` on stays.
abbrev pub IsKept : ℕ → Memory → Memory → Type 0
IsKept low m m' = (a : ℕ) → low ≤ a → m' a ≡ m a

store_bytes-below : (a b : ℕ) (l : List ℕ) (m : Memory) → b < a → store_bytes a l m b ≡ m b
store_bytes-below a b [] m h = refl
store_bytes-below a b (x ∷ l) m h =
    if_false _ _ (==_of_ne a b (omega (arith, h)))
    ∙ store_bytes-below (suc a) b l m (omega (arith, h))

pub store_bytes-IsKept :
    (a : ℕ) (l : List ℕ) (m : Memory) → IsKept (a + length l) m (store_bytes a l m)
store_bytes-IsKept a [] m b h = refl
store_bytes-IsKept a (x ∷ l) m b h =
    if_false _ _ (==_of_ne a b (omega (arith, h)))
    ∙ store_bytes-IsKept (suc a) l m b (omega (arith, h))

pub IsString-kept :
    (a low : ℕ) (l : List ℕ) (m m' : Memory)
    → IsKept low m m'
    → low ≤ a
    → IsString m a l
    → IsString m' a l
IsString-kept a low [] m m' k h s = k a h ∙ s
IsString-kept a low (c ∷ l) m m' k h (e, s) =
    (k a h ∙ e, IsString-kept (suc a) low l m m' k (omega (arith, h)) s)

load_word-kept :
    (a low : ℕ) (m m' : Memory) → IsKept low m m' → low ≤ a → load_word m' a ≡ load_word m a
load_word-kept a low m m' k h = omega (
  arith,
  k a h,
  k (a + 1) (omega (arith, h)),
  k (a + 2) (omega (arith, h)),
  k (a + 3) (omega (arith, h)),
)

pub IsWords-kept :
    (a low : ℕ) (l : List ℕ) (m m' : Memory)
    → IsKept low m m'
    → low ≤ a
    → IsWords m a l
    → IsWords m' a l
IsWords-kept a low [] m m' k h s = s
IsWords-kept a low (w ∷ l) m m' k h (e, s) =
    (load_word-kept a low m m' k h ∙ e, IsWords-kept (a + 4) low l m m' k (omega (arith, h)) s)

pub IsString-store_bytes :
    (a : ℕ) (l : List ℕ) (m : Memory) → IsString (store_bytes a (l ++ 0 ∷ []) m) a l
IsString-store_bytes a [] m = if_true _ _ (==_refl a)
IsString-store_bytes a (c ∷ l) m =
    let below : IsKept (suc a) (store_bytes (suc a) (l ++ 0 ∷ []) m)
        (store_bytes a (c ∷ l ++ 0 ∷ []) m) =
      λ b h. if_false _ _ (==_of_ne a b (omega (arith, h))) in
    (
      if_true _ _ (==_refl a),
      IsString-kept (suc a) (suc a) l _ _ below (omega arith) (IsString-store_bytes (suc a) l m),
    )

pub load_word-store_word : (a w : ℕ) (m : Memory) → w < 2 ^ 32 → load_word (store_word a w m) a ≡ w
load_word-store_word a w m h =
    let m' = store_word a w m in
    let b0 : m' a ≡ w % 256 = ground arith in
    let b1 : m' (a + 1) ≡ w / 256 % 256 = ground arith in
    let b2 : m' (a + 2) ≡ w / 65536 % 256 = ground arith in
    let b3 : m' (a + 3) ≡ w / 16777216 % 256 = ground arith in omega (arith, b0, b1, b2, b3, h)

pub store_word-IsKept : (a w : ℕ) (m : Memory) → IsKept (a + 4) m (store_word a w m)
store_word-IsKept a w m =
    store_bytes-IsKept a (w % 256 ∷ w / 256 % 256 ∷ w / 65536 % 256 ∷ w / 16777216 % 256 ∷ []) m
