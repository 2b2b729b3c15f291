-- ===== src/Syscall/Pointers.antt =====
-- What the checks of a buffer amount to.
use sustech_cs.Prelude.{
  ℕ, zero, suc, ◌+◌, ◌≤◌, ◌^◌, ◌≡◌, refl, ap, ◌∙◌, Bool, true, false, ◌&&◌, arith,
}
use sustech_cs.Process.Segment.{add_word}
use sustech_cs.Syscall.{is_valid_ptr_single, is_valid_ptr, check_buffer}

-- Whether each of `n` bytes can be used.
abbrev pub all_valid : (ℕ → Bool) → ℕ → ℕ → Bool
all_valid pagedir ptr zero = true
all_valid pagedir ptr (suc n) = is_valid_ptr_single pagedir ptr && all_valid pagedir (ptr + 1) n

absorbs :
    (a b c d r : Bool)
    → ((a && (a && (b && (c && d)))) && (b && (c && (d && r)))) ≡ (a && (b && (c && (d && r))))
absorbs false b c d r = refl
absorbs true false c d r = refl
absorbs true true false d r = refl
absorbs true true true false r = refl
absorbs true true true true r = refl

four : (a b c d : Bool) → ((a && (a && (b && (c && d)))) && true) ≡ (a && (b && (c && (d && true))))
four false b c d = refl
four true false c d = refl
four true true false d = refl
four true true true false = refl
four true true true true = refl

is_valid_ptr_lem :
    (pagedir : ℕ → Bool) (ptr : ℕ)
    → ptr + 4 ≤ 2 ^ 32
    → (let v = is_valid_ptr_single pagedir in
        is_valid_ptr pagedir ptr
        ≡ (v ptr && (v ptr && (v (ptr + 1) && (v (ptr + 1 + 1) && v (ptr + 1 + 1 + 1))))))
is_valid_ptr_lem pagedir ptr h =
    let e1 : add_word ptr 1 ≡ ptr + 1 = omega (arith, h) in
    let e2 : add_word ptr 2 ≡ ptr + 1 + 1 = omega (arith, h) in
    let e3 : add_word ptr 3 ≡ ptr + 1 + 1 + 1 = omega (arith, h) in
    let v = is_valid_ptr_single pagedir in
    ap (λ k. v ptr && (v ptr && (v k && (v (add_word ptr 2) && v (add_word ptr 3))))) e1
    ∙ ap (λ k. v ptr && (v ptr && (v (ptr + 1) && (v k && v (add_word ptr 3))))) e2
    ∙ ap (λ k. v ptr && (v ptr && (v (ptr + 1) && (v (ptr + 1 + 1) && v k)))) e3

-- The checks of write on a buffer of n + 1 bytes, with three addresses at least behind it, let it
-- pass exactly if each of n + 4 bytes from its start on is mapped, not null, and in the user's
-- memory: three bytes more than the buffer has.
pub check_buffer_lem :
    (pagedir : ℕ → Bool) (buffer n : ℕ)
    → buffer + n + 4 ≤ 2 ^ 32
    → check_buffer pagedir buffer (suc n) ≡ all_valid pagedir buffer (suc (suc (suc (suc n))))
unfolding check_buffer
check_buffer_lem pagedir buffer zero h =
    let v = is_valid_ptr_single pagedir in
    ap (λ b. b && true) (is_valid_ptr_lem pagedir buffer (omega (arith, h)))
    ∙ four (v buffer) (v (buffer + 1)) (v (buffer + 1 + 1)) (v (buffer + 1 + 1 + 1))
check_buffer_lem pagedir buffer (suc n) h =
    let v = is_valid_ptr_single pagedir in
    let next : add_word buffer 1 ≡ buffer + 1 = omega (arith, h) in
    let rest = check_buffer_lem pagedir (buffer + 1) n (omega (arith, h)) in
    ap (λ k. is_valid_ptr pagedir buffer && check_buffer pagedir k (suc n)) next
    ∙ ap (λ b. is_valid_ptr pagedir buffer && b) rest
    ∙ ap (λ b. b && all_valid pagedir (buffer + 1) (suc (suc (suc (suc n)))))
        (is_valid_ptr_lem pagedir buffer (omega (arith, h)))
    ∙ absorbs (v buffer) (v (buffer + 1)) (v (buffer + 1 + 1)) (v (buffer + 1 + 1 + 1))
        (all_valid pagedir (buffer + 1 + 1 + 1 + 1) (suc n))
