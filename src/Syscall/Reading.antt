-- ===== src/Syscall/Reading.antt =====
-- read from the descriptor down to the sectors.
use sustech_cs.Prelude.{ℕ, ◌≡◌, refl, Bool, true, false, Bool-cases, inl, inr, ◌==◌}
use sustech_cs.Syscall.{is_valid_ptr}

-- A pointer that passes the checks is not null.
pub not_null : (pagedir : ℕ → Bool) (ptr : ℕ) → is_valid_ptr pagedir ptr ≡ true → (ptr == 0) ≡ false
not_null pagedir ptr e = elim (Bool-cases (ptr == 0)) [
  | inr other ↦ other
  | inl null ↦ absurd (let invalid : is_valid_ptr pagedir ptr ≡ false = rw null refl in cc)
]
