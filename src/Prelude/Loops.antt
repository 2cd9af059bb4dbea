-- ===== src/Prelude/Loops.antt =====
-- Loops over a range of indices that change a state.
use Prim.Native.Nat.{ℕ, zero, suc, ◌+◌, ◌≤◌, ◌<◌}
use native.Mathlib.Omega.{arith}

-- `for (i = start; i < start + n; ++i) s = body(i, s)`.
abbrev pub for_range : {S : Type 0} → ℕ → ℕ → (ℕ → S → S) → S → S
for_range i zero body s = s
for_range i (suc n) body s = for_range (suc i) n body (body i s)

module _ {ℓ} {S : Type 0} (P : S → Type ℓ) (body : ℕ → S → S) where
  pub for_range-Keeps :
      (i n : ℕ) (s : S) → ((j : ℕ) (t : S) → P t → P (body j t)) → P s → P (for_range i n body s)
  for_range-Keeps i zero s keep p = p
  for_range-Keeps i (suc n) s keep p = for_range-Keeps (suc i) n (body i s) keep (keep i s p)

  -- The same, of a body that keeps it on the indices of the range.
  pub for_range-KeepsIn :
      (i n : ℕ) (s : S)
      → ((j : ℕ) (t : S) → i ≤ j → j < i + n → P t → P (body j t))
      → P s
      → P (for_range i n body s)
  for_range-KeepsIn i zero s keep p = p
  for_range-KeepsIn i (suc n) s keep p =
      for_range-KeepsIn (suc i) n (body i s)
        (λ j t low high. keep j t (omega (arith, low)) (omega (arith, high)))
        (keep i s (omega arith) (omega arith) p)
