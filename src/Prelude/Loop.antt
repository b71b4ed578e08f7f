-- ===== src/Prelude/Loop.antt =====
-- `for (i = start; i < start + count; ++i) state = body(i, state);`
use Prim.Native.Nat.{ℕ, zero, suc, ◌+◌, ◌<◌, ◌≤◌}
use mathlib.Core.Path.{subst}
use native.Mathlib.Omega.{arith}

unfoldable pub for_range {ℓ} : {S : Type ℓ} → ℕ → ℕ → (ℕ → S → S) → S → S
for_range zero i body s = s
for_range (suc count) i body s = for_range count (suc i) body (body i s)

module _ {ℓ κ} {S : Type ℓ} (P : ℕ → S → Type κ) (body : ℕ → S → S) where
  -- An invariant indexed by the rounds done.
  pub for_range_inv :
      (count i : ℕ) (s : S)
      → ((j : ℕ) (t : S) → i ≤ j → j < i + count → P j t → P (suc j) (body j t))
      → P i s
      → P (i + count) (for_range count i body s)
  unfolding for_range
  for_range_inv zero i s keep h = subst (λ k. P k s) (omega arith) h
  for_range_inv (suc count) i s keep h =
      subst (λ k. P k (for_range count (suc i) body (body i s))) (omega arith)
        (for_range_inv count (suc i) (body i s) (λ j t a b. keep j t (omega arith) (omega arith))
          (keep i s (omega arith) (omega arith) h))
