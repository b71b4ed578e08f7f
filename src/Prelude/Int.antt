-- ===== src/Prelude/Int.antt =====
-- Signed integers over the native numbers: the values of `int64_t` and `int32_t`.
use Prim.Native.Nat.{ℕ, suc, ◌-◌, ◌^◌}
use mathlib.Core.Path.{◌≡◌}
use mathlib.Core.Bool.{Bool, true, false}
use native.Mathlib.Omega.{arith}
use tensora.Prelude.Tests.{◌==◌, ==→≡}

-- `negsuc n` is -(n + 1).
pub data ℤ : Type 0 where
  pos : ℕ → ℤ
  negsuc : ℕ → ℤ

-- `v <= 0`
abbrev pub is_nonpos : ℤ → Bool
is_nonpos (pos n) = n == 0
is_nonpos (negsuc n) = true

-- `static_cast<uint64_t>(v)`
abbrev pub to_u64 : ℤ → ℕ
to_u64 (pos n) = n
to_u64 (negsuc n) = 2 ^ 64 - suc n

-- `a == b`
abbrev pub eq_ℤ : ℤ → ℤ → Bool
eq_ℤ (pos a) (pos b) = a == b
eq_ℤ (pos a) (negsuc b) = false
eq_ℤ (negsuc a) (pos b) = false
eq_ℤ (negsuc a) (negsuc b) = a == b

pub eq_ℤ→≡ : (a b : ℤ) → eq_ℤ a b ≡ true → a ≡ b
eq_ℤ→≡ (pos a) (pos b) h = rw (==→≡ a b h)
eq_ℤ→≡ (pos a) (negsuc b) h = cc
eq_ℤ→≡ (negsuc a) (pos b) h = cc
eq_ℤ→≡ (negsuc a) (negsuc b) h = rw (==→≡ a b h)

pub eq_ℤ_refl : (a : ℤ) → eq_ℤ a a ≡ true
eq_ℤ_refl (pos a) = ground arith
eq_ℤ_refl (negsuc a) = ground arith
