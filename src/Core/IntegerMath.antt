-- ===== src/Core/IntegerMath.antt =====
-- native/src/core/integer_math.h.
use Prim.Native.String.{String, ◌++◌}
use tensora.Core.Status.{Status, ok, is_ok, fail_argument, fail_internal}
use tensora.Prelude.{
  ℕ, ◌+◌, ◌-◌, ◌^◌, ◌<◌, ◌≡◌, ◌↔◌, Option, none, some, true, ltb, if◌then◌else◌, arith,
}

-- `CheckedAddU64`. An output pointer is `none` when it is null; the result holds what it points to
-- afterwards.
unfoldable pub checked_add_u64 : ℕ → ℕ → String → Option ℕ → Status × Option ℕ
checked_add_u64 left right operation none =
    (fail_argument (operation ++ ": output pointer is null"), none)
checked_add_u64 left right operation (some _) =
    if ltb (2 ^ 64 - 1 - left) right
    then (fail_internal (operation ++ ": counter overflow"), some 0)
    else (ok, some (left + right))

-- With an output and a left operand of 64 bits, `CheckedAddU64` succeeds exactly when the true sum
-- fits in 64 bits. It then stores the true sum, and otherwise 0.
pub checked_add_u64_lem :
    (left right : ℕ) (operation : String) (before : ℕ)
    → left < 2 ^ 64
    → let (s, out) = checked_add_u64 left right operation (some before) in
      ((is_ok s ≡ true) ↔ (left + right < 2 ^ 64))
      × (out ≡ some (if is_ok s then left + right else 0))
unfolding checked_add_u64
checked_add_u64_lem left right operation before h = ground arith
