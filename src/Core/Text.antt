-- ===== src/Core/Text.antt =====
-- The decimal text that `std::ostringstream` gives an integer of at most 64 bits.
use Prim.Native.String.{String, ◌++◌, slice}
use tensora.Prelude.{ℕ, zero, suc, ◌+◌, ◌/◌, ◌%◌, ◌≡◌, refl, ℤ, pos, negsuc, ◌==◌, if◌then◌else◌}

abbrev pub digit : ℕ → String
digit n = slice "0123456789" n (n + 1)

-- 20 digits hold every number below 2 ^ 64.
pub digits : ℕ → ℕ → String
digits zero n = ""
digits (suc f) n =
    let more = digits f (n / 10) ++ digit (n % 10) in if n / 10 == 0 then digit n else more

unfoldable pub decimal : ℕ → String
unfolding digits
decimal n = digits 20 n

unfoldable pub decimal_ℤ : ℤ → String
unfolding decimal
decimal_ℤ (pos n) = decimal n
decimal_ℤ (negsuc n) = "-" ++ decimal (suc n)

decimal_example : decimal_ℤ (negsuc 1203) ≡ "-1204"
unfolding decimal_ℤ
decimal_example = refl
