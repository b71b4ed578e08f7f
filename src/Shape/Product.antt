-- ===== src/Shape/Product.antt =====
-- native/src/tensor/shape.cc: products of dimensions, and the row-major strides as the specification
-- has them.
use native.Mathlib.Nat.{mul-pos}
use tensora.Prelude.{
  ℕ, ◌*◌, ◌<◌, ◌≡◌, List, [], ◌∷◌, map, ℤ, pos, negsuc, to_u64, is_nonpos, false, All, arith,
}

unfoldable pub product : List ℕ → ℕ
product [] = 1
product (d ∷ ds) = d * product ds

-- A dimension's distance in memory is the product of those to its right.
unfoldable pub row_major : List ℕ → List ℕ
row_major [] = []
row_major (d ∷ ds) = product ds ∷ row_major ds

abbrev pub sizes : List ℤ → List ℕ
sizes = map to_u64

abbrev pub IsPositive : ℤ → Type 0
IsPositive d = is_nonpos d ≡ false

pub to_u64_pos : (d : ℤ) → IsPositive d → 0 < to_u64 d
to_u64_pos (pos n) h = ground arith
to_u64_pos (negsuc n) h = cc

pub product_pos : (ds : List ℤ) → All IsPositive ds → 0 < product (sizes ds)
unfolding product
product_pos [] h = omega arith
product_pos (d ∷ ds) h = mul-pos (to_u64_pos d h.0) (product_pos ds h.1)
