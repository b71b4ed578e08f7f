-- ===== src/Training/Bytes/Scalars.antt =====
-- native/src/training/training_bridge_stub.cc: WriteScalar followed by ReadScalar.
use Prim.Native.String.{String}
use tensora.Steps.{Result}
use tensora.Shape.{max_float_count}
use tensora.Shape.Product.{product, sizes, IsPositive, to_u64_pos, product_pos}
use tensora.Training.Bytes.{bytes_of, number_of, of_u64, split_bytes, read_bytes, read_scalar}
use tensora.Prelude.{
  ℕ, zero, suc, ◌*◌, ◌/◌, ◌^◌, ◌<◌, ◌≤◌, ◌≡◌, refl, ap, some, List, [], ◌∷◌, ◌++◌, ℤ, pos, negsuc,
  to_u64, All, length, arith,
}

pub length-bytes_of : (width n : ℕ) → length (bytes_of width n) ≡ width
unfolding bytes_of
length-bytes_of zero n = refl
length-bytes_of (suc width) n = ap suc (length-bytes_of width (n / 256))

-- The numbers that have that many bytes.
abbrev pub capacity : ℕ → ℕ
capacity zero = 1
capacity (suc width) = 256 * capacity width

pub number_of-bytes_of : (width n : ℕ) → n < capacity width → number_of (bytes_of width n) ≡ n
unfolding bytes_of number_of
number_of-bytes_of zero n h = omega arith
number_of-bytes_of (suc width) n h =
    let rest = number_of-bytes_of width (n / 256) (omega arith) in omega arith

split_bytes-bytes_of :
    (width n : ℕ) (rest : List ℕ)
    → split_bytes width (bytes_of width n ++ rest) ≡ some (bytes_of width n, rest)
unfolding bytes_of split_bytes
split_bytes-bytes_of zero n rest = refl
split_bytes-bytes_of (suc width) n rest = rw (split_bytes-bytes_of width (n / 256) rest)

pub read_scalar-bytes_of :
    (width n : ℕ) (message : String) (rest : List ℕ)
    → n < capacity width
    → read_scalar width message (bytes_of width n ++ rest) ≡ (Result.done n, rest)
unfolding read_scalar read_bytes
read_scalar-bytes_of width n message rest h =
    rw (split_bytes-bytes_of width n rest) (rw (number_of-bytes_of width n h))

-- A dimension that an `int64_t` holds.
abbrev pub IsInt64 : ℤ → Type 0
IsInt64 d = (to_u64 d < 2 ^ 64) × (of_u64 (to_u64 d) ≡ d)

below_factors : (a b : ℕ) {k : ℕ} → 0 < a → 0 < b → a * b ≤ k → (a ≤ k) × (b ≤ k)
below_factors a b x y h = (grind arith, grind arith)

positive-IsInt64 : (d : ℤ) → IsPositive d → to_u64 d ≤ max_float_count → IsInt64 d
positive-IsInt64 (pos n) h k = (omega arith, ground arith)
positive-IsInt64 (negsuc n) h k = cc

pub dimensions-IsInt64 :
    (dims : List ℤ)
    → All IsPositive dims
    → product (sizes dims) ≤ max_float_count
    → All IsInt64 dims
unfolding product
dimensions-IsInt64 [] h k = tt
dimensions-IsInt64 (d ∷ dims) h k =
    let below =
      below_factors (to_u64 d) (product (sizes dims)) (to_u64_pos d h.0) (product_pos dims h.1) k in
    (positive-IsInt64 d h.0 below.0, dimensions-IsInt64 dims h.1 below.1)
