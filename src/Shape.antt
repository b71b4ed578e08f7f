-- ===== src/Shape.antt =====
-- native/src/tensor/shape.h and shape.cc: the metadata of a dense tensor and its validation.
pub mod Product
pub mod Strides
pub mod Scan
pub mod Validate
pub mod Edges
use Prim.Native.String.{String, ◌++◌}
use tensora.Core.Status.{Status, ok, fail_argument, fail_shape}
use tensora.Core.Text.{decimal, decimal_ℤ}
use tensora.Prelude.{
  ℕ, zero, suc, ◌-◌, ◌*◌, ◌/◌, ◌%◌, ◌^◌, Bool, true, false, Option, none, some, List, [], ◌∷◌,
  ◌++◌ as append, ℤ, is_nonpos, to_u64, eq_ℤ, ◌&&◌, ltb, ◌==◌, if◌then◌else◌, length, get_or, set,
  replicate, entries, pos,
}

-- `kMaxTensorRank`
abbrev pub max_tensor_rank : ℕ
max_tensor_rank = 32

pub record ShapeInfo : Type 0 where
  pub dimensions : List ℤ
  pub strides : List ℕ
  pub numel : ℕ
  pub byte_size : ℕ

-- `kMaxNumel`: the largest int64_t.
abbrev pub max_numel : ℕ
max_numel = 2 ^ 63 - 1

-- `numeric_limits<size_t>::max() / sizeof(float)`
abbrev pub max_float_count : ℕ
max_float_count = (2 ^ 64 - 1) / 4

-- How the loop over the dimensions ends.
pub data Scanned : Type 0 where
  accepted : ℕ → List ℤ → Scanned
  rejected : Status → Scanned

pub not_positive : ℕ → ℤ → Status
not_positive i dim =
    fail_shape (("shape: dimension " ++ decimal i) ++ (" must be positive, got " ++ decimal_ℤ dim))

-- The loop over `dims[i..rank)`: the element count so far, and the dimensions pushed.
unfoldable pub scan : ℕ → List ℤ → ℕ → List ℤ → Scanned
scan i [] numel pushed = accepted numel pushed
scan i (dim ∷ rest) numel pushed =
    if is_nonpos dim
    then rejected (not_positive i dim)
    else if ltb (max_numel / to_u64 dim) numel
    then rejected (fail_shape "shape: element count overflows supported int64 range")
    else scan (suc i) rest (numel * to_u64 dim % 2 ^ 64) (append pushed (dim ∷ []))

-- `for (size_t i = rank; i-- > 0;)`: the first argument is `i + 1`.
pub fill_strides : ℕ → List ℤ → ℕ → List ℕ → List ℕ
fill_strides zero dims stride strides = strides
fill_strides (suc i) dims stride strides =
    fill_strides i dims
      (if ltb 0 i then stride * to_u64 (get_or dims i (pos 0)) % 2 ^ 64 else stride)
      (set strides i stride)

-- What follows the loop: `out` is assigned on success only.
finish : ℕ → ShapeInfo → Scanned → Status × Option ShapeInfo
finish rank before (rejected s) = (s, some before)
finish rank before (accepted scanned dims) =
    let numel = if rank == 0 then 1 else scanned in
    if ltb max_float_count numel
    then (fail_shape "shape: float32 allocation byte size overflows size_t", some before)
    else (
      ok,
      some (record {
        dimensions = dims;
        strides = fill_strides rank dims 1 (replicate rank 1);
        numel = numel;
        byte_size = numel * 4 % 2 ^ 64;
      }),
    )

from_pointer : ℕ → ShapeInfo → Option (ℕ → ℤ) → Status × Option ShapeInfo
from_pointer rank before none =
    if ltb 0 rank
    then (fail_argument "shape: dimensions pointer is null for nonzero rank", some before)
    else finish rank before (scan 0 [] 1 [])
from_pointer rank before (some read) = finish rank before (scan 0 (entries read 0 rank) 1 [])

rank_too_large : ℕ → Status
rank_too_large rank =
    fail_shape (
      ("shape: rank " ++ decimal rank)
      ++ (" exceeds Milestone 1 limit " ++ decimal max_tensor_rank))

-- `ValidateShape(dims, rank, out)`. A pointer is `none` when it is null; `dims` otherwise gives the
-- entry at each index, and the result holds what `out` points to afterwards.
unfoldable pub validate_shape : Option (ℕ → ℤ) → ℕ → Option ShapeInfo → Status × Option ShapeInfo
unfolding finish from_pointer rank_too_large
validate_shape dims rank none = (fail_argument "shape: output metadata pointer is null", none)
validate_shape dims rank (some before) =
    if ltb max_tensor_rank rank
    then (rank_too_large rank, some before)
    else from_pointer rank before dims

same_dimensions : List ℤ → List ℤ → Bool
same_dimensions [] [] = true
same_dimensions [] (b ∷ rs) = false
same_dimensions (a ∷ ls) [] = false
same_dimensions (a ∷ ls) (b ∷ rs) = eq_ℤ a b && same_dimensions ls rs

-- `SameShape`
unfoldable pub same_shape : ShapeInfo → ShapeInfo → Bool
unfolding same_dimensions
same_shape left right = same_dimensions left.dimensions right.dimensions
