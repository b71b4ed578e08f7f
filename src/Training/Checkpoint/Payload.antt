-- ===== src/Training/Checkpoint/Payload.antt =====
-- native/src/training/training_bridge_stub.cc: ReadTensorPayload on the bytes of a tensor.
use mathlib.Core.List.{append_assoc}
use tensora.Steps.{Result, to_caller}
use tensora.Core.Status.{ok}
use tensora.Shape.{ShapeInfo, max_float_count, validate_shape}
use tensora.Shape.Validate.{IsAcceptable, Verdict, canonical, validate_shape-Verdict}
use tensora.Shape.Edges.{validate_shape-null, same_shape_iff}
use tensora.Memory.{dimensions_pointer, default_shape}
use tensora.Training.Bytes.{FloatBits, bytes_of}
use tensora.Training.Bytes.Scalars.{read_scalar-bytes_of, IsInt64, dimensions-IsInt64}
use tensora.Training.Checkpoint.{
  read_dimensions, read_shape, float_bytes, read_floats, read_tensor_payload,
}
use tensora.Prelude.{
  ℕ, ◌^◌, ◌<◌, ◌≤◌, ◌≡◌, refl, sym, ap, ap₂, subst, some, List, [], ◌∷◌, ◌++◌, ℤ, pos, to_u64, All,
  length, get_or, entries-eq, arith, le→ltb, ≡→==,
}

unfoldable pub dimension_bytes : List ℤ → List ℕ
dimension_bytes [] = []
dimension_bytes (d ∷ dims) = bytes_of 8 (to_u64 d) ++ dimension_bytes dims

read_dimensions-dimension_bytes :
    (dims : List ℤ) (rest : List ℕ)
    → All IsInt64 dims
    → read_dimensions (length dims) (dimension_bytes dims ++ rest) ≡ (Result.done dims, rest)
unfolding read_dimensions dimension_bytes
read_dimensions-dimension_bytes [] rest h = refl
read_dimensions-dimension_bytes (d ∷ dims) rest h = rw (
  append_assoc (bytes_of 8 (to_u64 d)) (dimension_bytes dims) rest,
  read_scalar-bytes_of 8 (to_u64 d) "module_load: truncated tensor shape"
      (dimension_bytes dims ++ rest) (omega (arith, h.0.0)),
  read_dimensions-dimension_bytes dims rest h.1,
  h.0.1,
)

validated-canonical :
    (dims : List ℤ)
    → IsAcceptable dims
    → validate_shape (dimensions_pointer dims) (length dims) (some default_shape)
      ≡ (ok, some (canonical dims))
validated-canonical [] h =
    let answer = (validate_shape-null 0 default_shape).0 refl in
    ap₂ (λ a b. (a, b)) answer.0 answer.1
validated-canonical (d ∷ dims) h =
    let read : ℕ → ℤ = λ i. get_or (d ∷ dims) i (pos 0) in
    let rank : ℕ = length (d ∷ dims) in
    let same = entries-eq (pos 0) read (d ∷ dims) 0 rank refl (λ k below. ap read (omega arith)) in
    (subst (λ ds. Verdict ds default_shape (validate_shape (some read) rank (some default_shape)))
        same (validate_shape-Verdict read rank default_shape)).0
      h

read_shape-canonical :
    (dims : List ℤ) (rest : List ℕ)
    → IsAcceptable dims
    → read_shape dims rest ≡ (Result.done (canonical dims), rest)
unfolding read_shape
read_shape-canonical dims rest h = rw (validated-canonical dims h)

-- The bits of a float32 are 32, and they are the float.
pub record IsFaithful {F : Type 0} (bits : FloatBits F) : Type 0 where
  pub small : (x : F) → bits.to_bits x < 2 ^ 32
  pub exact : (x : F) → bits.of_bits (bits.to_bits x) ≡ x

module _ {F : Type 0} ⦃bits : FloatBits F⦄ where
  open bits use {to_bits, of_bits}

  read_floats-float_bytes :
      IsFaithful bits
      → (xs : List F) (rest : List ℕ)
      → read_floats (length xs) (float_bytes xs ++ rest) ≡ (Result.done xs, rest)
  unfolding read_floats float_bytes
  read_floats-float_bytes f [] rest = refl
  read_floats-float_bytes f (x ∷ xs) rest = rw (
    append_assoc (bytes_of 4 (to_bits x)) (float_bytes xs) rest,
    read_scalar-bytes_of 4 (to_bits x) "module_load: truncated tensor payload"
        (float_bytes xs ++ rest) (omega (arith, f.small x)),
    read_floats-float_bytes f xs rest,
    f.exact x,
  )

  -- The bytes of a tensor, and those after them.
  unfoldable pub payload_bytes : ShapeInfo → List F → List ℕ → List ℕ
  payload_bytes shape values rest =
      bytes_of 8 (length shape.dimensions)
      ++ (dimension_bytes shape.dimensions
          ++ (bytes_of 8 shape.numel ++ (float_bytes values ++ rest)))

  -- Reading the bytes of a tensor of an acceptable shape gives its values and leaves what follows.
  pub read_tensor_payload-payload_bytes :
      IsFaithful bits
      → (shape : ShapeInfo) (values : List F) (rest : List ℕ) → IsAcceptable shape.dimensions
      → shape ≡ canonical shape.dimensions
      → length values ≡ shape.numel
      → read_tensor_payload shape to_caller (payload_bytes shape values rest)
        ≡ (Result.done values, rest)
  unfolding read_tensor_payload payload_bytes
  read_tensor_payload-payload_bytes f shape values rest ok_shape plain long =
      let dims = shape.dimensions in
      let numel_eq : shape.numel ≡ (canonical dims).numel = ap (λ s. s.numel) plain in
      let small : shape.numel ≤ max_float_count =
        subst (λ n. n ≤ max_float_count) (sym numel_eq) ok_shape.fits in
      let after = bytes_of 8 shape.numel ++ (float_bytes values ++ rest) in
      rw (
        read_scalar-bytes_of 8 (length dims) "module_load: invalid tensor rank"
            (dimension_bytes dims ++ after) (omega (arith, ok_shape.ranked)),
        le→ltb 32 (length dims) ok_shape.ranked,
        read_dimensions-dimension_bytes dims after
            (dimensions-IsInt64 dims ok_shape.positive ok_shape.fits),
        read_shape-canonical dims after ok_shape,
        (same_shape_iff (canonical dims) shape).1 refl,
        read_scalar-bytes_of 8 shape.numel "module_load: invalid tensor element count"
            (float_bytes values ++ rest) (omega (arith, small)),
        ≡→== _ _ numel_eq,
        le→ltb _ _ small,
        sym long,
        read_floats-float_bytes f values rest,
      )
