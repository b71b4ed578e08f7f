-- ===== src/Shape/Validate.antt =====
-- native/src/tensor/shape.cc: what `ValidateShape` accepts, and what it then stores.
use native.Mathlib.Nat.{mod-eq_of_lt}
use tensora.Core.Status.{Status, is_ok, ok, invalid_shape}
use tensora.Shape.{
  ShapeInfo, Scanned, accepted, rejected, max_tensor_rank, max_float_count, scan, finish,
  validate_shape,
}
use tensora.Shape.Product.{product, row_major, sizes, IsPositive}
use tensora.Shape.Scan.{Totals, scan-accepts, scan-Totals}
use tensora.Shape.Strides.{fill_strides-row_major}
use tensora.Prelude.{
  ℕ, ◌*◌, ◌^◌, ◌<◌, ◌≤◌, ◌≡◌, refl, true, false, Option, some, List, [], ◌∷◌, ℤ, All, arith, length,
  entries, ltb→lt, ◌==◌, if◌then◌else◌, subst, length-entries, ltb, le→ltb, ltb→le, Bool-cases, inl,
  inr,
}

-- The metadata that a list of dimensions is meant to have: row-major strides, exact counts.
abbrev pub canonical : List ℤ → ShapeInfo
canonical dims = record {
  dimensions = dims;
  strides = row_major (sizes dims);
  numel = product (sizes dims);
  byte_size = product (sizes dims) * 4;
}

-- At most 32 dimensions, all positive, and a float32 buffer whose size fits in `size_t`.
pub record IsAcceptable (dims : List ℤ) : Type 0 where
  pub ranked : length dims ≤ max_tensor_rank
  pub positive : All IsPositive dims
  pub fits : product (sizes dims) ≤ max_float_count

-- What a call makes of `dims`: the canonical metadata, or a refusal that stores nothing.
abbrev pub Verdict : List ℤ → ShapeInfo → Status × Option ShapeInfo → Type 0
Verdict dims before r =
    (IsAcceptable dims → r ≡ (ok, some (canonical dims)))
    × (is_ok r.0 ≡ true → IsAcceptable dims)
    × (is_ok r.0 ≡ false → (r.0.code ≡ invalid_shape) × (r.1 ≡ some before))

numel-product :
    (dims : List ℤ) → (if length dims == 0 then 1 else product (sizes dims)) ≡ product (sizes dims)
unfolding product
numel-product [] = refl
numel-product (d ∷ dims) = ground arith

finish-canonical :
    (dims : List ℤ) (before : ShapeInfo)
    → IsAcceptable dims
    → finish (length dims) before (accepted (product (sizes dims)) dims)
      ≡ (ok, some (canonical dims))
unfolding finish
finish-canonical dims before a =
    let small : product (sizes dims) < 2 ^ 64 = omega arith in
    rw (
      numel-product dims,
      le→ltb max_float_count (product (sizes dims)) a.fits,
      fill_strides-row_major dims a.positive small,
      mod-eq_of_lt {n = product (sizes dims) * 4} {m = 2 ^ 64} (omega arith),
    )

finish-Verdict :
    (dims : List ℤ) (before : ShapeInfo) (r : Scanned)
    → length dims ≤ max_tensor_rank
    → Totals dims 1 [] r
    → let (s, out) = finish (length dims) before r in
      (is_ok s ≡ true → IsAcceptable dims)
      × (is_ok s ≡ false → (s.code ≡ invalid_shape) × (out ≡ some before))
unfolding finish
finish-Verdict dims before (rejected s) h t = ground arith
finish-Verdict dims before (accepted m out) h (p, e, o, b) =
    ground (arith, numel-product dims, ltb→le max_float_count (product (sizes dims)))

scan-Verdict :
    (dims : List ℤ) (before : ShapeInfo)
    → length dims ≤ max_tensor_rank
    → Verdict dims before (finish (length dims) before (scan 0 dims 1 []))
scan-Verdict dims before h =
    let (sound, refused) = finish-Verdict dims before _ h (scan-Totals 0 dims 1 [] (omega arith)) in
    (accepts, sound, refused)
  where
    once : 1 * product (sizes dims) ≡ product (sizes dims)
    once = omega arith

    accepts :
        IsAcceptable dims
        → finish (length dims) before (scan 0 dims 1 []) ≡ (ok, some (canonical dims))
    accepts a =
        rw (scan-accepts 0 dims 1 [] a.positive (omega arith), once)
          (finish-canonical dims before a)

-- `ValidateShape` with its pointers given accepts exactly the dimensions that are at most 32, all
-- positive, and need a float32 buffer of at most 2^64 - 1 bytes. It then stores them with their
-- row-major strides, their product and its fourfold, none of which wraps. Every other call returns
-- INVALID_SHAPE and leaves the output as it was.
pub validate_shape-Verdict :
    (read : ℕ → ℤ) (rank : ℕ) (before : ShapeInfo)
    → Verdict (entries read 0 rank) before (validate_shape (some read) rank (some before))
unfolding validate_shape
validate_shape-Verdict read rank before = elim (Bool-cases (ltb max_tensor_rank rank)) [
  | inl over ↦
      let long = ltb→lt _ _ over in
      rw over (λ a. absurd (omega (arith, length-entries read 0 rank)), λ e. cc, λ e. (refl, refl))
  | inr fine ↦ rw fine (
      subst
        (λ k.
          Verdict (entries read 0 rank) before
            (finish k before (scan 0 (entries read 0 rank) 1 [])))
        (length-entries read 0 rank)
        (scan-Verdict (entries read 0 rank) before
          (omega (arith, length-entries read 0 rank, ltb→le _ _ fine))))
]
