-- ===== src/Shape/Edges.antt =====
-- native/src/tensor/shape.cc: `ValidateShape` on null pointers, and `SameShape`.
use tensora.Core.Status.{ok, invalid_argument, invalid_shape}
use tensora.Shape.{
  ShapeInfo, max_tensor_rank, validate_shape, scan, fill_strides, same_dimensions, same_shape,
}
use tensora.Shape.Product.{product, row_major}
use tensora.Shape.Validate.{canonical}
use tensora.Prelude.{
  ℕ, zero, suc, ◌<◌, ◌≤◌, ◌≡◌, ◌↔◌, refl, ap₂, true, none, some, List, [], ◌∷◌, ℤ, arith, eq_ℤ,
  eq_ℤ→≡, eq_ℤ_refl, Bool-cases, inl, inr,
}

-- A null `dims` is accepted for rank 0 alone, as the shape of a scalar. For ranks 1 to 32 it is
-- INVALID_ARGUMENT, above that INVALID_SHAPE, and nothing is stored. A null `out` is
-- INVALID_ARGUMENT whatever the rank.
pub validate_shape-null :
    (rank : ℕ) (before : ShapeInfo)
    → let (s, out) = validate_shape none rank (some before) in
      (rank ≡ 0 → (s ≡ ok) × (out ≡ some (canonical [])))
      × (0 < rank → rank ≤ max_tensor_rank → (s.code ≡ invalid_argument) × (out ≡ some before))
      × (max_tensor_rank < rank → (s.code ≡ invalid_shape) × (out ≡ some before))
      × ((validate_shape none rank none).0.code ≡ invalid_argument)
unfolding validate_shape scan fill_strides product row_major
validate_shape-null zero before = ground arith
validate_shape-null (suc rank) before = ground arith

same_dimensions_iff : (ls rs : List ℤ) → (same_dimensions ls rs ≡ true) ↔ (ls ≡ rs)
unfolding same_dimensions
same_dimensions_iff [] [] = (λ e. refl, λ e. refl)
same_dimensions_iff [] (b ∷ rs) = (λ e. cc, λ e. cc)
same_dimensions_iff (a ∷ ls) [] = (λ e. cc, λ e. cc)
same_dimensions_iff (a ∷ ls) (b ∷ rs) = elim (Bool-cases (eq_ℤ a b)) [
  | inl e ↦ (
    λ h. ap₂ ◌∷◌ (eq_ℤ→≡ a b e) ((same_dimensions_iff ls rs).0 (rw e at h)),
    λ h. rw e ((same_dimensions_iff ls rs).1 (cc)),
  )
  | inr e ↦ (λ h. cc, λ h. cc (eq_ℤ_refl a))
]

-- Two shapes are the same exactly when their dimensions are; strides do not count.
pub same_shape_iff :
    (left right : ShapeInfo) → (same_shape left right ≡ true) ↔ (left.dimensions ≡ right.dimensions)
unfolding same_shape
same_shape_iff left right = same_dimensions_iff left.dimensions right.dimensions
