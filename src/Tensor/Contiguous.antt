-- ===== src/Tensor/Contiguous.antt =====
-- native/src/tensor/tensor.cc: `is_contiguous` and the layout of a contiguous tensor.
use native.Mathlib.Nat.{mod-eq_of_lt}
use tensora.Shape.{ShapeInfo}
use tensora.Shape.Product.{product, row_major, sizes, IsPositive}
use tensora.Shape.Strides.{product-drop, product-drop-le}
use tensora.Tensor.{Tensor, contiguous_from, is_contiguous, logical_storage_index}
use tensora.Tensor.Layout.{dot, logical_storage_index_lem, dot-row_major}
use mathlib.Core.Bool.{false≢true}
use tensora.Prelude.{
  ℕ, zero, suc, ◌+◌, ◌*◌, ◌%◌, ◌^◌, ◌<◌, ◌≤◌, ◌≡◌, ◌∙◌, ap, refl, List, [], ◌∷◌, ℤ, pos, to_u64,
  All, arith, length, get_or, drop, drop-get_or, drop_all, true, ◌↔◌, Bool-cases, inl, inr, ==→≡,
  ≡→==, ◌==◌,
}

-- Metadata with a stride for each dimension, positive dimensions, and counts that do not wrap.
pub record IsSound (s : ShapeInfo) : Type 0 where
  pub ranks : length s.strides ≡ length s.dimensions
  pub positive : All IsPositive s.dimensions
  pub counted : s.numel ≡ product (sizes s.dimensions)
  pub fits : s.numel * 4 < 2 ^ 64
  pub sized : s.byte_size ≡ s.numel * 4

get_or-row_major :
    (ds : List ℤ) (k : ℕ)
    → k < length ds
    → get_or (row_major (sizes ds)) k 0 ≡ product (sizes (drop (suc k) ds))
unfolding row_major
get_or-row_major [] k h = absurd (omega arith)
get_or-row_major (d ∷ ds) zero h = refl
get_or-row_major (d ∷ ds) (suc k) h = get_or-row_major ds k (omega arith)

module _ (ds : List ℤ) (positive : All IsPositive ds) (fits : product (sizes ds) < 2 ^ 64) where
  next-expected :
      (k : ℕ)
      → k < length ds
      → product (sizes (drop (suc k) ds)) * to_u64 (get_or ds k (pos 0)) % 2 ^ 64
        ≡ product (sizes (drop k ds))
  next-expected k h = rw (product-drop ds k h) (
      mod-eq_of_lt {n = product (sizes (drop k ds))} {m = 2 ^ 64}
        (omega (arith, product-drop-le ds k positive)))

  contiguous→row_major :
      (k : ℕ) (ss : List ℕ)
      → k ≤ length ds
      → length ss ≡ length ds
      → contiguous_from k ds ss (product (sizes (drop k ds))) ≡ true
      → drop k ss ≡ row_major (sizes (drop k ds))
      → ss ≡ row_major (sizes ds)
  unfolding contiguous_from row_major
  contiguous→row_major zero ss h l c e = e
  contiguous→row_major (suc k) ss h l c e =
      elim (Bool-cases (get_or ss k 0 == product (sizes (drop (suc k) ds)))) [
        | inl same ↦ contiguous→row_major k ss (omega arith) l (rw (same, next-expected k h) at c) (
            rw (
              drop-get_or ss k 0 (omega arith),
              drop-get_or ds k (pos 0) h,
              e,
              row_major,
              ==→≡ _ _ same,
            ))
        | inr differ ↦ absurd (false≢true (rw differ at c))
      ]

  row_major→contiguous :
      (k : ℕ)
      → k ≤ length ds
      → contiguous_from k ds (row_major (sizes ds)) (product (sizes (drop k ds))) ≡ true
  unfolding contiguous_from
  row_major→contiguous zero h = refl
  row_major→contiguous (suc k) h =
      rw (≡→== _ _ (get_or-row_major ds k h), next-expected k h)
        (row_major→contiguous k (omega arith))

  ended : drop (length ds) ds ≡ []
  ended = drop_all ds (length ds) (omega arith)

  start : product (sizes (drop (length ds) ds)) ≡ 1
  unfolding product
  start = rw ended refl

  contiguous_iff :
      (ss : List ℕ)
      → length ss ≡ length ds
      → (contiguous_from (length ds) ds ss 1 ≡ true) ↔ (ss ≡ row_major (sizes ds))
  unfolding row_major
  contiguous_iff ss l = (
    (λ c.
        contiguous→row_major (length ds) ss (omega arith) l (rw start c)
          (rw (ended, drop_all ss (length ds) (omega arith)))),
    (λ e. rw (e, ← start) (row_major→contiguous (length ds) (omega arith))),
  )

-- For sound metadata `is_contiguous` holds exactly when the strides are row-major.
pub is_contiguous-row_major :
    (t : Tensor)
    → IsSound t.shape
    → (is_contiguous t ≡ true) ↔ (t.shape.strides ≡ row_major (sizes t.shape.dimensions))
unfolding is_contiguous
is_contiguous-row_major t v =
    contiguous_iff t.shape.dimensions v.positive (omega arith) t.shape.strides v.ranks

-- The elements of a contiguous tensor with sound metadata lie in order from its offset on.
pub contiguous-in_order :
    (t : Tensor) (i : ℕ)
    → IsSound t.shape
    → is_contiguous t ≡ true
    → t.storage_offset + t.shape.numel ≤ 2 ^ 64
    → i < t.shape.numel
    → logical_storage_index t i ≡ t.storage_offset + i
contiguous-in_order t i v c b h =
    logical_storage_index_lem t i v.ranks (omega arith)
    ∙ ap (λ k. (t.storage_offset + k) % 2 ^ 64) coordinates
    ∙ mod-eq_of_lt {n = t.storage_offset + i} {m = 2 ^ 64} (omega arith)
  where
    coordinates : dot (sizes t.shape.dimensions) t.shape.strides i ≡ i
    coordinates =
        ap (λ ss. dot (sizes t.shape.dimensions) ss i) ((is_contiguous-row_major t v).0 c)
        ∙ dot-row_major t.shape.dimensions i v.positive
        ∙ mod-eq_of_lt {n = i} {m = product (sizes t.shape.dimensions)} (omega arith)
