-- ===== src/Shape/Strides.antt =====
-- native/src/tensor/shape.cc: the stride loop of `ValidateShape`.
use native.Mathlib.Nat.{mul_comm, mod-eq_of_lt}
use tensora.Shape.{fill_strides}
use tensora.Shape.Product.{product, row_major, sizes, IsPositive, to_u64_pos}
use tensora.Prelude.{
  ℕ, zero, suc, ◌*◌, ◌%◌, ◌^◌, ◌<◌, ◌≤◌, ◌≡◌, ◌∙◌, ap, refl, List, [], ◌∷◌, ℤ, pos, to_u64, All,
  arith, length, get_or, lt→ltb, if◌then◌else◌, set, drop, replicate, length-set, length-replicate,
  drop-set, drop-get_or, drop_all,
}

-- The product of a tail divides out of the whole.
pub product-drop-le :
    (ds : List ℤ) (i : ℕ) → All IsPositive ds → product (sizes (drop i ds)) ≤ product (sizes ds)
unfolding product
product-drop-le ds zero h = omega arith
product-drop-le [] (suc i) h = omega arith
product-drop-le (d ∷ ds) (suc i) h = grind (arith, product-drop-le ds i h.1, to_u64_pos d h.0)

-- One round: the tail of the strides from `i` on is right once `strides[i]` is written.
tail-step :
    (ds : List ℤ) (i : ℕ) (out : List ℕ)
    → i < length ds
    → length out ≡ length ds
    → drop (suc i) out ≡ row_major (sizes (drop (suc i) ds))
    → drop i (set out i (product (sizes (drop (suc i) ds)))) ≡ row_major (sizes (drop i ds))
unfolding row_major
tail-step ds i out h l e = rw (
  drop-set out i (product (sizes (drop (suc i) ds))) (omega arith),
  drop-get_or ds i (pos 0) h,
  e,
  row_major,
)

pub product-drop :
    (ds : List ℤ) (i : ℕ)
    → i < length ds
    → product (sizes (drop (suc i) ds)) * to_u64 (get_or ds i (pos 0)) ≡ product (sizes (drop i ds))
unfolding product
product-drop ds i h = rw (drop-get_or ds i (pos 0) h) (mul_comm _ _)

fill-last : (ds : List ℤ) (s : ℕ) (out : List ℕ) → fill_strides 1 ds s out ≡ set out 0 s
unfolding fill_strides
fill-last ds s out = refl

fill-step :
    (i : ℕ) (ds : List ℤ) (s : ℕ) (out : List ℕ)
    → fill_strides (suc (suc i)) ds s out
      ≡ fill_strides
          (suc i)
          ds
          (s * to_u64 (get_or ds (suc i) (pos 0)) % 2 ^ 64)
          (set out (suc i) s)
unfolding fill_strides
fill-step i ds s out =
    ap
      (λ c.
        fill_strides (suc i) ds (if c then s * to_u64 (get_or ds (suc i) (pos 0)) % 2 ^ 64 else s)
          (set out (suc i) s))
      (lt→ltb 0 (suc i) (omega arith))

fill-row_major :
    (ds : List ℤ) (i : ℕ) (out : List ℕ)
    → All IsPositive ds
    → product (sizes ds) < 2 ^ 64
    → i < length ds
    → length out ≡ length ds
    → drop (suc i) out ≡ row_major (sizes (drop (suc i) ds))
    → fill_strides (suc i) ds (product (sizes (drop (suc i) ds))) out ≡ row_major (sizes ds)
fill-row_major ds zero out h b n l e = fill-last ds _ out ∙ tail-step ds zero out n l e
fill-row_major ds (suc i) out h b n l e =
    rw
      (
        fill-step,
        product-drop ds (suc i) n,
        mod-eq_of_lt {n = product (sizes (drop (suc i) ds))} {m = 2 ^ 64}
            (omega (arith, product-drop-le ds (suc i) h)),
      )
      (fill-row_major ds i (set out (suc i) (product (sizes (drop (suc (suc i)) ds)))) h b
        (omega arith) (length-set out (suc i) _ ∙ l) (tail-step ds (suc i) out n l e))

-- The strides of a validated shape.
pub fill_strides-row_major :
    (ds : List ℤ)
    → All IsPositive ds
    → product (sizes ds) < 2 ^ 64
    → fill_strides (length ds) ds 1 (replicate (length ds) 1) ≡ row_major (sizes ds)
unfolding fill_strides row_major product
fill_strides-row_major [] h b = refl
fill_strides-row_major (d ∷ ds) h b =
    let none_left : drop (length ds) ds ≡ [] = drop_all ds (length ds) (omega arith) in
    rw none_left at (
      fill-row_major (d ∷ ds) (length ds) (replicate (suc (length ds)) 1) h b (omega arith)
        (length-replicate {A = ℕ} (suc (length ds)) 1)
        (rw (none_left) (
          drop_all {A = ℕ} (replicate (length ds) 1) (length ds)
            (omega (arith, length-replicate {A = ℕ} (length ds) 1)))))
