-- ===== src/Tensor/Layout.antt =====
-- native/src/tensor/tensor.cc: where a logical index lies in the storage.
use native.Mathlib.Nat.{
  mod-eq_of_lt, div-div-eq-div-mul, div-add-mod, mod-lt, div-one, add-mul-mod_self_left,
}
use tensora.Shape.Product.{product, row_major, sizes, IsPositive, product_pos, to_u64_pos}
use tensora.Shape.Strides.{product-drop}
use tensora.Tensor.{Tensor, index_from, logical_storage_index}
use tensora.Prelude.{
  ℕ, zero, suc, ◌+◌, ◌*◌, ◌/◌, ◌%◌, ◌^◌, ◌<◌, ◌≤◌, ◌≡◌, ◌∙◌, ap, ap₂, refl, sym, List, [], ◌∷◌, ℤ,
  pos, to_u64, All, arith, length, get_or, drop, drop-get_or, drop_all,
}

-- The specification: the coordinate in each dimension, times its stride.
unfoldable pub dot : List ℕ → List ℕ → ℕ → ℕ
dot [] strides i = 0
dot (d ∷ ds) [] i = 0
dot (d ∷ ds) (s ∷ ss) i = i / product ds % d * s + dot ds ss i

-- Two rounds of wrapping addition are one.
add-wrap : (a b c : ℕ) → ((a + b) % 2 ^ 64 + c % 2 ^ 64) % 2 ^ 64 ≡ (a + (c + b)) % 2 ^ 64
add-wrap a b c = omega arith

dot-drop :
    (ds : List ℤ) (ss : List ℕ) (k i : ℕ)
    → k < length ds
    → length ss ≡ length ds
    → dot (sizes (drop k ds)) (drop k ss) i
      ≡ i / product (sizes (drop (suc k) ds)) % to_u64 (get_or ds k (pos 0)) * get_or ss k 0
        + dot (sizes (drop (suc k) ds)) (drop (suc k) ss) i
unfolding dot
dot-drop ds ss k i h l = rw (drop-get_or ds k (pos 0) h, drop-get_or ss k 0 (omega arith))

index_from-dot :
    (k : ℕ) (ds : List ℤ) (ss : List ℕ) (offset i : ℕ)
    → k ≤ length ds
    → length ss ≡ length ds
    → index_from k ds ss
        (i / product (sizes (drop k ds)))
        ((offset + dot (sizes (drop k ds)) (drop k ss) i) % 2 ^ 64)
      ≡ (offset + dot (sizes ds) ss i) % 2 ^ 64
unfolding index_from
index_from-dot zero ds ss offset i h l = refl
index_from-dot (suc k) ds ss offset i h l =
    rw
      (
        div-div-eq-div-mul i (product (sizes (drop (suc k) ds))) (to_u64 (get_or ds k (pos 0))),
        product-drop ds k h,
        add-wrap offset (dot (sizes (drop (suc k) ds)) (drop (suc k) ss) i)
            (i / product (sizes (drop (suc k) ds)) % to_u64 (get_or ds k (pos 0)) * get_or ss k 0),
        ← dot-drop ds ss k i h l,
      )
      (index_from-dot k ds ss offset i (omega arith) l)

index_from-dot_all :
    (ds : List ℤ) (ss : List ℕ) (offset i : ℕ)
    → length ss ≡ length ds
    → offset < 2 ^ 64
    → index_from (length ds) ds ss i offset ≡ (offset + dot (sizes ds) ss i) % 2 ^ 64
unfolding dot product
index_from-dot_all ds ss offset i l h =
    ap₂ (λ r o. index_from (length ds) ds ss r o) (sym whole) (sym start)
    ∙ index_from-dot (length ds) ds ss offset i (omega arith) l
  where
    ended : drop (length ds) ds ≡ []
    ended = drop_all ds (length ds) (omega arith)

    whole : i / product (sizes (drop (length ds) ds)) ≡ i
    whole = rw ended (div-one i)

    start : (offset + dot (sizes (drop (length ds) ds)) (drop (length ds) ss) i) % 2 ^ 64 ≡ offset
    start = rw ended (omega arith)

-- With a stride for each dimension and an offset of 64 bits, the loop of `logical_storage_index`
-- computes the offset plus each coordinate times its stride, modulo 2^64.
pub logical_storage_index_lem :
    (t : Tensor) (i : ℕ)
    → length t.shape.strides ≡ length t.shape.dimensions
    → t.storage_offset < 2 ^ 64
    → logical_storage_index t i
      ≡ (t.storage_offset + dot (sizes t.shape.dimensions) t.shape.strides i) % 2 ^ 64
unfolding logical_storage_index
logical_storage_index_lem t i l h =
    index_from-dot_all t.shape.dimensions t.shape.strides t.storage_offset i l h

-- Two digits of a mixed-radix number.
digits-lt : (q d r p : ℕ) → q < d → r < p → q * p + r < d * p
digits-lt q d r p h k = grind arith

pub mod-mul : (i d p : ℕ) → 0 < d → 0 < p → i / p % d * p + i % p ≡ i % (d * p)
mod-mul i d p hd hp = sym (
    ap (λ k. k % (d * p)) split
    ∙ add-mul-mod_self_left (i / p % d * p + i % p) (d * p) (i / p / d)
    ∙ mod-eq_of_lt (digits-lt (i / p % d) d (i % p) p (mod-lt (i / p) hd) (mod-lt i hp)))
  where
    split : i ≡ i / p % d * p + i % p + d * p * (i / p / d)
    split = omega (arith, div-add-mod i p, ap (λ (t : ℕ). t * p) (div-add-mod (i / p) d))

-- The coordinates of a row-major layout make up the index again.
pub dot-row_major :
    (ds : List ℤ) (i : ℕ)
    → All IsPositive ds
    → dot (sizes ds) (row_major (sizes ds)) i ≡ i % product (sizes ds)
unfolding dot row_major product
dot-row_major [] i h = omega arith
dot-row_major (d ∷ ds) i h =
    rw (dot-row_major ds i h.1)
      (mod-mul i (to_u64 d) (product (sizes ds)) (to_u64_pos d h.0) (product_pos ds h.1))
