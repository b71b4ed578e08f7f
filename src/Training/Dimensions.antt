-- ===== src/Training/Dimensions.antt =====
-- native/src/training/training_bridge_stub.cc: what ValidateModuleDimensions accepts.
use native.Mathlib.Nat.{le-div_iff_mul-le}
use tensora.Steps.{Result}
use tensora.Shape.Product.{IsPositive, to_u64_pos}
use tensora.Training.Linear.{validate_module_dimensions}
use tensora.Prelude.{
  ℕ, ◌*◌, ◌/◌, ◌-◌, ◌%◌, ◌^◌, ◌≤◌, ◌<◌, ◌≡◌, ◌↔◌, refl, ℤ, to_u64, is_nonpos, false, Bool-cases,
  inl, inr, ltb, ltb→le, le→ltb, arith,
}

abbrev largest : ℕ
largest = 2 ^ 64 - 1

guards-fits :
    (a b : ℕ)
    → 0 < b
    → ltb (largest / b) a ≡ false
    → ltb (largest / 4) (a * b % 2 ^ 64) ≡ false
    → a * b * 4 ≤ largest
guards-fits a b h g k =
    let product : a * b ≤ largest = (le-div_iff_mul-le h).0 (ltb→le _ _ g) in
    let quarter = ltb→le _ _ k in omega arith

fits-first : (a b : ℕ) → 0 < b → a * b * 4 ≤ largest → ltb (largest / b) a ≡ false
fits-first a b h g =
    let product : a * b ≤ largest = omega arith in le→ltb _ _ ((le-div_iff_mul-le h).1 product)

fits-second : (a b : ℕ) → a * b * 4 ≤ largest → ltb (largest / 4) (a * b % 2 ^ 64) ≡ false
fits-second a b g = le→ltb _ _ (omega arith)

module _ {S : Type 0} where
  -- ValidateModuleDimensions accepts exactly the sizes that are positive and whose weight needs a
  -- float32 buffer of at most 2^64 - 1 bytes, counted without wrapping; it changes nothing.
  pub validate_module_dimensions_iff :
      (in_features out_features : ℤ) (s : S)
      → (validate_module_dimensions in_features out_features s ≡ (Result.done tt, s)) ↔ (
          IsPositive in_features
          × IsPositive out_features
          × (to_u64 in_features * to_u64 out_features * 4 ≤ 2 ^ 64 - 1))
  unfolding validate_module_dimensions
  validate_module_dimensions_iff i o s = (
    λ e. elim (Bool-cases (is_nonpos i)) [
      | inl bad ↦ cc (rw bad at e)
      | inr i_pos ↦ elim (Bool-cases (is_nonpos o)) [
        | inl bad ↦ cc (rw (i_pos, bad) at e)
        | inr o_pos ↦ elim (Bool-cases (ltb (largest / to_u64 o) (to_u64 i))) [
          | inl bad ↦ cc (rw (i_pos, o_pos, bad) at e)
          | inr first ↦ elim (Bool-cases (ltb (largest / 4) (to_u64 i * to_u64 o % 2 ^ 64))) [
            | inl bad ↦ cc (rw (i_pos, o_pos, first, bad) at e)
            | inr second ↦
                (i_pos, o_pos, guards-fits (to_u64 i) (to_u64 o) (to_u64_pos o o_pos) first second)
          ]
        ]
      ]
    ],
    λ (i_pos, o_pos, fits).
        rw
          (
            i_pos,
            o_pos,
            fits-first (to_u64 i) (to_u64 o) (to_u64_pos o o_pos) fits,
            fits-second (to_u64 i) (to_u64 o) fits,
          )
          refl,
  )
