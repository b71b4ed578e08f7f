-- ===== src/Shape/Scan.antt =====
-- native/src/tensor/shape.cc: the loop of `ValidateShape` over the dimensions.
use native.Mathlib.Nat.{mul_assoc, le-div_iff_mul-le}
use mathlib.Core.List.{append-nil, append_assoc}
use tensora.Core.Status.{invalid_shape}
use tensora.Shape.{Scanned, accepted, rejected, max_numel, not_positive, scan}
use tensora.Shape.Product.{product, sizes, IsPositive, to_u64_pos, product_pos}
use tensora.Prelude.{
  ℕ, suc, ◌*◌, ◌/◌, ◌%◌, ◌^◌, ◌<◌, ◌≤◌, ◌≡◌, ◌∙◌, ap, ap₂, refl, sym, List, [], ◌∷◌, ◌++◌, ℤ,
  to_u64, is_nonpos, false, All, arith, ltb, ltb→le, le→ltb, Bool-cases, inl, inr,
}

-- The guard lets the multiplication through exactly when the product stays in range.
guard-fits : (n v : ℕ) → 0 < v → ltb (max_numel / v) n ≡ false → n * v ≤ max_numel
guard-fits n v h g = (le-div_iff_mul-le h).0 (ltb→le _ _ g)

fits-guard : (n v : ℕ) → 0 < v → n * v ≤ max_numel → ltb (max_numel / v) n ≡ false
fits-guard n v h g = le→ltb _ _ ((le-div_iff_mul-le h).1 g)

fits-mod : (n : ℕ) → n ≤ max_numel → n % 2 ^ 64 ≡ n
fits-mod n h = omega arith

le_mul_left : (a b : ℕ) {k : ℕ} → 0 < b → a * b ≤ k → a ≤ k
le_mul_left a b h g = grind arith

pub scan-accepts :
    (i : ℕ) (ds : List ℤ) (n : ℕ) (pushed : List ℤ)
    → All IsPositive ds
    → n * product (sizes ds) ≤ max_numel
    → scan i ds n pushed ≡ accepted (n * product (sizes ds)) (pushed ++ ds)
unfolding scan product
scan-accepts i [] n pushed h b = rw append-nil (ap (λ k. accepted k pushed) (omega arith))
scan-accepts i (d ∷ ds) n pushed h b =
    let fits : n * to_u64 d ≤ max_numel =
      le_mul_left (n * to_u64 d) (product (sizes ds)) (product_pos ds h.1)
        (rw (mul_assoc n (to_u64 d) (product (sizes ds))) b) in
    rw (h.0, fits-guard n (to_u64 d) (to_u64_pos d h.0) fits, fits-mod _ fits)
      (scan-accepts (suc i) ds (n * to_u64 d) (pushed ++ d ∷ []) h.1
          (rw (mul_assoc n (to_u64 d) (product (sizes ds))) b)
        ∙ ap₂ accepted (mul_assoc n (to_u64 d) _) (append_assoc pushed (d ∷ []) ds))

-- What an accepting loop has established.
abbrev pub Totals : List ℤ → ℕ → List ℤ → Scanned → Type 0
Totals ds n pushed (rejected s) = s.code ≡ invalid_shape
Totals ds n pushed (accepted m out) =
    All IsPositive ds × (m ≡ n * product (sizes ds)) × (out ≡ pushed ++ ds) × (m ≤ max_numel)

Totals-cons :
    (d : ℤ) (ds : List ℤ) (n : ℕ) (pushed : List ℤ) (r : Scanned)
    → IsPositive d
    → Totals ds (n * to_u64 d) (pushed ++ d ∷ []) r
    → Totals (d ∷ ds) n pushed r
unfolding product
Totals-cons d ds n pushed (rejected s) p t = t
Totals-cons d ds n pushed (accepted m out) p (h, e, o, b) =
    ((p, h), e ∙ mul_assoc n (to_u64 d) _, o ∙ append_assoc pushed (d ∷ []) ds, b)

pub scan-Totals :
    (i : ℕ) (ds : List ℤ) (n : ℕ) (pushed : List ℤ)
    → n ≤ max_numel
    → Totals ds n pushed (scan i ds n pushed)
unfolding scan product not_positive
scan-Totals i [] n pushed b = (tt, omega arith, sym (append-nil pushed), b)
scan-Totals i (d ∷ ds) n pushed b = elim (Bool-cases (is_nonpos d)) [
  | inl np ↦ rw np refl
  | inr p ↦ elim (Bool-cases (ltb (max_numel / to_u64 d) n)) [
    | inl over ↦ rw (p, over) refl
    | inr fit ↦
        let fits = guard-fits n (to_u64 d) (to_u64_pos d p) fit in
        rw (p, fit, fits-mod _ fits)
          (Totals-cons d ds n pushed _ p
            (scan-Totals (suc i) ds (n * to_u64 d) (pushed ++ d ∷ []) fits))
  ]
]
