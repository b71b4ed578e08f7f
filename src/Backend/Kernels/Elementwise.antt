-- ===== src/Backend/Kernels/Elementwise.antt =====
-- native/src/backends/cpu/cpu_backend.cc: the elements that the loops of Add and Multiply compute.
use native.Mathlib.Decide.{ℕ_discrete}
use tensora.Float.{Float32}
use tensora.Backend.Kernels.{elementwise_loop, add_values, multiply_values}
use tensora.Prelude.{
  ℕ, suc, ◌+◌, ◌<◌, ◌≡◌, ◌∙◌, ap, refl, List, length, get_or, set, replicate, for_range_inv, arith,
  entries, entries-eq, sym, length-set, length-replicate, get_or-set_self, get_or-set_ne,
}

module _ {F : Type 0} ⦃fl : Float32 F⦄ where
  open fl use {zero_f, add_f, mul_f}

  Done : (F → F → F) → List F → List F → ℕ → ℕ → List F → Type 0
  Done op left right n done out =
      (length out ≡ n)
      × ((j : ℕ)
          → j < done
          → get_or out j zero_f ≡ op (get_or left j zero_f) (get_or right j zero_f))

  write-Done :
      (op : F → F → F) (left right : List F) (n j : ℕ) (out : List F)
      → j < n
      → Done op left right n j out
      → Done op left right n (suc j) (set out j (op (get_or left j zero_f) (get_or right j zero_f)))
  unfolding Done
  write-Done op left right n j out b (l, h) = (
    length-set out j _ ∙ l,
    λ k c. elim (ℕ_discrete j k) [
      | yes e ↦ rw (← e) (get_or-set_self out j _ zero_f (omega arith))
      | no ne ↦ get_or-set_ne out j k _ zero_f ne ∙ h k (omega arith)
    ],
  )

  -- Each element of the result is the operation at its place.
  elementwise_loop-entries :
      (op : F → F → F) (left right result : List F)
      → elementwise_loop op left right result
        ≡ entries (λ j. op (get_or left j zero_f) (get_or right j zero_f)) 0 (length result)
  unfolding elementwise_loop Done
  elementwise_loop-entries op left right result = sym (
      entries-eq zero_f (λ j. op (get_or left j zero_f) (get_or right j zero_f)) _ 0 (length result)
        written.0
        (λ k b.
          ap (λ t. op (get_or left t zero_f) (get_or right t zero_f)) (omega arith)
          ∙ sym (written.1 k (omega arith))))
    where
      written :
          Done op left right
            (length result)
            (0 + length result)
            (elementwise_loop op left right result)
      written =
          for_range_inv (Done op left right (length result))
            (λ index out. set out index (op (get_or left index zero_f) (get_or right index zero_f)))
            (length result) 0 result
            (λ j out a b d. write-Done op left right (length result) j out (omega arith) d)
            (refl, λ j b. absurd (omega arith))

  -- `Add` adds the elements place by place, and `Multiply` multiplies them.
  pub add_values-entries :
      (n : ℕ) (left right : List F)
      → add_values n left right
        ≡ entries (λ j. add_f (get_or left j zero_f) (get_or right j zero_f)) 0 n
  unfolding add_values
  add_values-entries n left right =
      elementwise_loop-entries add_f left right (replicate n zero_f)
      ∙ ap (entries (λ j. add_f (get_or left j zero_f) (get_or right j zero_f)) 0)
          (length-replicate n zero_f)

  pub multiply_values-entries :
      (n : ℕ) (left right : List F)
      → multiply_values n left right
        ≡ entries (λ j. mul_f (get_or left j zero_f) (get_or right j zero_f)) 0 n
  unfolding multiply_values
  multiply_values-entries n left right =
      elementwise_loop-entries mul_f left right (replicate n zero_f)
      ∙ ap (entries (λ j. mul_f (get_or left j zero_f) (get_or right j zero_f)) 0)
          (length-replicate n zero_f)
