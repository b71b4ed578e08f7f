-- ===== src/Training/Losses.antt =====
-- native/src/training/training_bridge_stub.cc: the losses, which add up in double precision.
use tensora.Core.Status.{fail_shape}
use tensora.Float.{Float32, Float64}
use tensora.Shape.{same_shape}
use tensora.Heap.{M, op_mse, op_cross_entropy, load_tensor}
use tensora.Steps.{check, return, Output, to_caller, ◌>>=◌, ◌>>◌, need}
use tensora.Memory.{validated}
use tensora.Autograd.Values.{ensure_cpu_float32, cpu_values, make_cpu_tensor}
use tensora.Autograd.Graph.{record_binary}
use tensora.Autograd.Gradients.{at, max_logit}
use tensora.Backend.Cpu.{rounds, dimension}
use tensora.Prelude.{ℕ, ◌+◌, ◌*◌, ◌==◌, none, List, [], ◌∷◌, length, for_range}

module _ {F : Type 0} ⦃fl : Float32 F⦄ where
  -- `MakeScalar`
  unfoldable pub make_scalar : F → Output → M F ℕ
  unfolding make_cpu_tensor
  make_scalar value out = do scalar ← validated none 0; make_cpu_tensor scalar (value ∷ []) out

module _ {F : Type 0} (D : Type 0) ⦃fl : Float32 F⦄ ⦃fd : Float64 F D⦄ where
  open fl use {zero_f, sub_f}
  open fd use {zero_d, of_float, to_float, of_count, add_d, sub_d, mul_d, div_d, exp_d, log_d}

  -- The loop of `MseLoss`.
  unfoldable pub squared_error : List F → List F → D
  squared_error prediction target =
      for_range (length prediction) 0
        (λ i total.
          let difference = sub_d (of_float (at prediction i)) (of_float (at target i)) in
          add_d total (mul_d difference difference))
        zero_d

  -- `MseLoss`
  unfoldable pub mse_loss : ℕ → ℕ → Output → M F ℕ
  unfolding ensure_cpu_float32 cpu_values squared_error make_scalar record_binary
  mse_loss prediction target out = do
    need out "mse_loss: output tensor pointer is null"
    p ← load_tensor prediction
    ensure_cpu_float32 p "mse_loss"
    t ← load_tensor target
    ensure_cpu_float32 t "mse_loss"
    check (same_shape p.shape t.shape)
        (fail_shape "mse_loss: prediction and target shapes must match")
    prediction_values ← cpu_values p "mse_loss" to_caller
    target_values ← cpu_values t "mse_loss" to_caller
    result ←
        make_scalar
          (to_float (
            div_d (squared_error prediction_values target_values)
              (of_count (length prediction_values))))
          out
    record_binary op_mse prediction target result
    return result

  -- The sum of the exponentials of a row's distances to its largest logit, in double precision.
  exp_sum : ℕ → List F → ℕ → F → D
  exp_sum classes logits row largest =
      for_range classes 0
        (λ col total.
          add_d total (exp_d (of_float (sub_f (at logits (row * classes + col)) largest))))
        zero_d

  -- One row of the loop of `CrossEntropyLoss`.
  row_loss : ℕ → List F → List F → ℕ → D → D
  unfolding exp_sum max_logit
  row_loss classes logits target row total =
      let largest = max_logit classes logits row in
      let log_denominator = add_d (log_d (exp_sum classes logits row largest)) (of_float largest) in
      for_range classes 0
        (λ col sum.
          let index = row * classes + col in
          sub_d sum (
            mul_d (of_float (at target index))
              (sub_d (of_float (at logits index)) log_denominator)))
        total

  -- The loop of `CrossEntropyLoss`.
  unfoldable pub cross_entropy_total : ℕ → ℕ → List F → List F → D
  unfolding row_loss
  cross_entropy_total batch classes logits target =
      for_range batch 0 (λ row total. row_loss classes logits target row total) zero_d

  -- `CrossEntropyLoss`
  unfoldable pub cross_entropy_loss : ℕ → ℕ → Output → M F ℕ
  unfolding ensure_cpu_float32 cpu_values cross_entropy_total make_scalar record_binary
  cross_entropy_loss logits target out = do
    need out "cross_entropy_loss: output tensor pointer is null"
    l ← load_tensor logits
    ensure_cpu_float32 l "cross_entropy_loss"
    t ← load_tensor target
    ensure_cpu_float32 t "cross_entropy_loss"
    check (same_shape l.shape t.shape)
        (fail_shape "cross_entropy_loss: logits and one-hot target shapes must match")
    check (length l.shape.dimensions == 2)
        (fail_shape "cross_entropy_loss: initial contract requires rank-2 tensors")
    let batch = rounds (dimension l 0)
    let classes = rounds (dimension l 1)
    logits_values ← cpu_values l "cross_entropy_loss" to_caller
    target_values ← cpu_values t "cross_entropy_loss" to_caller
    result ←
        make_scalar
          (to_float (
            div_d (cross_entropy_total batch classes logits_values target_values) (of_count batch)))
          out
    record_binary op_cross_entropy logits target result
    return result
