-- ===== src/Autograd/Losses.antt =====
-- native/src/autograd/autograd.h: the cases of `ApplyNode` for SwiGLU, the losses and the bias.
use tensora.Core.Status.{fail_internal}
use tensora.Float.{Float32}
use tensora.Shape.{same_shape}
use tensora.Tensor.{Tensor}
use tensora.Heap.{M, load_tensor, GradNode}
use tensora.Steps.{◌>>=◌, ◌>>◌, to_caller, check, return}
use tensora.Autograd.Values.{read_logical_cpu_values, make_cpu_tensor, clone_detached}
use tensora.Autograd.Gradients.{
  swiglu_gradient, mse_scale, mse_gradient, cross_entropy_logits_gradient,
  cross_entropy_target_gradient, bias_gradient,
}
use tensora.Autograd.Apply.{Contributions, nth_parent, emit, for_needed}
use tensora.Backend.Cpu.{rounds, dimension}
use tensora.Prelude.{
  ◌-◌, ◌*◌, ◌/◌, ◌%◌, ◌==◌, not, ◌&&◌, List, ◌++◌, pos, eq_ℤ, is_nonpos, length, get_or,
}

module _ {F : Type 0} ⦃fl : Float32 F⦄ where
  open fl use {zero_f, neg_f, div_f, of_size}

  unfoldable pub apply_swiglu : GradNode → List F → M F Contributions
  unfolding nth_parent emit
  apply_swiglu node grad = do
    check (length node.parents == 1) (fail_internal "autograd: SwiGLU node parent count mismatch")
    parent ← nth_parent node 0
    p ← load_tensor parent
    check (not (length p.shape.dimensions == 0))
        (fail_internal "autograd: SwiGLU parent rank is invalid")
    let last = get_or p.shape.dimensions (length p.shape.dimensions - 1) (pos 0)
    let width = rounds last
    check (not (is_nonpos last) && width % 2 == 0)
        (fail_internal "autograd: SwiGLU parent width is invalid")
    let half = width / 2
    let rows = p.shape.numel / width
    check (length grad == rows * half) (fail_internal "autograd: SwiGLU gradient shape mismatch")
    input ← read_logical_cpu_values p "autograd_swiglu" to_caller
    contribution ← make_cpu_tensor p.shape (swiglu_gradient rows width half input grad) to_caller
    emit parent contribution

  unfoldable pub apply_mse : GradNode → List F → M F Contributions
  unfolding nth_parent for_needed
  apply_mse node grad = do
    check (length node.parents == 2 && length grad == 1)
        (fail_internal "autograd: invalid MSE node metadata")
    p ← nth_parent node 0
    t ← nth_parent node 1
    prediction ← load_tensor p
    target ← load_tensor t
    prediction_values ← read_logical_cpu_values prediction "autograd_mse" to_caller
    target_values ← read_logical_cpu_values target "autograd_mse" to_caller
    let scale = mse_scale grad prediction_values
    predictions ← for_needed p (
        make_cpu_tensor prediction.shape
          (mse_gradient scale (length prediction_values) prediction_values target_values) to_caller)
    targets ← for_needed t (
        make_cpu_tensor target.shape
          (mse_gradient (neg_f scale) (length target_values) prediction_values target_values)
          to_caller)
    return (predictions ++ targets)

  unfoldable pub apply_cross_entropy : GradNode → List F → M F Contributions
  unfolding nth_parent for_needed
  apply_cross_entropy node grad = do
    check (length node.parents == 2 && length grad == 1)
        (fail_internal "autograd: invalid cross entropy metadata")
    l ← nth_parent node 0
    t ← nth_parent node 1
    logits ← load_tensor l
    target ← load_tensor t
    check (length logits.shape.dimensions == 2 && same_shape logits.shape target.shape)
        (fail_internal "autograd: invalid cross entropy shapes")
    let batch = rounds (dimension logits 0)
    let classes = rounds (dimension logits 1)
    logits_values ← read_logical_cpu_values logits "autograd_cross_entropy" to_caller
    target_values ← read_logical_cpu_values target "autograd_cross_entropy" to_caller
    let scale = div_f (get_or grad 0 zero_f) (of_size batch)
    of_logits ← for_needed l (
        make_cpu_tensor logits.shape
          (cross_entropy_logits_gradient scale batch classes logits_values target_values) to_caller)
    of_target ← for_needed t (
        make_cpu_tensor target.shape
          (cross_entropy_target_gradient scale batch classes logits_values target_values) to_caller)
    return (of_logits ++ of_target)

  unfoldable pub apply_bias_add : GradNode → Tensor → List F → M F Contributions
  unfolding nth_parent for_needed
  apply_bias_add node upstream grad = do
    check (length node.parents == 2) (fail_internal "autograd: bias-add node parent count mismatch")
    a ← nth_parent node 0
    b ← nth_parent node 1
    matrix ← load_tensor a
    bias ← load_tensor b
    check (length matrix.shape.dimensions == 2 && length bias.shape.dimensions == 1)
        (fail_internal "autograd: bias-add shape metadata is invalid")
    let rows = rounds (dimension matrix 0)
    let cols = rounds (dimension matrix 1)
    check (eq_ℤ (dimension bias 0) (dimension matrix 1) && length grad == rows * cols)
        (fail_internal "autograd: bias-add gradient shape mismatch")
    of_matrix ← for_needed a (clone_detached upstream to_caller)
    of_bias ← for_needed b (make_cpu_tensor bias.shape (bias_gradient rows cols grad) to_caller)
    return (of_matrix ++ of_bias)
