-- ===== src/Autograd/Apply.antt =====
-- native/src/autograd/autograd.h: `ApplyNode`, one function for each case of its switch. Each gives
-- the contributions: a parent and the tensor that holds its gradient.
use tensora.Core.Guard.{Exception}
use tensora.Core.Status.{fail_internal}
use tensora.Float.{Float32}
use tensora.Shape.{ShapeInfo}
use tensora.Tensor.{Tensor}
use tensora.Heap.{M, load_tensor, GradNode}
use tensora.Steps.{◌>>=◌, ◌>>◌, Result, Output, to_caller, check, return, undefined_unless}
use tensora.Memory.{pointer_to, validated}
use tensora.Autograd.Values.{
  requires_grad, read_logical_cpu_values, make_cpu_tensor, make_cpu_full, clone_detached,
}
use tensora.Autograd.Gradients.{
  activation_gradient, product_gradient, transpose_values, matmul_left_gradient,
  matmul_right_gradient,
}
use tensora.Backend.Cpu.{rounds, dimension}
use tensora.Prelude.{
  ℕ, ◌==◌, ◌&&◌, none, some, List, [], ◌∷◌, ◌++◌, pos, length, get_or, get_elem?, replicate,
  if◌then◌else◌,
}

-- A parent, and the address of its gradient.
abbrev pub Contributions : Type 0
Contributions = List (ℕ × ℕ)

-- `node.parents.at(0)`, which throws where there is none.
unfoldable pub first_parent : {F : Type 0} → GradNode → M F ℕ
first_parent node h = elim (get_elem? node.parents 0) [
  | none ↦ (Result.threw (Exception.std_exception "vector::at"), h)
  | some a ↦ (Result.done a, h)
]

-- `node.parents[i]`
unfoldable pub nth_parent : {F : Type 0} → GradNode → ℕ → M F ℕ
nth_parent node i = undefined_unless (get_elem? node.parents i)

-- `emit`: a contribution counts only where the parent needs a gradient.
unfoldable pub emit : {F : Type 0} → ℕ → ℕ → M F Contributions
emit parent gradient = do
  t ← load_tensor parent
  needs ← requires_grad t
  if needs then return ((parent, gradient) ∷ []) else return []

-- The `if (RequiresGrad(parent))` around a branch of the binary operations.
unfoldable pub for_needed : {F : Type 0} → ℕ → M F ℕ → M F Contributions
unfolding emit
for_needed parent make = do
  t ← load_tensor parent
  needs ← requires_grad t
  if needs then (do gradient ← make; emit parent gradient) else return []

module _ {F : Type 0} ⦃fl : Float32 F⦄ where
  open fl use {zero_f, neg_f, div_f, of_size}

  unfoldable pub apply_identity : GradNode → Tensor → M F Contributions
  unfolding first_parent emit
  apply_identity node upstream = do
    contribution ← clone_detached upstream to_caller
    parent ← first_parent node
    emit parent contribution

  -- `CloneWithShape`
  clone_with_shape : Tensor → ShapeInfo → Output → M F ℕ
  clone_with_shape source shape out = do
    check (source.shape.numel == shape.numel)
        (fail_internal "autograd: reshape gradient element count mismatch")
    values ← read_logical_cpu_values source "autograd_reshape" to_caller
    make_cpu_tensor shape values out

  unfoldable pub apply_reshape : GradNode → Tensor → M F Contributions
  unfolding first_parent clone_with_shape emit
  apply_reshape node upstream = do
    parent ← first_parent node
    p ← load_tensor parent
    contribution ← clone_with_shape upstream p.shape to_caller
    emit parent contribution

  -- `TransposeGradient`
  transpose_gradient : Tensor → Output → M F ℕ
  transpose_gradient source out = do
    check (length source.shape.dimensions == 2)
        (fail_internal "autograd: transpose gradient requires rank 2")
    let rows = dimension source 0
    let cols = dimension source 1
    shape ← validated (pointer_to (pos 0) (cols ∷ rows ∷ [])) 2
    input ← read_logical_cpu_values source "autograd_transpose" to_caller
    make_cpu_tensor shape
        (transpose_values (rounds rows) (rounds cols) input (replicate shape.numel zero_f)) out

  unfoldable pub apply_transpose2d : GradNode → Tensor → M F Contributions
  unfolding first_parent transpose_gradient emit
  apply_transpose2d node upstream = do
    contribution ← transpose_gradient upstream to_caller
    parent ← first_parent node
    emit parent contribution

  -- The loop over the parents of an addition.
  unfoldable pub add_contributions : Tensor → List ℕ → M F Contributions
  unfolding for_needed
  add_contributions upstream [] = return []
  add_contributions upstream (parent ∷ rest) = do
    here ← for_needed parent (clone_detached upstream to_caller)
    others ← add_contributions upstream rest
    return (here ++ others)

  unfoldable pub apply_multiply : GradNode → List F → M F Contributions
  unfolding nth_parent for_needed
  apply_multiply node grad = do
    check (length node.parents == 2) (fail_internal "autograd: multiply node parent count mismatch")
    l ← nth_parent node 0
    r ← nth_parent node 1
    left_tensor ← load_tensor l
    right_tensor ← load_tensor r
    left ← read_logical_cpu_values left_tensor "autograd_multiply" to_caller
    right ← read_logical_cpu_values right_tensor "autograd_multiply" to_caller
    check (length grad == length left && length grad == length right)
        (fail_internal "autograd: multiply gradient size mismatch")
    lefts ← for_needed l (make_cpu_tensor left_tensor.shape (product_gradient grad right) to_caller)
    rights ←
        for_needed r (make_cpu_tensor right_tensor.shape (product_gradient grad left) to_caller)
    return (lefts ++ rights)

  unfoldable pub apply_sum : GradNode → List F → M F Contributions
  unfolding first_parent emit
  apply_sum node grad = do
    check (length grad == 1) (fail_internal "autograd: sum upstream gradient must be scalar")
    parent ← first_parent node
    p ← load_tensor parent
    contribution ← make_cpu_full p.shape (get_or grad 0 zero_f) to_caller
    emit parent contribution

  unfoldable pub apply_matmul : GradNode → Tensor → List F → M F Contributions
  unfolding nth_parent for_needed
  apply_matmul node upstream grad = do
    check (length node.parents == 2) (fail_internal "autograd: matmul node parent count mismatch")
    l ← nth_parent node 0
    r ← nth_parent node 1
    left_tensor ← load_tensor l
    right_tensor ← load_tensor r
    check
        (length left_tensor.shape.dimensions == 2
          && (length right_tensor.shape.dimensions == 2 && length upstream.shape.dimensions == 2))
        (fail_internal "autograd: matmul gradients require rank 2")
    let m = rounds (dimension left_tensor 0)
    let k = rounds (dimension left_tensor 1)
    let n = rounds (dimension right_tensor 1)
    left ← read_logical_cpu_values left_tensor "autograd_matmul" to_caller
    right ← read_logical_cpu_values right_tensor "autograd_matmul" to_caller
    lefts ←
        for_needed l
          (make_cpu_tensor left_tensor.shape (matmul_left_gradient m k n grad right) to_caller)
    rights ←
        for_needed r
          (make_cpu_tensor right_tensor.shape (matmul_right_gradient m k n left grad) to_caller)
    return (lefts ++ rights)

  unfoldable pub apply_activation : GradNode → List F → M F Contributions
  unfolding first_parent emit
  apply_activation node grad = do
    parent ← first_parent node
    p ← load_tensor parent
    input ← read_logical_cpu_values p "autograd_activation" to_caller
    check (length input == length grad)
        (fail_internal "autograd: activation gradient size mismatch")
    contribution ← make_cpu_tensor p.shape (activation_gradient node.operation input grad) to_caller
    emit parent contribution
