-- ===== src/Autograd/Backward.antt =====
-- native/src/autograd/autograd.h: `ApplyNode` as a whole, and `Backward`.
use tensora.Core.Status.{fail_argument, fail_shape}
use tensora.Float.{Float32}
use tensora.Tensor.{Tensor}
use tensora.Heap.{
  M, load_tensor, load_meta, store_meta, GradNode, Operation, op_identity, op_reshape,
  op_transpose2d, op_add, op_multiply, op_sum, op_matmul, op_swiglu, op_mse, op_cross_entropy,
  op_bias_add,
}
use tensora.Steps.{◌>>=◌, ◌>>◌, Result, Output, to_caller, need, check, fail, return}
use tensora.Autograd.Values.{
  requires_grad, read_logical_cpu_values, make_cpu_full, clone_detached, accumulate,
}
use tensora.Autograd.Graph.{validate_saved_versions, build_topology, grad_fn_of}
use tensora.Autograd.Apply.{
  Contributions, apply_identity, apply_reshape, apply_transpose2d, add_contributions,
  apply_multiply, apply_sum, apply_matmul, apply_activation,
}
use tensora.Autograd.Losses.{apply_swiglu, apply_mse, apply_cross_entropy, apply_bias_add}
use mathlib.Core.List.{reverse}
use tensora.Prelude.{ℕ, suc, ◌==◌, ◌&&◌, Option, none, some, List, [], ◌∷◌, length, if◌then◌else◌}

-- The gradients of a backward pass: a tensor, and the tensor of its gradient.
abbrev pub Gradients : Type 0
Gradients = List (ℕ × ℕ)

find_gradient : ℕ → Gradients → Option ℕ
find_gradient a [] = none
find_gradient a ((b, g) ∷ m) = if b == a then some g else find_gradient a m

set_gradient : ℕ → ℕ → Gradients → Gradients
set_gradient a g [] = (a, g) ∷ []
set_gradient a g ((b, g') ∷ m) = if b == a then (b, g) ∷ m else (b, g') ∷ set_gradient a g m

module _ {F : Type 0} where
  unfoldable pub check_grad_fn : Option GradNode → M F (Unit {0})
  check_grad_fn none = return tt
  check_grad_fn (some node) = validate_saved_versions node

  -- The loop that checks every saved version before any gradient is published.
  unfoldable pub check_all : List ℕ → M F (Unit {0})
  unfolding check_grad_fn grad_fn_of
  check_all [] h = return tt h
  check_all (value ∷ rest) h = (do check_grad_fn (grad_fn_of h value); check_all rest) h

  -- `BuildTopology` on a root. As deep as there are tensors is deep enough.
  unfoldable pub topology_of : ℕ → M F (List ℕ)
  topology_of root h =
      elim (build_topology h (suc (length h.tensors)) root
        (record { visited = []; topology = [] })) [
          | none ↦ (Result.undefined, h)
          | some w ↦ (Result.done w.topology, h)
        ]

module _ {F : Type 0} ⦃fl : Float32 F⦄ where
  open fl use {one_f}

  -- The switch of `ApplyNode`.
  apply_operation : Operation → GradNode → Tensor → List F → M F Contributions
  apply_operation op_identity node upstream grad = apply_identity node upstream
  apply_operation op_reshape node upstream grad = apply_reshape node upstream
  apply_operation op_transpose2d node upstream grad = apply_transpose2d node upstream
  apply_operation op_add node upstream grad = add_contributions upstream node.parents
  apply_operation op_multiply node upstream grad = apply_multiply node grad
  apply_operation op_sum node upstream grad = apply_sum node grad
  apply_operation op_matmul node upstream grad = apply_matmul node upstream grad
  apply_operation op_swiglu node upstream grad = apply_swiglu node grad
  apply_operation op_mse node upstream grad = apply_mse node grad
  apply_operation op_cross_entropy node upstream grad = apply_cross_entropy node grad
  apply_operation op_bias_add node upstream grad = apply_bias_add node upstream grad
  apply_operation activation node upstream grad = apply_activation node grad

  -- `ApplyNode`
  unfoldable pub apply_node : GradNode → Tensor → Output → M F Contributions
  unfolding apply_operation
  apply_node node upstream out = do
    need out "autograd: contribution output is null"
    validate_saved_versions node
    grad ← read_logical_cpu_values upstream "autograd_backward" to_caller
    apply_operation node.operation node upstream grad

  -- The loop over the contributions of a node.
  accumulate_all : Contributions → Gradients → M F Gradients
  unfolding find_gradient set_gradient
  accumulate_all [] gradients = return gradients
  accumulate_all ((parent, gradient) ∷ rest) gradients = do
    contribution ← load_tensor gradient
    sum ← accumulate (find_gradient parent gradients) contribution
    accumulate_all rest (set_gradient parent sum gradients)

  -- `AccumulateLeaf`
  accumulate_leaf : ℕ → Tensor → M F (Unit {0})
  accumulate_leaf m gradient = do
    meta ← load_meta m
    sum ← accumulate meta.gradient gradient
    store_meta m (record meta { gradient = some sum })

  apply_grad_fn : Option GradNode → Tensor → Gradients → M F Gradients
  unfolding apply_node accumulate_all
  apply_grad_fn none upstream gradients = return gradients
  apply_grad_fn (some node) upstream gradients = do
    contributions ← apply_node node upstream to_caller
    accumulate_all contributions gradients

  propagate_meta : Option ℕ → Tensor → Gradients → M F Gradients
  unfolding accumulate_leaf apply_grad_fn
  propagate_meta none upstream gradients = return gradients
  propagate_meta (some m) upstream gradients = do
    meta ← load_meta m
    if meta.requires_grad && meta.is_leaf then accumulate_leaf m upstream else return tt
    apply_grad_fn meta.grad_fn upstream gradients

  propagate_gradient : ℕ → Option ℕ → Gradients → M F Gradients
  unfolding propagate_meta
  propagate_gradient value none gradients = return gradients
  propagate_gradient value (some g) gradients = do
    upstream ← load_tensor g
    t ← load_tensor value
    propagate_meta t.autograd_meta upstream gradients

  -- The loop of `Backward` over the topology, its last entry first.
  propagate : List ℕ → Gradients → M F (Unit {0})
  unfolding propagate_gradient find_gradient
  propagate [] gradients = return tt
  propagate (value ∷ rest) gradients = do
    gradients' ← propagate_gradient value (find_gradient value gradients) gradients
    propagate rest gradients'

  -- `Backward`
  unfoldable pub backward : ℕ → M F (Unit {0})
  unfolding topology_of check_all propagate
  backward root = do
    t ← load_tensor root
    check (t.shape.numel == 1) (fail_shape "tensor_backward: loss tensor must contain one value")
    needs ← requires_grad t
    check needs (fail_argument "tensor_backward: tensor does not require gradients")
    topology ← topology_of root
    check_all topology
    root_gradient ← make_cpu_full t.shape one_f to_caller
    propagate (reverse topology) ((root, root_gradient) ∷ [])

  copy_gradient_of : Option ℕ → Output → M F ℕ
  copy_gradient_of none out = fail (fail_argument "tensor_grad: gradient is not available")
  copy_gradient_of (some g) out = do gradient ← load_tensor g; clone_detached gradient out

  -- `GradientSnapshot`
  unfoldable pub gradient_snapshot : Tensor → Output → M F ℕ
  unfolding copy_gradient_of
  gradient_snapshot t out = do
    need out "tensor_grad: output tensor pointer is null"
    elim t.autograd_meta [
      | none ↦ fail (fail_argument "tensor_grad: gradient is not available")
      | some m ↦ do meta ← load_meta m; copy_gradient_of meta.gradient out
    ]

-- `ClearGradient`
unfoldable pub clear_gradient : {F : Type 0} → Tensor → M F (Unit {0})
clear_gradient t = elim t.autograd_meta [
  | none ↦ return tt
  | some m ↦ do meta ← load_meta m; store_meta m (record meta { gradient = none })
]
