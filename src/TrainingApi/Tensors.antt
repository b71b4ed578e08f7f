-- ===== src/TrainingApi/Tensors.antt =====
-- native/src/training/training_c_api.cc: the functions on tensors.
use tensora.Float.{Float32, Float64}
use tensora.Tensor.{Tensor}
use tensora.Heap.{M, load_tensor}
use tensora.Steps.{◌>>=◌, ◌>>◌, Output, need}
use tensora.Autograd.Backward.{backward}
use tensora.Training.Transfer.{is_available, with_requires_grad, gradient, requires_grad_flag}
use tensora.Training.Activations.{relu, sigmoid_of, tanh_of, gelu, silu, swiglu}
use tensora.Training.Losses.{mse_loss, cross_entropy_loss}
use tensora.Training.Linear.{manual_seed}
use tensora.Training.Assign.{
  tensor_identity, clone_detached_checked, assign_many, set_requires_grad,
}
use tensora.Training.State.{Random, on_tensors, on_world}
use tensora.Api.{reset}
use tensora.TrainingApi.{
  Exposed, exposed, lookup_training_tensor, run_training_unary, run_training_binary,
}
use tensora.Prelude.{ℕ, ◌==◌, not, Option, none}

-- An operation that is given the tensor itself.
abbrev pub on_loaded : {F A : Type 0} → (Tensor → Output → M F A) → ℕ → Output → M F A
on_loaded operation tensor out = do t ← load_tensor tensor; operation t out

module _ {F D G : Type 0} where
  -- `ts_training_available`
  unfoldable pub ts_training_available : Output → Exposed F D G ℕ
  unfolding is_available
  ts_training_available out = exposed "training_available" none (is_available out)

  -- `ts_tensor_identity`
  unfoldable pub ts_tensor_identity : ℕ → Output → Exposed F D G ℕ
  unfolding lookup_training_tensor tensor_identity
  ts_tensor_identity tensor out = exposed "tensor_identity" (reset out 0) (do
    need out "tensor_identity: output identity pointer is null"
    object ← lookup_training_tensor tensor
    on_tensors (on_loaded tensor_identity object out))

  -- `ts_tensor_requires_grad`
  unfoldable pub ts_tensor_requires_grad : ℕ → Output → Exposed F D G ℕ
  unfolding lookup_training_tensor requires_grad_flag
  ts_tensor_requires_grad tensor out = exposed "tensor_requires_grad" (reset out 0) (do
    need out "tensor_requires_grad: output pointer is null"
    object ← lookup_training_tensor tensor
    on_tensors (on_loaded requires_grad_flag object out))

  -- `ts_tensor_set_requires_grad`
  unfoldable pub ts_tensor_set_requires_grad : ℕ → ℕ → Exposed F D G (Unit {0})
  unfolding lookup_training_tensor set_requires_grad
  ts_tensor_set_requires_grad tensor requires = exposed "tensor_set_requires_grad" none (do
    object ← lookup_training_tensor tensor
    on_tensors (set_requires_grad object (not (requires == 0))))

module _ {F D G : Type 0} ⦃fl : Float32 F⦄ where
  -- `ts_manual_seed`
  unfoldable pub ts_manual_seed : ⦃rg : Random F G⦄ → ℕ → Exposed F D G (Unit {0})
  unfolding manual_seed
  ts_manual_seed seed = exposed "manual_seed" none (manual_seed seed)

  -- `ts_tensor_clone_detached`
  unfoldable pub ts_tensor_clone_detached : ℕ → Output → Exposed F D G ℕ
  unfolding run_training_unary clone_detached_checked
  ts_tensor_clone_detached tensor out =
      exposed "tensor_clone_detached" (reset out 0)
        (run_training_unary tensor out (on_loaded clone_detached_checked))

  -- `ts_tensor_assign_many`
  unfoldable pub ts_tensor_assign_many :
      Option (ℕ → ℕ) → Option (ℕ → ℕ) → ℕ → Exposed F D G (Unit {0})
  unfolding assign_many
  ts_tensor_assign_many targets sources count =
      exposed "tensor_assign_many" none (on_world (assign_many targets sources count))

  -- `ts_tensor_with_requires_grad`
  unfoldable pub ts_tensor_with_requires_grad : ℕ → ℕ → Output → Exposed F D G ℕ
  unfolding run_training_unary with_requires_grad
  ts_tensor_with_requires_grad tensor requires out =
      exposed "tensor_with_requires_grad" (reset out 0) (
        run_training_unary tensor out (on_loaded (λ t. with_requires_grad t (not (requires == 0)))))

  -- `ts_tensor_backward`
  unfoldable pub ts_tensor_backward : ℕ → Exposed F D G (Unit {0})
  unfolding lookup_training_tensor backward
  ts_tensor_backward tensor =
      exposed "tensor_backward" none
        (do object ← lookup_training_tensor tensor; on_tensors (backward object))

  -- `ts_tensor_grad`
  unfoldable pub ts_tensor_grad : ℕ → Output → Exposed F D G ℕ
  unfolding run_training_unary gradient
  ts_tensor_grad tensor out =
      exposed "tensor_grad" (reset out 0) (run_training_unary tensor out (on_loaded gradient))

  -- `ts_tensor_relu`
  unfoldable pub ts_tensor_relu : ℕ → Output → Exposed F D G ℕ
  unfolding run_training_unary relu
  ts_tensor_relu tensor out =
      exposed "tensor_relu" (reset out 0) (run_training_unary tensor out relu)

  -- `ts_tensor_sigmoid`
  unfoldable pub ts_tensor_sigmoid : ℕ → Output → Exposed F D G ℕ
  unfolding run_training_unary sigmoid_of
  ts_tensor_sigmoid tensor out =
      exposed "tensor_sigmoid" (reset out 0) (run_training_unary tensor out sigmoid_of)

  -- `ts_tensor_tanh`
  unfoldable pub ts_tensor_tanh : ℕ → Output → Exposed F D G ℕ
  unfolding run_training_unary tanh_of
  ts_tensor_tanh tensor out =
      exposed "tensor_tanh" (reset out 0) (run_training_unary tensor out tanh_of)

  -- `ts_tensor_gelu`
  unfoldable pub ts_tensor_gelu : ℕ → Output → Exposed F D G ℕ
  unfolding run_training_unary gelu
  ts_tensor_gelu tensor out =
      exposed "tensor_gelu" (reset out 0) (run_training_unary tensor out gelu)

  -- `ts_tensor_silu`
  unfoldable pub ts_tensor_silu : ℕ → Output → Exposed F D G ℕ
  unfolding run_training_unary silu
  ts_tensor_silu tensor out =
      exposed "tensor_silu" (reset out 0) (run_training_unary tensor out silu)

  -- `ts_tensor_swiglu`
  unfoldable pub ts_tensor_swiglu : ℕ → Output → Exposed F D G ℕ
  unfolding run_training_unary swiglu
  ts_tensor_swiglu tensor out =
      exposed "tensor_swiglu" (reset out 0) (run_training_unary tensor out swiglu)

module _ {F D G : Type 0} ⦃fl : Float32 F⦄ ⦃fd : Float64 F D⦄ where
  -- `ts_mse_loss`
  unfoldable pub ts_mse_loss : ℕ → ℕ → Output → Exposed F D G ℕ
  unfolding run_training_binary mse_loss
  ts_mse_loss prediction target out =
      exposed "mse_loss" (reset out 0) (run_training_binary prediction target out (mse_loss D))

  -- `ts_cross_entropy_loss`
  unfoldable pub ts_cross_entropy_loss : ℕ → ℕ → Output → Exposed F D G ℕ
  unfolding run_training_binary cross_entropy_loss
  ts_cross_entropy_loss logits one_hot_target out =
      exposed "cross_entropy_loss" (reset out 0)
        (run_training_binary logits one_hot_target out (cross_entropy_loss D))
