-- ===== src/TrainingApi/Optimizers.antt =====
-- native/src/training/training_c_api.cc: the functions on optimizers.
use tensora.Float.{Float32, Float64}
use tensora.Registry.Entries.{optimizer_handle, parameter_optimizer}
use tensora.Registry.{count}
use tensora.Steps.{Result, ◌>>◌, Output, need}
use tensora.Training.State.{adam, adamw}
use tensora.Training.Optimizer.{
  sgd_create, adam_create, optimizer_zero_grad, optimizer_step, optimizer_release,
}
use tensora.Training.ParameterOptimizers.{
  sgd_create_for_tensors, adam_create_for_tensors, zero_grad, parameter_step, parameter_release,
}
use tensora.Api.{reset}
use tensora.TrainingApi.{Exposed, exposed}
use tensora.Prelude.{ℕ, ◌+◌, ◌%◌, ◌^◌, Option, none}

module _ {F D G : Type 0} ⦃fl : Float32 F⦄ ⦃fd : Float64 F D⦄ where
  -- `ts_sgd_create`
  unfoldable pub ts_sgd_create : ℕ → D → D → D → Output → Exposed F D G ℕ
  unfolding sgd_create
  ts_sgd_create module_id learning_rate momentum weight_decay out =
      exposed "sgd_create" (reset out 0)
        (sgd_create module_id learning_rate momentum weight_decay out)

  -- `ts_adam_create`
  unfoldable pub ts_adam_create : ℕ → D → D → D → D → D → Output → Exposed F D G ℕ
  unfolding adam_create
  ts_adam_create module_id learning_rate beta1 beta2 epsilon weight_decay out =
      exposed "adam_create" (reset out 0)
        (adam_create adam module_id learning_rate beta1 beta2 epsilon weight_decay out)

  -- `ts_adamw_create`
  unfoldable pub ts_adamw_create : ℕ → D → D → D → D → D → Output → Exposed F D G ℕ
  unfolding adam_create
  ts_adamw_create module_id learning_rate beta1 beta2 epsilon weight_decay out =
      exposed "adamw_create" (reset out 0)
        (adam_create adamw module_id learning_rate beta1 beta2 epsilon weight_decay out)

  -- `ts_optimizer_step`
  unfoldable pub ts_optimizer_step : ℕ → Exposed F D G (Unit {0})
  unfolding optimizer_step
  ts_optimizer_step optimizer = exposed "optimizer_step" none (optimizer_step optimizer)

  -- `ts_sgd_create_for_tensors`
  unfoldable pub ts_sgd_create_for_tensors :
      Option (ℕ → ℕ) → ℕ → D → D → D → Output → Exposed F D G ℕ
  unfolding sgd_create_for_tensors
  ts_sgd_create_for_tensors parameters tensor_count learning_rate momentum weight_decay out =
      exposed "sgd_create_for_tensors" (reset out 0)
        (sgd_create_for_tensors parameters tensor_count learning_rate momentum weight_decay out)

  -- `ts_adam_create_for_tensors`
  unfoldable pub ts_adam_create_for_tensors :
      Option (ℕ → ℕ) → ℕ → D → D → D → D → D → Output → Exposed F D G ℕ
  unfolding adam_create_for_tensors
  ts_adam_create_for_tensors ps tensor_count learning_rate beta1 beta2 epsilon weight_decay out =
      exposed "adam_create_for_tensors" (reset out 0) (
        adam_create_for_tensors adam "adam_create_for_tensors" ps tensor_count learning_rate beta1
          beta2 epsilon weight_decay out)

  -- `ts_adamw_create_for_tensors`
  unfoldable pub ts_adamw_create_for_tensors :
      Option (ℕ → ℕ) → ℕ → D → D → D → D → D → Output → Exposed F D G ℕ
  unfolding adam_create_for_tensors
  ts_adamw_create_for_tensors ps tensor_count learning_rate beta1 beta2 epsilon weight_decay out =
      exposed "adamw_create_for_tensors" (reset out 0) (
        adam_create_for_tensors adamw "adamw_create_for_tensors" ps tensor_count learning_rate beta1
          beta2 epsilon weight_decay out)

  -- `ts_parameter_optimizer_step`
  unfoldable pub ts_parameter_optimizer_step : ℕ → Exposed F D G (Unit {0})
  unfolding parameter_step
  ts_parameter_optimizer_step optimizer =
      exposed "parameter_optimizer_step" none (parameter_step optimizer)

  -- `ts_optimizer_zero_grad`
  unfoldable pub ts_optimizer_zero_grad : ℕ → Exposed F D G (Unit {0})
  unfolding optimizer_zero_grad
  ts_optimizer_zero_grad optimizer =
      exposed "optimizer_zero_grad" none (optimizer_zero_grad optimizer)

  -- `ts_optimizer_release`
  unfoldable pub ts_optimizer_release : ℕ → Exposed F D G (Unit {0})
  unfolding optimizer_release
  ts_optimizer_release optimizer = exposed "optimizer_release" none (optimizer_release optimizer)

module _ {F D G : Type 0} where
  -- `ts_parameter_optimizer_zero_grad`
  unfoldable pub ts_parameter_optimizer_zero_grad : ℕ → Exposed F D G (Unit {0})
  unfolding zero_grad
  ts_parameter_optimizer_zero_grad optimizer =
      exposed "parameter_optimizer_zero_grad" none (zero_grad optimizer)

  -- `ts_parameter_optimizer_release`
  unfoldable pub ts_parameter_optimizer_release : ℕ → Exposed F D G (Unit {0})
  unfolding parameter_release
  ts_parameter_optimizer_release optimizer =
      exposed "parameter_optimizer_release" none (parameter_release optimizer)

  -- `ts_runtime_live_optimizer_count`
  unfoldable pub ts_runtime_live_optimizer_count : Output → Exposed F D G ℕ
  ts_runtime_live_optimizer_count out = exposed "runtime_live_optimizer_count" none (do
    need out "runtime_live_optimizer_count: output pointer is null"
    λ p. (
      Result.done (
          (count optimizer_handle p.world.registry + count parameter_optimizer p.world.registry)
          % 2 ^ 64),
      p,
    ))
