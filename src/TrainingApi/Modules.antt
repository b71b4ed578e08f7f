-- ===== src/TrainingApi/Modules.antt =====
-- native/src/training/training_c_api.cc: the functions on modules.
use tensora.Core.Status.{fail_argument}
use tensora.Float.{Float32}
use tensora.Registry.Entries.{module_handle}
use tensora.Registry.{count}
use tensora.Runtime.{device_from_code}
use tensora.Steps.{Result, ◌>>=◌, ◌>>◌, Output, to_caller, need, fail, from_status}
use tensora.Training.State.{Train, Random, FileName}
use tensora.Training.Bytes.{FloatBits}
use tensora.Training.Linear.{linear_create, module_forward}
use tensora.Training.Modules.{
  module_set_training, module_to_device, module_parameter_count, module_parameter_at,
  module_buffer_count, module_buffer_at, module_release,
}
use tensora.Training.Checkpoint.{module_save, module_load}
use tensora.Api.{reset}
use tensora.TrainingApi.{
  Exposed, exposed, lookup_training_tensor, insert_training_tensor,
  fetch_and_insert_training_tensor,
}
use tensora.Prelude.{ℕ, ◌==◌, not, Option, none, some, ℤ}

module _ {F D G : Type 0} ⦃fl : Float32 F⦄ where
  -- `ts_linear_create`
  unfoldable pub ts_linear_create : ⦃rg : Random F G⦄ → ℤ → ℤ → ℕ → Output → Exposed F D G ℕ
  unfolding linear_create
  ts_linear_create in_features out_features use_bias out = exposed "linear_create" (reset out 0) (do
    need out "linear_create: output handle pointer is null"
    linear_create in_features out_features (not (use_bias == 0)) out)

  -- `ts_module_forward`
  unfoldable pub ts_module_forward : ℕ → ℕ → Output → Exposed F D G ℕ
  unfolding lookup_training_tensor insert_training_tensor module_forward
  ts_module_forward module_id input out = exposed "module_forward" (reset out 0) (do
    need out "module_forward: output handle pointer is null"
    input_object ← lookup_training_tensor input
    result ← module_forward module_id input_object to_caller
    insert_training_tensor result out)

module _ {F D G : Type 0} where
  -- `ts_module_set_training`
  unfoldable pub ts_module_set_training : ℕ → ℕ → Exposed F D G (Unit {0})
  unfolding module_set_training
  ts_module_set_training module_id training =
      exposed "module_set_training" none (module_set_training module_id (not (training == 0)))

  -- `ts_module_to_device`
  unfoldable pub ts_module_to_device : ℕ → ℕ → ℤ → Exposed F D G (Unit {0})
  unfolding device_from_code module_to_device
  ts_module_to_device module_id device device_index = exposed "module_to_device" none (do
    target ← from_status (device_from_code device to_caller)
    module_to_device module_id target device_index)

  -- `ts_module_parameter_count`
  unfoldable pub ts_module_parameter_count : ℕ → Output → Exposed F D G ℕ
  unfolding module_parameter_count
  ts_module_parameter_count module_id out =
      exposed "module_parameter_count" (reset out 0) (module_parameter_count module_id out)

  -- `ts_module_parameter_at`
  unfoldable pub ts_module_parameter_at : ℕ → ℕ → Output → Exposed F D G ℕ
  unfolding fetch_and_insert_training_tensor module_parameter_at
  ts_module_parameter_at module_id index out = exposed "module_parameter_at" (reset out 0) (
      fetch_and_insert_training_tensor out "module_parameter_at"
        (module_parameter_at module_id index))

  -- `ts_module_buffer_count`
  unfoldable pub ts_module_buffer_count : ℕ → Output → Exposed F D G ℕ
  unfolding module_buffer_count
  ts_module_buffer_count module_id out =
      exposed "module_buffer_count" (reset out 0) (module_buffer_count module_id out)

  -- `ts_module_buffer_at`
  unfoldable pub ts_module_buffer_at : ℕ → ℕ → Output → Exposed F D G ℕ
  unfolding fetch_and_insert_training_tensor module_buffer_at
  ts_module_buffer_at module_id index out =
      exposed "module_buffer_at" (reset out 0)
        (fetch_and_insert_training_tensor out "module_buffer_at" (module_buffer_at module_id index))

  -- `ts_module_release`
  unfoldable pub ts_module_release : ℕ → Exposed F D G (Unit {0})
  unfolding module_release
  ts_module_release module_id = exposed "module_release" none (module_release module_id)

  -- `ts_runtime_live_module_count`
  unfoldable pub ts_runtime_live_module_count : Output → Exposed F D G ℕ
  ts_runtime_live_module_count out = exposed "runtime_live_module_count" none (do
    need out "runtime_live_module_count: output pointer is null"
    λ p. (Result.done (count module_handle p.world.registry), p))

module _ {F D G : Type 0} ⦃bits : FloatBits F⦄ where
  save_to : ℕ → Option FileName → Train F D G (Unit {0})
  unfolding module_save
  save_to module_id none = fail (fail_argument "module_save: path pointer is null")
  save_to module_id (some path) = module_save module_id path

  -- `ts_module_save`
  unfoldable pub ts_module_save : ℕ → Option FileName → Exposed F D G (Unit {0})
  unfolding save_to
  ts_module_save module_id path = exposed "module_save" none (save_to module_id path)

  load_from : ℕ → Option FileName → Train F D G (Unit {0})
  unfolding module_load
  load_from module_id none = fail (fail_argument "module_load: path pointer is null")
  load_from module_id (some path) = module_load module_id path

  -- `ts_module_load`
  unfoldable pub ts_module_load : ℕ → Option FileName → Exposed F D G (Unit {0})
  unfolding load_from
  ts_module_load module_id path = exposed "module_load" none (load_from module_id path)
