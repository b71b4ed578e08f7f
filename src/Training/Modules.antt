-- ===== src/Training/Modules.antt =====
-- native/src/training/training_bridge_stub.cc: the queries and settings of a module.
pub mod Indices
use tensora.Core.Status.{fail_argument}
use tensora.Tensor.{Device, is_cpu}
use tensora.Registry.Entries.{module_handle}
use tensora.Registry.{release}
use tensora.Steps.{check, return, fail, from_status, undefined_unless, Output, ◌>>=◌, ◌>>◌, need}
use tensora.Training.State.{Train, lookup_module, store_module}
use tensora.Training.Transfer.{unsupported_device, is_negative}
use tensora.Prelude.{ℕ, ◌==◌, not, ◌&&◌, Bool, some, ℤ, pos, eq_ℤ, if◌then◌else◌}

module _ {F D G : Type 0} where
  -- `ModuleSetTraining`
  unfoldable pub module_set_training : ℕ → Bool → Train F D G (Unit {0})
  unfolding lookup_module
  module_set_training module_id training = do
    (a, s) ← lookup_module module_id
    store_module a (record s { training = training })

  -- `ModuleToDevice`: the module stays where it is.
  unfoldable pub module_to_device : ℕ → Device → ℤ → Train F D G (Unit {0})
  unfolding lookup_module
  module_to_device module_id device device_index = do
    (a, s) ← lookup_module module_id
    check (not (is_negative device_index))
        (fail_argument "module_to_device: device index must be non-negative")
    check (is_cpu device) (unsupported_device "module_to_device")
    check (eq_ℤ device_index (pos 0))
        (fail_argument "module_to_device: CPU device index must be zero")

  -- `ModuleParameterCount`
  unfoldable pub module_parameter_count : ℕ → Output → Train F D G ℕ
  unfolding lookup_module
  module_parameter_count module_id out = do
    need out "module_parameter_count: output pointer is null"
    (a, s) ← lookup_module module_id
    return (if s.use_bias then 2 else 1)

  -- `ModuleParameterAt`
  unfoldable pub module_parameter_at : ℕ → ℕ → Output → Train F D G ℕ
  unfolding lookup_module
  module_parameter_at module_id index out = do
    need out "module_parameter_at: output pointer is null"
    (a, s) ← lookup_module module_id
    if index == 0
        then return s.weight
        else if index == 1 && s.use_bias
        then undefined_unless s.bias
        else fail (fail_argument "module_parameter_at: parameter index is out of range")

  -- `ModuleBufferCount`
  unfoldable pub module_buffer_count : ℕ → Output → Train F D G ℕ
  unfolding lookup_module
  module_buffer_count module_id out = do
    need out "module_buffer_count: output pointer is null"
    (a, s) ← lookup_module module_id
    return 0

  -- `ModuleBufferAt`
  unfoldable pub module_buffer_at : ℕ → ℕ → Output → Train F D G ℕ
  unfolding lookup_module
  module_buffer_at module_id index out = do
    need out "module_buffer_at: output pointer is null"
    (a, s) ← lookup_module module_id
    fail (fail_argument "module_buffer_at: module has no buffers")

  -- `ModuleRelease`
  unfoldable pub module_release : ℕ → Train F D G (Unit {0})
  module_release module_id p =
      let (s, r) = release module_id module_handle p.world.registry in
      from_status (s, some tt) (record p { world = record p.world { registry = r } })
