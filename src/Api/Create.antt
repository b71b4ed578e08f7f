-- ===== src/Api/Create.antt =====
-- native/src/c_api.cc: tensors from the caller's data, references to them, and the runtime's counts.
use Prim.Native.String.{String}
use tensora.Core.Guard.{returns}
use tensora.Core.Abi.{Reply, abi_reply}
use tensora.Core.Status.{Status, ok, fail_argument}
use tensora.Float.{Float32}
use tensora.Shape.{validate_shape}
use tensora.Storage.{is_null}
use tensora.Tensor.{cpu, cuda}
use tensora.Memory.{default_shape}
use tensora.Registry.Entries.{tensor_handle}
use tensora.Registry.{Registry, retain, release, count}
use tensora.Steps.{Output, to_caller, ◌>>=◌, ◌>>◌, return, check, from_status, need}
use tensora.Runtime.{device_from_code, backend_for, same_device, device_code}
use tensora.Backend.Cpu.{from_data_f32, full}
use tensora.Api.{World, on_heap, reset, Exported, exported, insert_tensor}
use tensora.Prelude.{ℕ, ◌==◌, not, ◌&&◌, Option, none, some, ltb, ℤ, if◌then◌else◌}

-- `ts_noop`
pub ts_noop : Reply
ts_noop = abi_reply "noop" (returns ok)

module _ {F : Type 0} where
  -- `ts_runtime_device_count`, without an accelerator.
  unfoldable pub ts_runtime_device_count : ℕ → Output → Exported F ℕ
  unfolding device_from_code
  ts_runtime_device_count device out = exported "runtime_device_count" (reset out 0) (do
    need out "runtime_device_count: output pointer is null"
    target ← from_status (device_from_code device to_caller)
    if same_device target cpu then return 1 else return 0)

  -- `ts_runtime_cuda_device_count`
  unfoldable pub ts_runtime_cuda_device_count : Output → Exported F ℕ
  unfolding ts_runtime_device_count
  ts_runtime_cuda_device_count = ts_runtime_device_count (device_code cuda)

  abbrev referenced : World F → String → Status × Registry ℕ → Reply × World F
  referenced w operation (s, r) = (abi_reply operation (returns s), record w { registry = r })

  -- `ts_tensor_retain`
  unfoldable pub ts_tensor_retain : ℕ → World F → Reply × World F
  ts_tensor_retain tensor w = referenced w "tensor_retain" (retain tensor tensor_handle w.registry)

  -- `ts_tensor_release`
  unfoldable pub ts_tensor_release : ℕ → World F → Reply × World F
  ts_tensor_release tensor w =
      referenced w "tensor_release" (release tensor tensor_handle w.registry)

  -- `ts_runtime_live_tensor_count`
  unfoldable pub ts_runtime_live_tensor_count : Output → Exported F ℕ
  ts_runtime_live_tensor_count out = exported "runtime_live_tensor_count" none (do
    need out "runtime_live_tensor_count: output pointer is null"
    λ w. return (count tensor_handle w.registry) w)

module _ {F : Type 0} ⦃fl : Float32 F⦄ where
  -- `ts_tensor_from_f32`
  unfoldable pub ts_tensor_from_f32 :
      Option (ℕ → F) → ℕ → Option (ℕ → ℤ) → ℕ → Output → Exported F ℕ
  unfolding backend_for insert_tensor
  ts_tensor_from_f32 values data_length dims rank out = exported "tensor_from_f32" (reset out 0) (do
    need out "tensor_from_f32: output handle pointer is null"
    shape ← from_status (validate_shape dims rank (some default_shape))
    check (shape.numel == data_length)
        (fail_argument "tensor_from_f32: data length must equal validated shape element count")
    check (not (ltb 0 data_length && is_null values))
        (fail_argument "tensor_from_f32: input data pointer is null")
    backend ← from_status (backend_for cpu to_caller)
    tensor ← on_heap (from_data_f32 shape values to_caller)
    insert_tensor tensor)

  -- `ts_tensor_full_f32`
  unfoldable pub ts_tensor_full_f32 : Option (ℕ → ℤ) → ℕ → F → Output → Exported F ℕ
  unfolding backend_for insert_tensor
  ts_tensor_full_f32 dims rank value out = exported "tensor_full_f32" (reset out 0) (do
    need out "tensor_full_f32: output handle pointer is null"
    shape ← from_status (validate_shape dims rank (some default_shape))
    backend ← from_status (backend_for cpu to_caller)
    tensor ← on_heap (full shape value to_caller)
    insert_tensor tensor)
