-- ===== src/Training/Transfer.antt =====
-- native/src/training/training_bridge_stub.cc: moving a tensor to a device, and the functions that
-- pass a call on to autograd.
use Prim.Native.String.{String, ◌++◌}
use tensora.Core.Status.{Status, fail_argument, fail_unsupported}
use tensora.Float.{Float32}
use tensora.Tensor.{Tensor, Device, is_cpu, cpu, cuda}
use tensora.Runtime.{same_device}
use tensora.Heap.{M, op_identity, load_tensor}
use tensora.Steps.{Steps, check, return, Output, ◌>>=◌, ◌>>◌, need}
use tensora.Autograd.Values.{clone_detached, clone_as_leaf}
use tensora.Autograd.Values
use tensora.Autograd.Graph.{record_unary}
use tensora.Autograd.Backward.{gradient_snapshot}
use tensora.Prelude.{ℕ, not, Bool, true, false, ℤ, pos, negsuc, eq_ℤ, if◌then◌else◌}

-- `UnsupportedDevice`
abbrev pub unsupported_device : String → Status
unsupported_device operation =
    fail_unsupported
      (operation ++ ": requested accelerator is not available in the core-only build")

-- `device_index < 0`
abbrev pub is_negative : ℤ → Bool
is_negative (pos n) = false
is_negative (negsuc n) = true

-- `IsAvailable`
unfoldable pub is_available : {S : Type 0} → Output → Steps S ℕ
is_available out = do need out "training_available: output pointer is null"; return 1

-- `DeviceCount`
unfoldable pub device_count : {S : Type 0} → Device → Output → Steps S ℕ
device_count device out = do
  need out "device_count: output pointer is null"
  return (if same_device device cpu then 1 else 0)

-- `CudaDeviceCount`
unfoldable pub cuda_device_count : {S : Type 0} → Output → Steps S ℕ
unfolding device_count
cuda_device_count = device_count cuda

module _ {F : Type 0} ⦃fl : Float32 F⦄ where
  -- `Transfer`
  unfoldable pub transfer : ℕ → Device → ℤ → Output → M F ℕ
  unfolding clone_detached record_unary
  transfer tensor device device_index out = do
    need out "tensor_to_device: output tensor pointer is null"
    check (not (is_negative device_index))
        (fail_argument "tensor_to_device: device index must be non-negative")
    check (is_cpu device) (unsupported_device "tensor_to_device")
    check (eq_ℤ device_index (pos 0))
        (fail_argument "tensor_to_device: CPU device index must be zero")
    t ← load_tensor tensor
    copy ← clone_detached t out
    record_unary op_identity tensor copy
    return copy

  -- `WithRequiresGrad`
  unfoldable pub with_requires_grad : Tensor → Bool → Output → M F ℕ
  unfolding clone_as_leaf
  with_requires_grad t requires out = do
    need out "tensor_with_requires_grad: output tensor pointer is null"
    clone_as_leaf t requires out

  -- `Gradient`
  unfoldable pub gradient : Tensor → Output → M F ℕ
  unfolding gradient_snapshot
  gradient = gradient_snapshot

-- `RequiresGrad`
unfoldable pub requires_grad_flag : {F : Type 0} → Tensor → Output → M F ℕ
requires_grad_flag t out = do
  need out "tensor_requires_grad: output pointer is null"
  needs ← Values.requires_grad t
  return (if needs then 1 else 0)

-- `LiveStorageBytes`
abbrev pub live_storage_bytes : ℕ
live_storage_bytes = 0
