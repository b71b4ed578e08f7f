-- ===== src/Torch/Devices.antt =====
-- native/src/training/torch_backend.cc: devices of tensora and of libtorch.
use tensora.Core.Status.{Status, ok, is_ok, fail_argument, fail_internal, fail_unsupported}
use tensora.Tensor.{Device, cpu, cuda, mps, xpu, hip, is_cpu}
use tensora.Steps.{Output, null_out, to_caller}
use tensora.Prelude.{
  ℕ, not, ◌&&◌, Bool, true, false, Option, none, some, ℤ, pos, negsuc, to_u64, eq_ℤ, ltb,
  if◌then◌else◌,
}

-- `c10::DeviceType`
pub data TorchType : Type 0 where
  torch_cpu torch_cuda torch_mps torch_xpu torch_hip : TorchType
  other_type : ℕ → TorchType

-- `torch::Device`, whose index is -1 where none is given.
pub record TorchDevice : Type 0 where
  pub type : TorchType
  pub index : ℤ

abbrev pub is_negative : ℤ → Bool
is_negative (pos n) = false
is_negative (negsuc n) = true

abbrev pub is_mps : Device → Bool
is_mps mps = true
is_mps _ = false

-- `MatchesAccelerator`
unfoldable pub matches_accelerator : Device → TorchType → Bool
matches_accelerator cuda torch_cuda = true
matches_accelerator mps torch_mps = true
matches_accelerator xpu torch_xpu = true
matches_accelerator hip torch_hip = true
matches_accelerator device type = false

abbrev is_matched : Device → Option TorchType → Bool
is_matched device none = false
is_matched device (some type) = matches_accelerator device type

-- `DeviceCountFromSnapshot`: the status, and what is in the place of the output pointer.
unfoldable pub device_count_from_snapshot :
    Device → Option TorchType → ℤ → Output → Status × Option ℕ
unfolding matches_accelerator
device_count_from_snapshot device accelerator accelerator_count null_out =
    (fail_argument "device_count: output pointer is null", none)
device_count_from_snapshot device accelerator accelerator_count to_caller =
    if is_cpu device
    then (ok, some 1)
    else if not (is_matched device accelerator)
    then (ok, some 0)
    else if is_negative accelerator_count
    then (fail_internal "device_count: accelerator returned a negative count", some 0)
    else (ok, some (to_u64 accelerator_count))

-- The device of libtorch for an accelerator: libtorch has ROCm devices as CUDA ones.
unfoldable pub accelerator_device : Device → ℤ → TorchDevice
accelerator_device cuda index = record { type = torch_cuda; index = index }
accelerator_device mps index = record { type = torch_mps; index = negsuc 0 }
accelerator_device xpu index = record { type = torch_xpu; index = index }
accelerator_device device index = record { type = torch_cuda; index = index }

-- The count in the place of an output pointer that was given.
abbrev count_of : Option ℕ → ℕ
count_of none = 0
count_of (some n) = n

-- `TorchDeviceFromSnapshot`. Its test for an unknown device is never true of a `Device` here.
unfoldable pub torch_device_from_snapshot :
    Device → ℤ → Option TorchType → ℤ → Output → Status × Option TorchDevice
unfolding device_count_from_snapshot accelerator_device
torch_device_from_snapshot device device_index accelerator accelerator_count null_out =
    (fail_argument "torch device: output pointer is null", none)
torch_device_from_snapshot device device_index accelerator accelerator_count to_caller =
    let (status, count) =
      device_count_from_snapshot device accelerator accelerator_count to_caller in
    if is_cpu device
    then (if not (eq_ℤ device_index (pos 0))
        then (fail_argument "torch device: CPU device index must be zero", none)
        else (ok, some (record { type = torch_cpu; index = negsuc 0 })))
    else if is_negative device_index
    then (fail_argument "torch device: accelerator index cannot be negative", none)
    else if is_mps device && not (eq_ℤ device_index (pos 0))
    then (fail_argument "torch device: MPS device index must be zero", none)
    else if ltb 127 (to_u64 device_index)
    then (fail_argument "torch device: accelerator index exceeds LibTorch range", none)
    else if not (is_ok status)
    then (status, none)
    else if not (ltb (to_u64 device_index) (count_of count))
    then (fail_unsupported "torch device: requested accelerator is not available", none)
    else (ok, some (accelerator_device device device_index))

abbrev pub both_given : Output → Output → Bool
both_given to_caller to_caller = true
both_given _ _ = false

-- What CUDA devices of libtorch are, by the accelerator.
unfoldable pub cuda_or_hip : Option TorchType → Device
cuda_or_hip (some torch_hip) = hip
cuda_or_hip accelerator = cuda

abbrev indexed : Device → ℤ → Status × Option (Device × ℤ)
indexed device index =
    if is_negative index
    then (fail_internal "wrap torch tensor: accelerator has no device index", some (cpu, pos 0))
    else (ok, some (device, index))

-- `MapTorchDevice`, with its output pointers given: the status, and the device and index that are
-- stored.
unfoldable pub map_torch_device : TorchType → ℤ → Option TorchType → Status × Option (Device × ℤ)
unfolding cuda_or_hip
map_torch_device torch_cpu index accelerator = (ok, some (cpu, pos 0))
map_torch_device torch_mps index accelerator = (ok, some (mps, pos 0))
map_torch_device torch_xpu index accelerator = indexed xpu index
map_torch_device torch_hip index accelerator = indexed hip index
map_torch_device torch_cuda index accelerator = indexed (cuda_or_hip accelerator) index
map_torch_device (other_type n) index accelerator =
    (fail_unsupported "wrap torch tensor: unsupported Torch device", some (cpu, pos 0))
