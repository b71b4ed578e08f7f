-- ===== src/Torch/Mapping.antt =====
-- native/src/training/torch_backend.cc: a device goes to libtorch and back.
use tensora.Core.Status.{ok}
use tensora.Tensor.{Device, cpu, cuda, mps, xpu, hip}
use tensora.Steps.{to_caller}
use tensora.Torch.Devices.{
  TorchType, torch_cuda, torch_mps, torch_xpu, torch_hip, TorchDevice, torch_device_from_snapshot,
  map_torch_device,
}
use tensora.Prelude.{zero, suc, ◌≡◌, Option, some, ℤ, pos, negsuc, arith}

-- What TorchDeviceFromSnapshot makes of a device and an index, for any accelerator and count, is
-- mapped back by MapTorchDevice to the same device and index.
pub map_torch_device-torch_device_from_snapshot :
    (device : Device) (index : ℤ) (accelerator : Option TorchType) (count : ℤ) (d : TorchDevice)
    → torch_device_from_snapshot device index accelerator count to_caller ≡ (ok, some d)
    → map_torch_device d.type d.index accelerator ≡ (ok, some (device, index))
unfolding torch_device_from_snapshot map_torch_device
map_torch_device-torch_device_from_snapshot cpu (pos zero) accelerator count d e = ground arith
map_torch_device-torch_device_from_snapshot cpu (pos (suc n)) accelerator count d e = ground arith
map_torch_device-torch_device_from_snapshot cpu (negsuc n) accelerator count d e = ground arith
map_torch_device-torch_device_from_snapshot cuda (pos n) (some torch_cuda) (pos c) d e =
    ground arith
map_torch_device-torch_device_from_snapshot hip (pos n) (some torch_hip) (pos c) d e = ground arith
map_torch_device-torch_device_from_snapshot xpu (pos n) (some torch_xpu) (pos c) d e = ground arith
map_torch_device-torch_device_from_snapshot mps (pos n) (some torch_mps) (pos c) d e = ground arith
map_torch_device-torch_device_from_snapshot device index accelerator count d e = ground arith
