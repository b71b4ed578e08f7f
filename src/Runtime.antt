-- ===== src/Runtime.antt =====
-- native/src/runtime/dispatcher.cc and device_codec.cc, built without Torch: the choice of a backend
-- and the device codes of the C interface.
pub mod Devices
use tensora.Core.Status.{Status, ok, fail_argument, fail_unsupported}
use tensora.Tensor.{Tensor, Device, cpu, cuda, mps, xpu, hip}
use tensora.Steps.{Output, null_out, to_caller}
use tensora.Prelude.{ℕ, not, ◌&&◌, Bool, Option, none, some, eq_ℤ, ◌==◌, if◌then◌else◌}

-- The backends of this build.
pub data BackendChoice : Type 0 where
  cpu_backend : BackendChoice

-- The codes `TS_DEVICE_CPU` to `TS_DEVICE_HIP`, which are the enumerators of `Device`.
abbrev pub device_code : Device → ℕ
device_code cpu = 1
device_code cuda = 2
device_code mps = 3
device_code xpu = 4
device_code hip = 5

abbrev pub same_device : Device → Device → Bool
same_device a b = device_code a == device_code b

-- `DeviceFromCode`: the status, and what is stored.
unfoldable pub device_from_code : ℕ → Output → Status × Option Device
device_from_code code null_out = (fail_argument "device: output pointer is null", none)
device_from_code code to_caller =
    if code == 1
    then (ok, some cpu)
    else if code == 2
    then (ok, some cuda)
    else if code == 3
    then (ok, some mps)
    else if code == 4
    then (ok, some xpu)
    else if code == 5
    then (ok, some hip)
    else (fail_unsupported "device: unknown device kind", none)

-- `Dispatcher::For`
unfoldable pub backend_for : Device → Output → Status × Option BackendChoice
backend_for device null_out = (fail_argument "dispatcher: output backend pointer is null", none)
backend_for cpu to_caller = (ok, some cpu_backend)
backend_for device to_caller =
    (fail_unsupported "dispatcher: requested device is not supported", none)

-- `Dispatcher::ForTensor`
unfoldable pub backend_for_tensor : Tensor → Output → Status × Option BackendChoice
unfolding backend_for
backend_for_tensor t null_out = (fail_argument "dispatcher: output backend pointer is null", none)
backend_for_tensor t to_caller = backend_for t.device to_caller

-- `Dispatcher::ForTensors`
unfoldable pub backend_for_tensors : Tensor → Tensor → Output → Status × Option BackendChoice
unfolding backend_for
backend_for_tensors l r null_out =
    (fail_argument "dispatcher: output backend pointer is null", none)
backend_for_tensors l r to_caller =
    if not (same_device l.device r.device && eq_ℤ l.device_index r.device_index)
    then (fail_argument "dispatcher: input tensors must use the same device", none)
    else backend_for l.device to_caller
