-- ===== src/Tests/Torch.antt =====
-- Runs of the model of native/src/training/torch_backend.cc, over lists in place of libtorch's tensors.
use tensora.Core.Status.{ok}
use tensora.Tensor.{hip, Tensor}
use tensora.Shape.{validate_shape, scan}
use tensora.Steps.{Result, to_caller}
use tensora.Torch.Devices.{
  torch_cuda, torch_hip, torch_cpu, TorchDevice, torch_device_from_snapshot, map_torch_device,
}
use tensora.Torch.Mapping.{map_torch_device-torch_device_from_snapshot}
use tensora.Torch.Library.{Torch, computed, float32_scalar, TorchHost}
use tensora.Torch.Backend.{wrap_torch_tensor, tensor_to_torch}
use tensora.Torch.Wrapping.{tensor_to_torch-wrap_torch_tensor}
use tensora.Tests.Kernels.{counting}
use tensora.Prelude.{
  ℕ, ◌+◌, ◌≡◌, refl, true, none, some, List, [], ◌∷◌, pos, negsuc, length, get_elem?, get_or,
}

-- The third device of two is refused, the second is a CUDA device of libtorch.
abbrev second_hip : TorchDevice
second_hip = record { type = torch_cuda; index = pos 1 }

second_found :
    torch_device_from_snapshot hip (pos 1) (some torch_hip) (pos 2) to_caller
    ≡ (ok, some second_hip)
unfolding torch_device_from_snapshot
second_found = refl

map_torch_device-torch_device_from_snapshot_example :
    map_torch_device torch_cuda (pos 1) (some torch_hip) ≡ (ok, some (hip, pos 1))
map_torch_device-torch_device_from_snapshot_example =
    map_torch_device-torch_device_from_snapshot hip (pos 1) (some torch_hip) (pos 2) second_hip
      second_found

-- A tensor is its values, of rank 1.
abbrev pub lists : Torch ℕ (List ℕ) ℕ
lists = record {
  get_accelerator = λ r. (computed none, r + 1);
  device_count = λ r. (computed (pos 0), r + 1);
  defined = λ x. true;
  scalar_type = λ x. float32_scalar;
  numel = λ x. pos (length x);
  sizes = λ x. pos (length x) ∷ [];
  device = λ x r. record { type = torch_cpu; index = negsuc 0 };
  to_host = λ x r.
      computed (record {
        scalar_type = float32_scalar;
        numel = pos (length x);
        values = λ i. get_or x i 0;
      });
  from_blob_clone = λ values dims r. (computed [], r + 1);
  full = λ dims value r. (computed (value ∷ []), r + 1);
  reshape_clone = λ x dims r. (computed x, r + 1);
  transpose_contiguous = λ x r. (computed x, r + 1);
  add = λ x y r. (computed x, r + 1);
  multiply = λ x y r. (computed x, r + 1);
  sum = λ x r. (computed (0 ∷ []), r + 1);
  matmul = λ x y r. (computed x, r + 1);
}

abbrev pub empty_host : TorchHost ℕ (List ℕ) ℕ
empty_host = record {
  heap = record {
    storages = [];
    counters = [];
    tensors = [];
    metas = [];
    next_identity = 1;
    requests = 0;
    allocator = λ requests bytes. none;
  };
  owned = [];
  live_bytes = 0;
  runtime = 0;
}

abbrev wrapped_host : TorchHost ℕ (List ℕ) ℕ
wrapped_host = (wrap_torch_tensor lists (5 ∷ 6 ∷ []) to_caller empty_host).1

wraps : wrap_torch_tensor lists (5 ∷ 6 ∷ []) to_caller empty_host ≡ (Result.done 0, wrapped_host)
unfolding wrap_torch_tensor validate_shape scan
wraps = refl

tensor_to_torch-wrap_torch_tensor_example :
    (t : Tensor) × (get_elem? wrapped_host.heap.tensors 0 ≡ some t)
    × (tensor_to_torch lists t to_caller wrapped_host ≡ (Result.done (5 ∷ 6 ∷ []), wrapped_host))
tensor_to_torch-wrap_torch_tensor_example =
    tensor_to_torch-wrap_torch_tensor lists (5 ∷ 6 ∷ []) empty_host 0 wrapped_host wraps
