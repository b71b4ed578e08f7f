-- ===== src/Torch/Backend.antt =====
-- native/src/training/torch_backend.cc: tensors go to libtorch and come back, and the operations.
use Prim.Native.String.{String}
use tensora.Core.Status.{is_ok, fail_argument, fail_shape, fail_internal, fail_unsupported}
use tensora.Float.{Float32}
use tensora.Shape.{ShapeInfo, same_shape}
use tensora.Storage.{Storage, torch_kind, cpu_kind, kind, copy_storage, is_null}
use tensora.Tensor.{Tensor, Device, float32, is_float32, is_cpu, is_count}
use tensora.Memory.{pointer_to, dimensions_pointer, validated}
use tensora.Heap.{load_storage, new_tensor}
use tensora.Steps.{
  Result, ◌>>=◌, ◌>>◌, return, check, undefined_unless, from_status, Output, null_out, to_caller,
  need,
}
use tensora.Backend.Cpu.{dimension}
use tensora.Torch.Devices.{
  TorchType, TorchDevice, is_negative, is_mps, device_count_from_snapshot,
  torch_device_from_snapshot, map_torch_device,
}
use tensora.Torch.Library.{
  Torch, Torched, is_float32_scalar, ask_torch, read_torch, on_heap_of, guard_allocation,
}
use tensora.Torch.Storage.{from_tensor}
use tensora.Prelude.{
  ℕ, ◌==◌, not, ◌&&◌, ◌||◌, Bool, true, false, Option, none, some, List, [], ◌∷◌, ℤ, pos, to_u64,
  eq_ℤ, ltb, length, replicate, if◌then◌else◌,
}

abbrev pub is_to_caller : Output → Bool
is_to_caller null_out = false
is_to_caller to_caller = true

-- `std::dynamic_pointer_cast<TorchStorage>`
unfoldable pub owned_tensor : {X : Type 0} → ℕ → List (ℕ × X) → Option X
owned_tensor number [] = none
owned_tensor number ((n, x) ∷ owned) = if n == number then some x else owned_tensor number owned

-- What a Torch storage owns.
torch_of : {F X R : Type 0} → ℕ → Torched F X R X
unfolding owned_tensor
torch_of number s = elim (owned_tensor number s.owned) [
  | none ↦ (Result.failed (fail_internal "tensor to torch: invalid Torch storage type"), s)
  | some x ↦ (Result.done x, s)
]

module _ {F X R : Type 0} (torch : Torch F X R) where
  open torch use {
    get_accelerator, device_count, defined, scalar_type, sizes, device, from_blob_clone, full,
    reshape_clone, transpose_contiguous, add, multiply, sum, matmul,
  }

  -- `CaptureAcceleratorSnapshot`
  unfoldable pub capture_accelerator_snapshot : String → Torched F X R (Option TorchType × ℤ)
  capture_accelerator_snapshot operation = do
    type ← ask_torch operation get_accelerator
    elim type [
      | none ↦ return (none, pos 0)
      | some t ↦ do count ← ask_torch operation device_count; return (some t, count)
    ]

  -- `DeviceCount`
  unfoldable pub torch_device_count : Device → Output → Torched F X R ℕ
  unfolding device_count_from_snapshot capture_accelerator_snapshot
  torch_device_count device out =
      if not (is_to_caller out) || is_cpu device
      then from_status (device_count_from_snapshot device none (pos 0) out)
      else (do
        (accelerator, count) ← capture_accelerator_snapshot "device_count"
        from_status (device_count_from_snapshot device accelerator count out))

  -- `TorchDevice`
  unfoldable pub torch_device : Device → ℤ → Output → Torched F X R TorchDevice
  unfolding torch_device_from_snapshot capture_accelerator_snapshot
  torch_device device device_index out =
      if not (is_to_caller out)
        || is_cpu device
        || is_negative device_index
        || is_mps device && not (eq_ℤ device_index (pos 0))
        || ltb 127 (to_u64 device_index)
      then from_status (torch_device_from_snapshot device device_index none (pos 0) out)
      else (do
        (accelerator, count) ← capture_accelerator_snapshot "torch device"
        from_status (torch_device_from_snapshot device device_index accelerator count out))

  -- A copy of the values of another storage.
  copied_to_torch : F → Tensor → Storage F → Torched F X R X
  unfolding copy_storage
  copied_to_torch zero t storage = do
    let numel = t.shape.numel
    let copied = copy_storage storage (some (replicate numel zero)) numel (some 0)
    check (is_ok copied.status) copied.status
    check (is_count numel copied.out_written)
        (fail_internal "tensor to torch: storage returned an inconsistent element count")
    values ← undefined_unless copied.out_values
    ask_torch "tensor to torch" (from_blob_clone (pointer_to zero values) t.shape.dimensions)

  -- `TensorToTorch`, with `EnsureFloat32`.
  unfoldable pub tensor_to_torch : ⦃fl : Float32 F⦄ → Tensor → Output → Torched F X R X
  unfolding kind torch_of copied_to_torch
  tensor_to_torch ⦃fl⦄ t out = do
    need out "tensor to torch: output pointer is null"
    check (is_float32 t.dtype) (fail_unsupported "tensor to torch: only float32 is supported")
    storage ← on_heap_of (load_storage t.storage)
    elim (kind storage) [
      | torch_kind ↦ torch_of t.storage
      | cpu_kind ↦ copied_to_torch fl.zero_f t storage
    ]

  -- `WrapTorchTensor`
  unfoldable pub wrap_torch_tensor : X → Output → Torched F X R ℕ
  unfolding map_torch_device from_tensor guard_allocation new_tensor
  wrap_torch_tensor value out = do
    need out "wrap torch tensor: output pointer is null"
    check (defined value) (fail_argument "wrap torch tensor: tensor is undefined")
    check (is_float32_scalar (scalar_type value))
        (fail_unsupported "wrap torch tensor: only float32 is supported")
    shape ← on_heap_of (validated (dimensions_pointer (sizes value)) (length (sizes value)))
    accelerator ← ask_torch "wrap torch tensor accelerator discovery" get_accelerator
    on ← read_torch (device value)
    (place, index) ← from_status (map_torch_device on.type on.index accelerator)
    storage ← from_tensor torch value to_caller
    guard_allocation "wrap torch tensor"
    on_heap_of (new_tensor shape storage float32 place index 0 none)

  -- `TorchBackend::FromData`
  unfoldable pub torch_from_data : ShapeInfo → Option (ℕ → F) → Output → Torched F X R ℕ
  unfolding wrap_torch_tensor
  torch_from_data shape values out = do
    check (not (ltb 0 shape.numel && is_null values))
        (fail_argument "torch from data: input pointer is null")
    value ← ask_torch "torch from data" (from_blob_clone values shape.dimensions)
    wrap_torch_tensor value out

  -- `TorchBackend::Full`
  unfoldable pub torch_full : ShapeInfo → F → Output → Torched F X R ℕ
  unfolding wrap_torch_tensor
  torch_full shape value out = do
    filled ← ask_torch "torch full" (full shape.dimensions value)
    wrap_torch_tensor filled out

  module _ ⦃fl : Float32 F⦄ where
    -- `TorchBackend::Reshape`
    unfoldable pub torch_reshape : Tensor → ShapeInfo → Output → Torched F X R ℕ
    unfolding tensor_to_torch wrap_torch_tensor
    torch_reshape t shape out = do
      check (t.shape.numel == shape.numel)
          (fail_shape "reshape: target shape must preserve element count")
      value ← tensor_to_torch t to_caller
      reshaped ← ask_torch "torch reshape" (reshape_clone value shape.dimensions)
      wrap_torch_tensor reshaped out

    -- `TorchBackend::Transpose2D`
    unfoldable pub torch_transpose2d : Tensor → Output → Torched F X R ℕ
    unfolding tensor_to_torch wrap_torch_tensor
    torch_transpose2d t out = do
      check (length t.shape.dimensions == 2) (fail_shape "transpose: requires a rank-2 tensor")
      value ← tensor_to_torch t to_caller
      transposed ← ask_torch "torch transpose" (transpose_contiguous value)
      wrap_torch_tensor transposed out

    -- `TorchBackend::Add`
    unfoldable pub torch_add : Tensor → Tensor → Output → Torched F X R ℕ
    unfolding tensor_to_torch wrap_torch_tensor
    torch_add left right out = do
      check (same_shape left.shape right.shape) (fail_shape "add: input shapes must match")
      a ← tensor_to_torch left to_caller
      b ← tensor_to_torch right to_caller
      value ← ask_torch "torch add" (add a b)
      wrap_torch_tensor value out

    -- `TorchBackend::Multiply`
    unfoldable pub torch_multiply : Tensor → Tensor → Output → Torched F X R ℕ
    unfolding tensor_to_torch wrap_torch_tensor
    torch_multiply left right out = do
      check (same_shape left.shape right.shape) (fail_shape "multiply: input shapes must match")
      a ← tensor_to_torch left to_caller
      b ← tensor_to_torch right to_caller
      value ← ask_torch "torch multiply" (multiply a b)
      wrap_torch_tensor value out

    -- `TorchBackend::Sum`
    unfoldable pub torch_sum : Tensor → Output → Torched F X R ℕ
    unfolding tensor_to_torch wrap_torch_tensor
    torch_sum t out = do
      value ← tensor_to_torch t to_caller
      total ← ask_torch "torch sum" (sum value)
      wrap_torch_tensor total out

    -- `TorchBackend::Matmul`
    unfoldable pub torch_matmul : Tensor → Tensor → Output → Torched F X R ℕ
    unfolding tensor_to_torch wrap_torch_tensor
    torch_matmul left right out = do
      check (length left.shape.dimensions == 2 && length right.shape.dimensions == 2)
          (fail_shape "matmul: requires rank-2 tensors")
      check (eq_ℤ (dimension left 1) (dimension right 0))
          (fail_shape "matmul: inner dimensions must match")
      a ← tensor_to_torch left to_caller
      b ← tensor_to_torch right to_caller
      value ← ask_torch "torch matmul" (matmul a b)
      wrap_torch_tensor value out
