-- ===== src/Torch/Storage.antt =====
-- native/src/training/torch_storage.h and torch_storage.cc: a storage that owns a tensor of libtorch.
use tensora.Core.Status.{
  Status, ok, is_ok, fail_argument, fail_internal, fail_unsupported, fail_memory,
}
use tensora.Storage.{Storage, Copied, torch_kind, byte_size, is_null, overwrite_at}
use tensora.Heap.{new_storage, load_storage}
use tensora.Steps.{Result, ◌>>=◌, ◌>>◌, check, from_status, Output, null_out, to_caller, need}
use tensora.Torch.Devices.{is_negative}
use tensora.Torch.Library.{
  read_torch, guard_allocation, TorchCall, computed, torch_error, ScalarType, is_float32_scalar,
  HostCopy, Torch, torch_failure, Torched, on_heap_of,
}
use tensora.Prelude.{
  ℕ, ◌+◌, ◌-◌, ◌*◌, ◌/◌, ◌%◌, ◌^◌, not, ◌&&◌, Option, none, some, List, ◌∷◌, ℤ, to_u64, eq_ℤ, ltb,
  entries, if◌then◌else◌,
}

-- `ValidateTorchStorageSize`: the status, and what is in the place of the output pointer.
unfoldable pub validate_torch_storage_size : ℤ → Output → Status × Option ℕ
validate_torch_storage_size numel null_out =
    (fail_argument "torch storage: byte-size output pointer is null", none)
validate_torch_storage_size numel to_caller =
    if is_negative numel
    then (fail_internal "torch storage: tensor reported a negative element count", some 0)
    else if ltb ((2 ^ 64 - 1) / 4) (to_u64 numel)
    then (fail_memory "torch storage: byte size overflow", some 0)
    else (ok, some (to_u64 numel * 4))

-- `ValidateHostCopyMetadata`
unfoldable pub validate_host_copy_metadata : ℤ → ScalarType → ℤ → Status
validate_host_copy_metadata expected_numel actual_type actual_numel =
    if not (is_float32_scalar actual_type)
    then fail_unsupported "torch storage: host copy is not float32"
    else if not (eq_ℤ actual_numel expected_numel)
    then fail_internal "torch storage: host copy changed element count"
    else ok

module _ {F X R : Type 0} (torch : Torch F X R) where
  abbrev refused : Status → Option (List F) → Option ℕ → Copied F
  refused s out_values written = record {
    status = s;
    out_values = out_values;
    out_written = written;
  }

  -- The copy to the host, once libtorch has made it.
  copy_made : X → Option (List F) → TorchCall (HostCopy F) → Copied F
  unfolding validate_host_copy_metadata torch_failure
  copy_made tensor out_values (torch_error what) =
      refused (torch_failure "torch storage host copy" what) out_values (some 0)
  copy_made tensor out_values (computed host) =
      let status = validate_host_copy_metadata (torch.numel tensor) host.scalar_type host.numel in
      let numel = to_u64 (torch.numel tensor) in
      if not (is_ok status) then refused status out_values (some 0) else record {
        status = ok;
        out_values = overwrite_at (entries host.values 0 numel) out_values;
        out_written = some numel;
      }

  -- `TorchStorage::CopyToHostF32`
  unfoldable pub copy_torch : X → R → Option (List F) → ℕ → Option ℕ → Copied F
  unfolding copy_made
  copy_torch tensor r out_values capacity none =
      refused (fail_argument "torch storage: output count pointer is null") out_values none
  copy_torch tensor r out_values capacity (some _) =
      if ltb capacity (to_u64 (torch.numel tensor))
      then refused (fail_argument "torch storage: output capacity is too small") out_values (some 0)
      else if ltb 0 (to_u64 (torch.numel tensor)) && is_null out_values
      then refused (fail_argument "torch storage: output values pointer is null") out_values
          (some 0)
      else copy_made tensor out_values (torch.to_host tensor r)

  -- The constructor of `TorchStorage`. The storage in the heap gives the copy that libtorch makes now.
  unfoldable pub new_torch_storage : X → Torched F X R ℕ
  unfolding copy_torch
  new_torch_storage tensor = do
    let bytes = to_u64 (torch.numel tensor) * 4 % 2 ^ 64
    r ← read_torch (λ r. r)
    number ← on_heap_of (new_storage (Storage.other torch_kind bytes (copy_torch tensor r)))
    λ s. (
      Result.done number,
      record s { owned = (number, tensor) ∷ s.owned; live_bytes = (s.live_bytes + bytes) % 2 ^ 64 },
    )

  -- `TorchStorage::FromTensor`
  unfoldable pub from_tensor : X → Output → Torched F X R ℕ
  unfolding validate_torch_storage_size guard_allocation new_torch_storage
  from_tensor tensor out = do
    need out "torch storage: output pointer is null"
    check (torch.defined tensor) (fail_argument "torch storage: tensor is undefined")
    check (is_float32_scalar (torch.scalar_type tensor))
        (fail_unsupported "torch storage: only float32 is supported")
    bytes ← from_status (validate_torch_storage_size (torch.numel tensor) to_caller)
    guard_allocation "torch storage"
    new_torch_storage tensor

module _ {F X R : Type 0} where
  -- The destructor of `TorchStorage`.
  unfoldable pub destroy_torch_storage : ℕ → Torched F X R (Unit {0})
  unfolding byte_size
  destroy_torch_storage number = do
    storage ← on_heap_of (load_storage number)
    λ s. (
      Result.done tt,
      record s { live_bytes = (s.live_bytes + 2 ^ 64 - byte_size storage) % 2 ^ 64 },
    )
