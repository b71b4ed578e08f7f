-- ===== src/Autograd/Values.antt =====
-- native/src/autograd/autograd.h: access to a tensor's values, and new tensors for gradients.
use Prim.Native.String.{String, ◌++◌}
use tensora.Core.Status.{is_ok, fail_argument, fail_unsupported, fail_internal}
use tensora.Float.{Float32}
use tensora.Shape.{ShapeInfo, validate_shape, same_shape}
use tensora.Storage.{Storage}
use tensora.Tensor.{Tensor, float32, cpu, is_cpu, is_float32, is_contiguous}
use tensora.Heap.{
  M, load_tensor, load_storage, load_meta, store_tensor, store_storage, new_meta, new_tensor,
  guarded,
}
use tensora.Steps.{◌>>=◌, ◌>>◌, Output, to_caller, need, check, fail, return, undefined_unless}
use tensora.Memory.{pointer_to, dimensions_pointer, default_shape, filled, from_data, read_logical}
use tensora.Prelude.{
  ℕ, ◌==◌, ◌&&◌, Bool, true, false, Option, none, some, List, pos, eq_ℤ, length, get_or, set,
  for_range, if◌then◌else◌,
}

module _ {F : Type 0} where
  -- `EnsureCpuFloat32`
  unfoldable pub ensure_cpu_float32 : Tensor → String → M F (Unit {0})
  ensure_cpu_float32 t operation = do
    check (is_cpu t.device && eq_ℤ t.device_index (pos 0))
        (fail_unsupported (operation ++ ": CPU autograd requires cpu:0"))
    check (is_float32 t.dtype)
        (fail_unsupported (operation ++ ": CPU autograd currently supports float32 only"))

  abbrev pub cpu_values_of : String → Storage F → M F (List F)
  cpu_values_of operation (Storage.cpu values) = return values
  cpu_values_of operation (Storage.other k bytes copy) =
      fail (fail_unsupported (operation ++ ": tensor is not backed by CPU storage"))

  -- `CpuValues`: the stored elements themselves.
  unfoldable pub cpu_values : Tensor → String → Output → M F (List F)
  unfolding ensure_cpu_float32
  cpu_values t operation out = do
    need out (operation ++ ": output values pointer is null")
    ensure_cpu_float32 t operation
    check (is_contiguous t && t.storage_offset == 0)
        (fail_argument (operation ++ ": direct storage access requires a contiguous tensor"))
    storage ← load_storage t.storage
    values ← cpu_values_of operation storage
    check (length values == t.shape.numel)
        (fail_argument (operation ++ ": direct access requires full logical storage extent"))
    return values

  -- `MutableCpuValues`: the caller then writes to the storage of the tensor.
  unfoldable pub mutable_cpu_values : Tensor → String → Output → M F (List F)
  unfolding ensure_cpu_float32
  mutable_cpu_values t operation out = do
    need out (operation ++ ": output values pointer is null")
    ensure_cpu_float32 t operation
    check (is_contiguous t && t.storage_offset == 0)
        (fail_argument (operation ++ ": mutable storage access requires a contiguous tensor"))
    storage ← load_storage t.storage
    values ← cpu_values_of operation storage
    check (length values == t.shape.numel)
        (fail_argument (operation ++ ": mutable access to aliased sub-storage is not supported"))
    return values

  -- `RequiresGrad`
  unfoldable pub requires_grad : Tensor → M F Bool
  requires_grad t = elim t.autograd_meta [
    | none ↦ return false
    | some m ↦ do meta ← load_meta m; return meta.requires_grad
  ]

module _ {F : Type 0} ⦃fl : Float32 F⦄ where
  open fl use {zero_f, add_f}

  -- `ReadLogicalCpuValues`
  unfoldable pub read_logical_cpu_values : Tensor → String → Output → M F (List F)
  unfolding ensure_cpu_float32 read_logical
  read_logical_cpu_values t operation out = do
    need out (operation ++ ": logical values output pointer is null")
    ensure_cpu_float32 t operation
    read_logical operation zero_f t

  -- The status of `ValidateShape` is not passed on here.
  canonical_shape : ShapeInfo → M F ShapeInfo
  canonical_shape shape =
      let (s, materialized) =
        validate_shape (dimensions_pointer shape.dimensions) (length shape.dimensions)
          (some default_shape) in
      if is_ok s
      then undefined_unless materialized
      else fail (fail_internal "autograd: could not canonicalize materialized gradient shape")

  -- `MakeCpuTensor`
  unfoldable pub make_cpu_tensor : ShapeInfo → List F → Output → M F ℕ
  unfolding canonical_shape from_data new_tensor guarded
  make_cpu_tensor shape values out = do
    need out "autograd: output tensor pointer is null"
    check (length values == shape.numel)
        (fail_internal "autograd: gradient value count does not match shape")
    materialized ← canonical_shape shape
    check (materialized.numel == shape.numel)
        (fail_internal "autograd: could not canonicalize materialized gradient shape")
    storage ← from_data (pointer_to zero_f values) shape.numel to_caller
    guarded "autograd tensor" 0
    new_tensor materialized storage float32 cpu (pos 0) 0 none

  -- `MakeCpuFull`
  unfoldable pub make_cpu_full : ShapeInfo → F → Output → M F ℕ
  unfolding filled new_tensor guarded
  make_cpu_full shape value out = do
    need out "autograd: output tensor pointer is null"
    storage ← filled shape.numel value to_caller
    guarded "autograd tensor" 0
    new_tensor shape storage float32 cpu (pos 0) 0 none

  -- `CloneDetached`, which is also `CopyGradient`.
  unfoldable pub clone_detached : Tensor → Output → M F ℕ
  unfolding read_logical_cpu_values make_cpu_tensor
  clone_detached source out = do
    values ← read_logical_cpu_values source "autograd_clone" to_caller
    make_cpu_tensor source.shape values out

  -- `CloneAsLeaf`
  unfoldable pub clone_as_leaf : Tensor → Bool → Output → M F ℕ
  unfolding clone_detached
  clone_as_leaf source requires out = do
    copy ← clone_detached source out
    m ←
        new_meta
          (record { requires_grad = requires; is_leaf = true; gradient = none; grad_fn = none })
    t ← load_tensor copy
    store_tensor copy (record t { autograd_meta = some m })
    return copy

  -- The loop of `AddInPlace`.
  unfoldable pub add_in_place_values : List F → List F → List F
  add_in_place_values destination source =
      for_range (length destination) 0
        (λ index out. set out index (add_f (get_or out index zero_f) (get_or source index zero_f)))
        destination

  -- `AddInPlace`
  unfoldable pub add_in_place : Tensor → Tensor → M F (Unit {0})
  unfolding mutable_cpu_values read_logical_cpu_values add_in_place_values
  add_in_place destination source = do
    check (same_shape destination.shape source.shape)
        (fail_internal "autograd: gradient accumulation shape mismatch")
    values ← mutable_cpu_values destination "autograd_accumulate" to_caller
    source_values ← read_logical_cpu_values source "autograd_accumulate" to_caller
    store_storage destination.storage (Storage.cpu (add_in_place_values values source_values))

  -- `Accumulate`: what the destination holds afterwards.
  unfoldable pub accumulate : Option ℕ → Tensor → M F ℕ
  unfolding clone_detached add_in_place
  accumulate none contribution = clone_detached contribution to_caller
  accumulate (some a) contribution = do
    destination ← load_tensor a
    add_in_place destination contribution
    return a
