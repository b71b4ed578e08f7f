-- ===== src/Backend/Cpu.antt =====
-- native/src/backends/cpu/cpu_backend.cc: the operations on CPU tensors.
use Prim.Native.String.{String, ◌++◌}
use tensora.Core.Status.{Status, is_ok, fail_argument, fail_unsupported, fail_internal, fail_shape}
use tensora.Float.{Float32}
use tensora.Shape.{ShapeInfo, validate_shape, same_shape}
use tensora.Storage.{Storage}
use tensora.Tensor.{Tensor, float32, cpu, is_cpu, is_float32, is_contiguous}
use tensora.Heap.{
  M, load_tensor, load_storage, new_tensor, guarded, op_reshape, op_transpose2d, op_add,
  op_multiply, op_sum, op_matmul, store_storage,
}
use tensora.Steps.{◌>>=◌, ◌>>◌, Output, to_caller, need, check, return, undefined_unless}
use tensora.Heap
use tensora.Memory.{
  pointer_to, dimensions_pointer, default_shape, filled, from_data, validated, read_logical,
}
use tensora.Autograd.Graph.{record_unary, record_binary}
use tensora.Backend.Kernels.{add_values, multiply_values, sum_values, matmul_loop}
use tensora.Prelude.{
  ℕ, ◌==◌, not, ◌&&◌, Bool, true, false, Option, none, some, List, [], ◌∷◌, ℤ, pos, negsuc, eq_ℤ,
  length, get_or, replicate, if◌then◌else◌, zero,
}

abbrev is_none : {A : Type 0} → Option A → Bool
is_none none = true
is_none (some a) = false

contract_invalid : Status
contract_invalid =
    fail_internal "cpu backend: materialized tensor shape/storage contract is invalid"

module _ {F : Type 0} where
  stored_count : Storage F → ℕ
  stored_count (Storage.cpu values) = length values
  stored_count (Storage.other k bytes copy) = 0

  -- `MakeTensor`. Its storage is a CPU storage; a null one is `none`.
  unfoldable pub make_tensor : ShapeInfo → Option ℕ → Output → M F ℕ
  unfolding stored_count contract_invalid new_tensor guarded
  make_tensor shape maybe_storage out = do
    need out "cpu backend: output tensor pointer is null"
    check (not (is_none maybe_storage))
        (fail_argument "cpu backend: materialized tensor storage is null")
    address ← undefined_unless maybe_storage
    storage ← load_storage address
    let verdict =
        validate_shape (dimensions_pointer shape.dimensions) (length shape.dimensions)
          (some default_shape)
    check (is_ok verdict.0) contract_invalid
    materialized ← undefined_unless verdict.1
    check (materialized.numel == shape.numel && stored_count storage == shape.numel)
        contract_invalid
    guarded "cpu backend tensor" 0
    new_tensor materialized address float32 cpu (pos 0) 0 none

  -- `MakeView`: the new tensor shares the storage and the version counter of its source.
  unfoldable pub make_view : ShapeInfo → Tensor → Output → M F ℕ
  unfolding new_tensor guarded
  make_view shape source out = do
    need out "cpu backend: output tensor pointer is null"
    guarded "cpu backend view" 0
    new_tensor shape source.storage source.dtype source.device source.device_index
        source.storage_offset (some source.version_counter)

  -- `EnsureCpuFloat32`
  unfoldable pub ensure_cpu_float32 : Tensor → String → M F (Unit {0})
  ensure_cpu_float32 t operation = do
    check (is_cpu t.device && eq_ℤ t.device_index (pos 0))
        (fail_unsupported (operation ++ ": CPU backend requires cpu:0"))
    check (is_float32 t.dtype) (fail_unsupported (operation ++ ": only float32 is supported"))

abbrev pub dimension : Tensor → ℕ → ℤ
dimension t i = get_or t.shape.dimensions i (pos 0)

-- The rounds of a loop `for (int64_t i = 0; i < count; ++i)`.
abbrev pub rounds : ℤ → ℕ
rounds (pos n) = n
rounds (negsuc n) = zero

-- `std::swap` of the first two of two entries.
abbrev pub swapped : {A : Type 0} → List A → List A
swapped (a ∷ b ∷ rest) = b ∷ a ∷ rest
swapped xs = xs

-- `output_shape` of `Transpose2D`
abbrev pub transposed_shape : ShapeInfo → ShapeInfo
transposed_shape shape = record shape {
  dimensions = swapped shape.dimensions;
  strides = swapped shape.strides;
}

module _ {F : Type 0} ⦃fl : Float32 F⦄ where
  open fl use {zero_f}

  -- `LogicalValues`
  unfoldable pub logical_values : Tensor → String → Output → M F (List F)
  unfolding ensure_cpu_float32 read_logical
  logical_values t operation out = do
    need out (operation ++ ": output values pointer is null")
    ensure_cpu_float32 t operation
    read_logical operation zero_f t

  -- `CpuBackend::FromData`
  unfoldable pub from_data_f32 : ShapeInfo → Option (ℕ → F) → Output → M F ℕ
  unfolding from_data make_tensor
  from_data_f32 shape values out = do
    storage ← from_data values shape.numel to_caller
    make_tensor shape (some storage) out

  -- `CpuBackend::Full`
  unfoldable pub full : ShapeInfo → F → Output → M F ℕ
  unfolding filled make_tensor
  full shape value out = do
    storage ← filled shape.numel value to_caller
    make_tensor shape (some storage) out

  -- The copying branch of `Reshape`.
  reshape_copy : Tensor → ShapeInfo → Output → M F ℕ
  unfolding logical_values from_data make_tensor
  reshape_copy t shape out = do
    values ← logical_values t "reshape" to_caller
    storage ← from_data (pointer_to zero_f values) t.shape.numel to_caller
    make_tensor shape (some storage) out

  -- `CpuBackend::Reshape`
  unfoldable pub reshape : ℕ → ShapeInfo → Output → M F ℕ
  unfolding ensure_cpu_float32 reshape_copy make_view record_unary
  reshape tensor shape out = do
    t ← load_tensor tensor
    ensure_cpu_float32 t "reshape"
    check (t.shape.numel == shape.numel)
        (fail_shape "reshape: target shape must preserve element count")
    result ← if is_contiguous t then make_view shape t out else reshape_copy t shape out
    record_unary op_reshape tensor result
    return result

  -- `CpuBackend::Transpose2D`
  unfoldable pub transpose2d : ℕ → Output → M F ℕ
  unfolding ensure_cpu_float32 make_view record_unary
  transpose2d tensor out = do
    t ← load_tensor tensor
    ensure_cpu_float32 t "transpose"
    check (length t.shape.dimensions == 2)
        (fail_shape "transpose: Milestone 1 requires a rank-2 tensor")
    result ← make_view (transposed_shape t.shape) t out
    record_unary op_transpose2d tensor result
    return result

  -- What `Add` and `Multiply` do with the loop of each.
  elementwise : String → Heap.Operation → (ℕ → List F → List F → List F) → ℕ → ℕ → Output → M F ℕ
  unfolding ensure_cpu_float32 logical_values filled make_tensor record_binary
  elementwise name operation values_of left right out = do
    l ← load_tensor left
    ensure_cpu_float32 l name
    r ← load_tensor right
    ensure_cpu_float32 r name
    check (same_shape l.shape r.shape)
        (fail_shape (name ++ ": Milestone 1 elementwise operations require equal shapes"))
    left_values ← logical_values l name to_caller
    right_values ← logical_values r name to_caller
    storage ← filled l.shape.numel zero_f to_caller
    store_storage storage (Storage.cpu (values_of l.shape.numel left_values right_values))
    result ← make_tensor l.shape (some storage) out
    record_binary operation left right result
    return result

  -- `CpuBackend::Add`
  unfoldable pub add : ℕ → ℕ → Output → M F ℕ
  unfolding elementwise add_values
  add = elementwise "add" op_add add_values

  -- `CpuBackend::Multiply`
  unfoldable pub multiply : ℕ → ℕ → Output → M F ℕ
  unfolding elementwise multiply_values
  multiply = elementwise "multiply" op_multiply multiply_values

  -- `CpuBackend::Sum`
  unfoldable pub sum : ℕ → Output → M F ℕ
  unfolding ensure_cpu_float32 logical_values filled make_tensor record_unary sum_values
  sum tensor out = do
    t ← load_tensor tensor
    ensure_cpu_float32 t "sum"
    input ← logical_values t "sum" to_caller
    scalar_shape ← validated none 0
    storage ← filled 1 (sum_values input) to_caller
    result ← make_tensor scalar_shape (some storage) out
    record_unary op_sum tensor result
    return result

  -- `CpuBackend::Matmul`
  unfoldable pub matmul : ℕ → ℕ → Output → M F ℕ
  unfolding ensure_cpu_float32 logical_values filled make_tensor record_binary matmul_loop
  matmul left right out = do
    l ← load_tensor left
    ensure_cpu_float32 l "matmul"
    r ← load_tensor right
    ensure_cpu_float32 r "matmul"
    check (length l.shape.dimensions == 2 && length r.shape.dimensions == 2)
        (fail_shape "matmul: Milestone 1 requires rank-2 tensors")
    let m = dimension l 0
    let k = dimension l 1
    let n = dimension r 1
    check (eq_ℤ k (dimension r 0)) (fail_shape "matmul: inner dimensions must match")
    left_values ← logical_values l "matmul" to_caller
    right_values ← logical_values r "matmul" to_caller
    output_shape ← validated (pointer_to (pos 0) (m ∷ n ∷ [])) 2
    storage ← filled output_shape.numel zero_f to_caller
    store_storage storage (
        Storage.cpu (
          matmul_loop (rounds m) (rounds k) (rounds n) left_values right_values
            (replicate output_shape.numel zero_f)))
    result ← make_tensor output_shape (some storage) out
    record_binary op_matmul left right result
    return result
