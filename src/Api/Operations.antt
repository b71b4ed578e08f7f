-- ===== src/Api/Operations.antt =====
-- native/src/c_api.cc: the operations that make a tensor from tensors.
use tensora.Float.{Float32}
use tensora.Shape.{validate_shape}
use tensora.Memory.{default_shape}
use tensora.Heap.{M}
use tensora.Steps.{Output, to_caller, ◌>>=◌, ◌>>◌, from_status, need}
use tensora.Runtime.{BackendChoice, cpu_backend, device_from_code}
use tensora.Backend.Cpu
use tensora.Training.Transfer.{transfer}
use tensora.Api.{
  on_heap, reset, Exported, exported, lookup_tensor, insert_tensor, backend_of,
  run_binary_operation,
}
use tensora.Prelude.{ℕ, Option, some, ℤ}

module _ {F : Type 0} ⦃fl : Float32 F⦄ where
  -- `ts_tensor_to_device`
  unfoldable pub ts_tensor_to_device : ℕ → ℕ → ℤ → Output → Exported F ℕ
  unfolding device_from_code lookup_tensor insert_tensor transfer
  ts_tensor_to_device tensor device device_index out = exported "tensor_to_device" (reset out 0) (do
    need out "tensor_to_device: output handle pointer is null"
    target ← from_status (device_from_code device to_caller)
    object ← lookup_tensor tensor
    result ← on_heap (transfer object target device_index to_caller)
    insert_tensor result)

  -- `ts_tensor_reshape`
  unfoldable pub ts_tensor_reshape : ℕ → Option (ℕ → ℤ) → ℕ → Output → Exported F ℕ
  unfolding lookup_tensor insert_tensor backend_of
  ts_tensor_reshape tensor dims rank out = exported "tensor_reshape" (reset out 0) (do
    need out "tensor_reshape: output handle pointer is null"
    shape ← from_status (validate_shape dims rank (some default_shape))
    object ← lookup_tensor tensor
    backend ← backend_of object
    result ← on_heap (Cpu.reshape object shape to_caller)
    insert_tensor result)

  -- `ts_tensor_transpose2d`
  unfoldable pub ts_tensor_transpose2d : ℕ → Output → Exported F ℕ
  unfolding lookup_tensor insert_tensor backend_of
  ts_tensor_transpose2d tensor out = exported "tensor_transpose2d" (reset out 0) (do
    need out "tensor_transpose2d: output handle pointer is null"
    object ← lookup_tensor tensor
    backend ← backend_of object
    result ← on_heap (Cpu.transpose2d object to_caller)
    insert_tensor result)

  -- `ts_tensor_sum`
  unfoldable pub ts_tensor_sum : ℕ → Output → Exported F ℕ
  unfolding lookup_tensor insert_tensor backend_of
  ts_tensor_sum tensor out = exported "tensor_sum" (reset out 0) (do
    need out "tensor_sum: output handle pointer is null"
    object ← lookup_tensor tensor
    backend ← backend_of object
    result ← on_heap (Cpu.sum object to_caller)
    insert_tensor result)

  -- The virtual functions that `RunBinaryOperation` is given.
  abbrev call_add : BackendChoice → ℕ → ℕ → Output → M F ℕ
  call_add cpu_backend = Cpu.add

  abbrev call_multiply : BackendChoice → ℕ → ℕ → Output → M F ℕ
  call_multiply cpu_backend = Cpu.multiply

  abbrev call_matmul : BackendChoice → ℕ → ℕ → Output → M F ℕ
  call_matmul cpu_backend = Cpu.matmul

  -- `ts_tensor_add`
  unfoldable pub ts_tensor_add : ℕ → ℕ → Output → Exported F ℕ
  unfolding run_binary_operation
  ts_tensor_add left right out =
      exported "tensor_add" (reset out 0)
        (run_binary_operation left right out "tensor_add" call_add)

  -- `ts_tensor_multiply`
  unfoldable pub ts_tensor_multiply : ℕ → ℕ → Output → Exported F ℕ
  unfolding run_binary_operation
  ts_tensor_multiply left right out =
      exported "tensor_multiply" (reset out 0)
        (run_binary_operation left right out "tensor_multiply" call_multiply)

  -- `ts_tensor_matmul`
  unfoldable pub ts_tensor_matmul : ℕ → ℕ → Output → Exported F ℕ
  unfolding run_binary_operation
  ts_tensor_matmul left right out =
      exported "tensor_matmul" (reset out 0)
        (run_binary_operation left right out "tensor_matmul" call_matmul)
