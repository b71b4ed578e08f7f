-- ===== src/Api.antt =====
-- native/src/c_api.cc: the exported functions on tensors, over the heap and the handle registry.
-- This file has the state, the guard around each function and the helpers they share.
pub mod Create
pub mod Query
pub mod Operations
use Prim.Native.String.{String, ◌++◌}
use tensora.Core.Guard.{Call, returns, throws}
use tensora.Core.Abi.{Reply, abi_reply}
use tensora.Core.Status.{Status, ok, is_ok, fail_argument}
use tensora.Float.{Float32}
use tensora.Tensor.{Tensor}
use tensora.Registry.Entries.{tensor_handle}
use tensora.Registry.{Registry, insert, lookup}
use tensora.Heap.{M, Heap, load_tensor}
use tensora.Steps.{Result, Steps, ◌>>=◌, ◌>>◌, from_status, Output, null_out, to_caller, need}
use tensora.Runtime.{BackendChoice, backend_for_tensor, backend_for_tensors}
use tensora.Prelude.{ℕ, Bool, true, false, Option, none, some, if◌then◌else◌}

-- The process: its objects, and the table of its handles. A tensor handle names a tensor of the heap.
pub record World (F : Type 0) : Type 0 where
  pub heap : Heap F
  pub registry : Registry ℕ

abbrev pub Api : Type 0 → Type 0 → Type 0
Api F A = Steps (World F) A

-- A step of the code below the interface.
abbrev pub on_heap : {F A : Type 0} → M F A → Api F A
on_heap m w = let (r, h) = m w.heap in (r, record w { heap = h })

-- What the caller sees of a call: the reply, and what is in the place of the output pointer, where
-- `none` is what was there before.
pub record Answer (A : Type 0) : Type 0 where
  pub reply : Reply
  pub written : Option A

-- What a failed call leaves in the place of the output pointer.
abbrev pub reset : {A : Type 0} → Output → A → Option A
reset null_out a = none
reset to_caller a = some a

-- `AbiGuard` around a body. `none` is a body that C++ leaves undefined.
unfoldable pub conclude : {S A : Type 0} → String → Option A → Result A × S → Option (Answer A) × S
conclude operation left (Result.done a, w) =
    (some (record { reply = abi_reply operation (returns ok); written = some a }), w)
conclude operation left (Result.failed s, w) =
    (some (record { reply = abi_reply operation (returns s); written = left }), w)
conclude operation left (Result.threw e, w) =
    (some (record { reply = abi_reply operation (throws e); written = left }), w)
conclude operation left (Result.undefined, w) = (none, w)

-- A function of the interface.
abbrev pub Exported : Type 0 → Type 0 → Type 0
Exported F A = World F → Option (Answer A) × World F

abbrev pub exported : {F A : Type 0} → String → Option A → Api F A → Exported F A
exported operation left body w = conclude operation left (body w)

module _ {F : Type 0} where
  -- `LookupTensor`
  unfoldable pub lookup_tensor : ℕ → Api F ℕ
  lookup_tensor handle w = from_status (lookup handle tensor_handle w.registry) w

  abbrev inserted : World F → Status × Option ℕ × Registry ℕ → Result ℕ × World F
  inserted w (s, out, r) = from_status (s, out) (record w { registry = r })

  -- `InsertTensor`
  unfoldable pub insert_tensor : ℕ → Api F ℕ
  insert_tensor tensor w = inserted w (insert tensor_handle (some tensor) (some 0) w.registry)

  abbrev pub load : ℕ → Api F Tensor
  load a = on_heap (load_tensor a)

  -- `BackendFor`
  unfoldable pub backend_of : ℕ → Api F BackendChoice
  unfolding backend_for_tensor
  backend_of tensor = do t ← load tensor; from_status (backend_for_tensor t to_caller)

  -- `RunBinaryOperation`
  unfoldable pub run_binary_operation :
      ℕ → ℕ → Output → String → (BackendChoice → ℕ → ℕ → Output → M F ℕ) → Api F ℕ
  unfolding lookup_tensor insert_tensor backend_for_tensors
  run_binary_operation left right out operation function = do
    need out (operation ++ ": output handle pointer is null")
    left_object ← lookup_tensor left
    right_object ← lookup_tensor right
    l ← load left_object
    r ← load right_object
    backend ← from_status (backend_for_tensors l r to_caller)
    result ← on_heap (function backend left_object right_object to_caller)
    insert_tensor result
