-- ===== src/Torch/Library.antt =====
-- native/src/training/torch_backend.h and torch_backend.cc: what they use of libtorch, which is a
-- parameter, the guard around its calls, and the state that the backend works on.
use Prim.Native.String.{String, ◌++◌ as joined}
use tensora.Core.Status.{Status, fail_internal, fail_memory}
use tensora.Heap.{M, Heap, AllocFailure}
use tensora.Steps.{Result, Steps}
use tensora.Torch.Devices.{TorchType, TorchDevice}
use tensora.Prelude.{ℕ, ◌+◌, Bool, true, false, Option, none, some, List, ℤ}

-- What a call of libtorch gives: a value, or a `c10::Error` with its text.
pub data TorchCall (A : Type 0) : Type 0 where
  computed : A → TorchCall A
  torch_error : String → TorchCall A

-- `torch::ScalarType`
pub data ScalarType : Type 0 where
  float32_scalar : ScalarType
  other_scalar : ℕ → ScalarType

abbrev pub is_float32_scalar : ScalarType → Bool
is_float32_scalar float32_scalar = true
is_float32_scalar (other_scalar n) = false

-- `tensor.detach().to(torch::kCPU).contiguous()`: its type, its element count and its data.
pub record HostCopy (F : Type 0) : Type 0 where
  pub scalar_type : ScalarType
  pub numel : ℤ
  pub values : ℕ → F

-- libtorch: `X` are its tensors, which name their contents, and `R` is its own state, with these
-- contents. The element type and the sizes of a tensor never change; its device and its values may.
pub record Torch (F X R : Type 0) : Type 0 where
  pub get_accelerator : R → TorchCall (Option TorchType) × R
  pub device_count : R → TorchCall ℤ × R
  pub defined : X → Bool
  pub scalar_type : X → ScalarType
  pub numel : X → ℤ
  pub sizes : X → List ℤ
  pub device : X → R → TorchDevice
  pub to_host : X → R → TorchCall (HostCopy F)
  pub from_blob_clone : Option (ℕ → F) → List ℤ → R → TorchCall X × R
  pub full : List ℤ → F → R → TorchCall X × R
  pub reshape_clone : X → List ℤ → R → TorchCall X × R
  pub transpose_contiguous : X → R → TorchCall X × R
  pub add : X → X → R → TorchCall X × R
  pub multiply : X → X → R → TorchCall X × R
  pub sum : X → R → TorchCall X × R
  pub matmul : X → X → R → TorchCall X × R

-- `TorchFailure`
unfoldable pub torch_failure : String → String → Status
torch_failure operation what = fail_internal (joined (joined operation ": ") what)

-- The heap, the tensors of libtorch that storages of the heap own, by the number of the storage, the
-- counter `live_bytes_`, and libtorch itself.
pub record TorchHost (F X R : Type 0) : Type 0 where
  pub heap : Heap F
  pub owned : List (ℕ × X)
  pub live_bytes : ℕ
  pub runtime : R

abbrev pub Torched : Type 0 → Type 0 → Type 0 → Type 0 → Type 0
Torched F X R A = Steps (TorchHost F X R) A

-- `GuardTorch`, around one call.
abbrev pub guard_torch : {A : Type 0} → String → TorchCall A → Result A
guard_torch operation (computed a) = Result.done a
guard_torch operation (torch_error what) = Result.failed (torch_failure operation what)

module _ {F X R : Type 0} where
  abbrev pub ask_torch : {A : Type 0} → String → (R → TorchCall A × R) → Torched F X R A
  ask_torch operation call s =
      let (c, r) = call s.runtime in (guard_torch operation c, record s { runtime = r })

  abbrev pub read_torch : {A : Type 0} → (R → A) → Torched F X R A
  read_torch read s = (Result.done (read s.runtime), s)

  -- A step of the code on the heap.
  abbrev pub on_heap_of : {A : Type 0} → M F A → Torched F X R A
  on_heap_of m s = let (r, h) = m s.heap in (r, record s { heap = h })

  abbrev pub guard_answer : String → Option AllocFailure → Torched F X R (Unit {0})
  guard_answer operation none s = (Result.done tt, s)
  guard_answer operation (some refusal) s =
      (Result.failed (fail_memory (joined operation ": allocation failed")), s)

  -- Asks the allocator for an object, under the `GuardAllocation` of that name. `operator new` refuses it
  -- by `std::bad_alloc` only.
  unfoldable pub guard_allocation : String → Torched F X R (Unit {0})
  guard_allocation operation s =
      guard_answer operation (s.heap.allocator s.heap.requests 0)
        (record s { heap = record s.heap { requests = s.heap.requests + 1 } })
