-- ===== src/TrainingApi.antt =====
-- native/src/training/training_c_api.cc: the exported functions of training, over the process. This
-- file has the helpers that they share.
pub mod Tensors
pub mod Modules
pub mod Optimizers
use Prim.Native.String.{String, ◌++◌}
use tensora.Core.Status.{fail_argument}
use tensora.Registry.Entries.{tensor_handle}
use tensora.Heap.{M}
use tensora.Steps.{Result, Steps, ◌>>=◌, ◌>>◌, Output, to_caller, need}
use tensora.Api.{Answer, conclude, lookup_tensor, insert_tensor}
use tensora.Training.State.{Process, Train, on_tensors, on_world, find_object, register}
use tensora.Prelude.{ℕ, Option}

-- A function of the interface.
abbrev pub Exposed : Type 0 → Type 0 → Type 0 → Type 0 → Type 0
Exposed F D G A = Process F D G → Option (Answer A) × Process F D G

abbrev pub exposed : {F D G A : Type 0} → String → Option A → Train F D G A → Exposed F D G A
exposed operation left body p = conclude operation left (body p)

module _ {F D G : Type 0} where
  -- `LookupTrainingTensor`
  unfoldable pub lookup_training_tensor : ℕ → Train F D G ℕ
  lookup_training_tensor handle = find_object handle tensor_handle

  -- `InsertTrainingTensor`
  unfoldable pub insert_training_tensor : ℕ → Output → Train F D G ℕ
  insert_training_tensor tensor out_handle = do
    need out_handle "training tensor: output handle pointer is null"
    register tensor_handle tensor

  -- `FetchAndInsertTrainingTensor`
  unfoldable pub fetch_and_insert_training_tensor :
      Output → String → (Output → Train F D G ℕ) → Train F D G ℕ
  unfolding insert_training_tensor
  fetch_and_insert_training_tensor out operation fetch = do
    need out (operation ++ ": output handle pointer is null")
    result ← fetch to_caller
    insert_training_tensor result out

  -- `RunTrainingUnary`
  unfoldable pub run_training_unary : ℕ → Output → (ℕ → Output → M F ℕ) → Train F D G ℕ
  unfolding lookup_training_tensor insert_training_tensor
  run_training_unary tensor out operation = do
    need out "training unary: output handle pointer is null"
    object ← lookup_training_tensor tensor
    result ← on_tensors (operation object to_caller)
    insert_training_tensor result out

  -- `RunTrainingBinary`
  unfoldable pub run_training_binary : ℕ → ℕ → Output → (ℕ → ℕ → Output → M F ℕ) → Train F D G ℕ
  unfolding lookup_training_tensor insert_training_tensor
  run_training_binary left right out operation = do
    need out "training binary: output handle pointer is null"
    left_object ← lookup_training_tensor left
    right_object ← lookup_training_tensor right
    result ← on_tensors (operation left_object right_object to_caller)
    insert_training_tensor result out
