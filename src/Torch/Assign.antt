-- ===== src/Torch/Assign.antt =====
-- native/src/training/nn_v2_state.h: the assignment of many Torch tensors, which is undone where a copy
-- fails, and the detached clone of one.
pub mod Memory
pub mod Rollback
use Prim.Native.String.{String}
use tensora.Core.Guard.{unknown}
use tensora.Core.Status.{Status, fail_internal, fail_memory}
use tensora.Float.{Float32}
use tensora.Tensor.{Tensor}
use tensora.Heap.{increment_version}
use tensora.Steps.{Result, ◌>>=◌, ◌>>◌, return, Output, to_caller}
use tensora.Torch.Library.{Torch, Torched, torch_failure, ask_torch, on_heap_of, guard_allocation}
use tensora.Torch.Backend.{tensor_to_torch, wrap_torch_tensor}
use tensora.Torch.Nn.{TorchNn}
use tensora.Prelude.{ℕ, Bool, true, false, List, [], ◌∷◌, ◌++◌, length}

-- What `copy_` of libtorch does: it returns, or throws a `c10::Error`, `std::bad_alloc` or something else.
pub data CopyAnswer : Type 0 where
  copied copy_no_memory copy_unknown : CopyAnswer
  copy_error : String → CopyAnswer

-- `target.copy_(source)`
abbrev pub CopyInto : Type 0 → Type 0 → Type 0
CopyInto X R = X → X → R → CopyAnswer × R

-- The template parameter of `CommitTorchAssignments`, which gets the index of the target too.
abbrev pub CopyOperation : Type 0 → Type 0 → Type 0
CopyOperation X R = X → X → ℕ → R → CopyAnswer × R

-- One place in the three vectors of the transaction.
pub record Assignment (X : Type 0) : Type 0 where
  pub target : X
  pub staged_source : X
  pub backup : X

module _ {X R : Type 0} (copy_into : CopyInto X R) where
  rolled_further : CopyAnswer → Bool × R → R → Bool × R
  rolled_further copied rest r = rest
  rolled_further _ rest r = (false, r)

  -- `RollbackTorch`, of the assignments that are committed.
  rollback_torch : List (Assignment X) → R → Bool × R
  unfolding rolled_further
  rollback_torch [] r = (true, r)
  rollback_torch (a ∷ committed) r =
      let (answer, r') = copy_into a.target a.backup r in
      rolled_further answer (rollback_torch committed r') r'

  -- The handlers: the failure, where the rollback has worked.
  rolled_back : Status → String → Bool × R → Result (Unit {0}) × R
  rolled_back e message (true, r) = (Result.failed e, r)
  rolled_back e message (false, r) = (Result.failed (fail_internal message), r)

  -- What comes after one copy.
  after_copy : List (Assignment X) → CopyAnswer → Result (Unit {0}) × R → R → Result (Unit {0}) × R
  unfolding rolled_back rollback_torch
  after_copy committed copied rest r = rest
  after_copy committed (copy_error what) rest r =
      rolled_back (torch_failure "tensor_assign_many" what)
        "tensor_assign_many: provider mutation failed and rollback failed"
        (rollback_torch committed r)
  after_copy committed copy_no_memory rest r =
      rolled_back (fail_memory "tensor_assign_many: provider allocation failed")
        "tensor_assign_many: allocation failed and rollback failed" (rollback_torch committed r)
  after_copy committed copy_unknown rest r = (Result.threw unknown, r)

  -- `CommitTorchAssignments` with its `copy_operation`: what is committed, and what is left.
  unfoldable pub commit_torch :
      CopyOperation X R → List (Assignment X) → List (Assignment X) → R → Result (Unit {0}) × R
  unfolding after_copy
  commit_torch copy_operation committed [] r = (Result.done tt, r)
  commit_torch copy_operation committed (a ∷ rest) r =
      let (answer, r') = copy_operation a.target a.staged_source (length committed) r in
      after_copy committed answer (commit_torch copy_operation (committed ++ a ∷ []) rest r') r'

module _ {F D X R N O A : Type 0} (torch : Torch F X R) (nn : TorchNn D X R N O A)
    (copy_into : CopyInto X R) ⦃fl : Float32 F⦄ where
  detached_clone : String → X → Torched F X R X
  detached_clone operation value = do
    detached ← ask_torch operation (nn.detach value)
    ask_torch operation (nn.clone detached)

  -- The loop of `AssignMany` over its Torch tensors, each with its source.
  stage_torch : List (Tensor × Tensor) → Torched F X R (List (Assignment X))
  unfolding tensor_to_torch detached_clone
  stage_torch [] = return []
  stage_torch ((to, from) ∷ pairs) = do
    target ← tensor_to_torch torch to to_caller
    source ← tensor_to_torch torch from to_caller
    staged ← detached_clone "tensor_assign_many" source
    backup ← detached_clone "tensor_assign_many" target
    rest ← stage_torch pairs
    return (record { target = target; staged_source = staged; backup = backup } ∷ rest)

  commit_step : List (Assignment X) → Torched F X R (Unit {0})
  unfolding commit_torch
  commit_step staged s =
      let (result, r) =
        commit_torch copy_into (λ target source index. copy_into target source) [] staged
          s.runtime in
      (result, record s { runtime = r })

  increment_versions : List (Tensor × Tensor) → Torched F X R (Unit {0})
  unfolding increment_version
  increment_versions [] = return tt
  increment_versions ((to, from) ∷ pairs) = do
    on_heap_of (increment_version to)
    increment_versions pairs

  -- `AssignMany`, once its pairs are admitted and their storages are Torch storages.
  unfoldable pub assign_torch : List (Tensor × Tensor) → Torched F X R (Unit {0})
  unfolding guard_allocation stage_torch commit_step increment_versions
  assign_torch pairs = do
    guard_allocation "tensor_assign_many"
    staged ← stage_torch pairs
    commit_step staged
    increment_versions pairs

  -- `CloneDetached` of a tensor over a Torch storage.
  unfoldable pub clone_detached_torch : Tensor → Output → Torched F X R ℕ
  unfolding tensor_to_torch guard_allocation detached_clone wrap_torch_tensor
  clone_detached_torch t out = do
    value ← tensor_to_torch torch t to_caller
    guard_allocation "tensor_clone_detached"
    copy ← detached_clone "tensor_clone_detached" value
    wrap_torch_tensor torch copy out
