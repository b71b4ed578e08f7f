-- ===== src/Training/Assign.antt =====
-- native/src/training/nn_v2_state.h: identities, detached copies, and AssignMany, which assigns many
-- tensors at once; and native/src/training/nn_v2_parameter_control.h. Both without Torch.
pub mod Atomic
pub mod Flag
use Prim.Native.String.{String, ◌++◌ as joined}
use tensora.Core.Status.{fail_argument, fail_shape, fail_internal, fail_unsupported}
use tensora.Float.{Float32}
use tensora.Shape.{same_shape}
use tensora.Storage.{Storage, StorageKind, cpu_kind, torch_kind, kind, is_null, overwrite}
use tensora.Tensor.{Tensor, DType, float32, other_dtype}
use tensora.Registry.Entries.{tensor_handle}
use tensora.Registry.{lookup}
use tensora.Runtime.{same_device}
use tensora.Heap.{
  M, load_tensor, load_storage, load_counter, load_meta, store_meta, store_storage, store_tensor,
  new_meta, guarded, increment_version,
}
use tensora.Steps.{check, return, fail, from_status, Output, to_caller, ◌>>=◌, ◌>>◌, need}
use tensora.Autograd.Values.{mutable_cpu_values, read_logical_cpu_values}
use tensora.Autograd.Values
use tensora.Autograd.Graph.{contains}
use tensora.Autograd.Backward.{clear_gradient}
use tensora.Api.{World, Api, on_heap, lookup_tensor, load}
use tensora.Training.ParameterOptimizers.{same_kind}
use tensora.Prelude.{
  ℕ, ◌*◌, ◌==◌, not, ◌&&◌, ◌||◌, Bool, true, false, Option, none, some, List, [], ◌∷◌, ◌++◌, eq_ℤ,
  length, entries, if◌then◌else◌,
}

abbrev same_dtype : DType → DType → Bool
same_dtype float32 float32 = true
same_dtype (other_dtype m) (other_dtype n) = m == n
same_dtype _ _ = false

module _ {F : Type 0} where
  -- `ValidatePair`
  unfoldable pub validate_pair : Tensor → Tensor → String → M F (Unit {0})
  validate_pair target source operation = do
    check (same_shape target.shape source.shape)
        (fail_shape (joined operation ": tensor shape mismatch"))
    check (same_dtype target.dtype source.dtype)
        (fail_argument (joined operation ": tensor dtype mismatch"))
    check (same_device target.device source.device && eq_ℤ target.device_index source.device_index)
        (fail_argument (joined operation ": tensor device mismatch"))
    s ← load_storage target.storage
    r ← load_storage source.storage
    check (same_kind (kind s) (kind r))
        (fail_argument (joined operation ": tensor storage backend mismatch"))

  -- `TensorIdentity`
  unfoldable pub tensor_identity : Tensor → Output → M F ℕ
  tensor_identity t out = do
    need out "tensor_identity: output pointer is null"
    c ← load_counter t.version_counter
    check (not (c.identity == 0)) (fail_internal "tensor_identity: opaque identity is zero")
    return c.identity

  -- `SetCoreRequiresGrad`, which `SetRequiresGrad` is in this build.
  unfoldable pub set_requires_grad : ℕ → Bool → M F (Unit {0})
  unfolding guarded
  set_requires_grad tensor requires = do
    t ← load_tensor tensor
    elim t.autograd_meta [
      | none ↦ if not requires then return tt else (do
        guarded "tensor_set_requires_grad" 0
        m ←
            new_meta
              (record { requires_grad = true; is_leaf = true; gradient = none; grad_fn = none })
        store_tensor tensor (record t { autograd_meta = some m }))
      | some m ↦ do
        meta ← load_meta m
        check meta.is_leaf
            (fail_argument "tensor_set_requires_grad: only leaf tensors may change requiresGrad")
        store_meta m (record meta {
          requires_grad = requires;
          gradient = if requires then meta.gradient else none;
        })
    ]

module _ {F : Type 0} ⦃fl : Float32 F⦄ where
  -- `CloneDetached` of nn_v2_state.h.
  unfoldable pub clone_detached_checked : Tensor → Output → M F ℕ
  clone_detached_checked t out = do
    need out "tensor_clone_detached: output tensor pointer is null"
    Values.clone_detached t out

-- What the checking loop of `AssignMany` has gathered: the identities of the targets, the kind of
-- storage of the batch, and the pairs of a target and its source.
pub record Batch : Type 0 where
  pub identities : List ℕ
  pub kind : Option StorageKind
  pub pairs : List (ℕ × ℕ)

abbrev joins : Option StorageKind → StorageKind → Bool
joins none k = true
joins (some batch) k = same_kind k batch

abbrev pub first_kind : Option StorageKind → StorageKind → Option StorageKind
first_kind none k = some k
first_kind (some batch) k = some batch

module _ {F : Type 0} where
  -- What a round of the checking loop does once both tensors are found.
  unfoldable pub admit_pair : Tensor → Tensor → Batch → M F (List ℕ × Option StorageKind)
  unfolding validate_pair tensor_identity guarded
  admit_pair t s b = do
    validate_pair t s "tensor_assign_many"
    identity ← tensor_identity t to_caller
    guarded "tensor_assign_many" 8
    check (not (contains identity b.identities))
        (fail_argument "tensor_assign_many: duplicate target tensor")
    storage ← load_storage t.storage
    check (joins b.kind (kind storage))
        (fail_argument "tensor_assign_many: one transaction cannot span storage backends")
    return (identity ∷ b.identities, first_kind b.kind (kind storage))

  -- The checking loop of `AssignMany`: what it returns has the pairs in their order.
  unfoldable pub admit_pairs : List (ℕ × ℕ) → Batch → Api F Batch
  unfolding lookup_tensor admit_pair
  admit_pairs [] b = return b
  admit_pairs ((target_handle, source_handle) ∷ rest) b = do
    target ← lookup_tensor target_handle
    source ← lookup_tensor source_handle
    t ← load target
    s ← load source
    (identities, k) ← on_heap (admit_pair t s b)
    admit_pairs rest
        (record { identities = identities; kind = k; pairs = b.pairs ++ (target, source) ∷ [] })

module _ {F : Type 0} ⦃fl : Float32 F⦄ where
  -- The staging loop: the values of the sources; the targets can be written.
  unfoldable pub stage : List (ℕ × ℕ) → M F (List (ℕ × List F))
  unfolding read_logical_cpu_values mutable_cpu_values
  stage [] = return []
  stage ((target, source) ∷ rest) = do
    s ← load_tensor source
    values ← read_logical_cpu_values s "tensor_assign_many" to_caller
    t ← load_tensor target
    old ← mutable_cpu_values t "tensor_assign_many" to_caller
    staged ← stage rest
    return ((target, values) ∷ staged)

module _ {F : Type 0} where
  copied : List F → Storage F → Storage F
  copied values (Storage.cpu old) = Storage.cpu (overwrite values old)
  copied values (Storage.other k bytes copy) = Storage.other k bytes copy

  -- One round of the committing loop.
  unfoldable pub commit_one : Tensor → List F → M F (Unit {0})
  unfolding copied increment_version clear_gradient
  commit_one t values = do
    storage ← load_storage t.storage
    store_storage t.storage (copied values storage)
    increment_version t
    clear_gradient t

  -- The committing loop.
  unfoldable pub commit : List (ℕ × List F) → M F (Unit {0})
  unfolding commit_one
  commit [] = return tt
  commit ((target, values) ∷ rest) = do t ← load_tensor target; commit_one t values; commit rest

-- The handles of the targets, each with its source's.
abbrev pub handle_pairs : Option (ℕ → ℕ) → Option (ℕ → ℕ) → ℕ → List (ℕ × ℕ)
handle_pairs (some targets) (some sources) count =
    entries (λ index. (targets index, sources index)) 0 count
handle_pairs targets sources count = []

module _ {F : Type 0} ⦃fl : Float32 F⦄ where
  -- What `AssignMany` does to a batch of one kind of storage.
  unfoldable pub transact : ℕ → Batch → M F (Unit {0})
  unfolding guarded stage commit
  transact count b = elim b.kind [
    | none ↦ return tt
    | some cpu_kind ↦ do
      guarded "tensor_assign_many" (count * 24)
      guarded "tensor_assign_many" (count * 8)
      staged ← stage b.pairs
      commit staged
    | some torch_kind ↦ fail (fail_unsupported "tensor_assign_many: storage backend is unsupported")
  ]

  -- `AssignMany`
  unfoldable pub assign_many : Option (ℕ → ℕ) → Option (ℕ → ℕ) → ℕ → Api F (Unit {0})
  unfolding guarded admit_pairs transact
  assign_many targets sources count = if count == 0 then return tt else (do
    check (not (is_null targets || is_null sources))
        (fail_argument "tensor_assign_many: tensor arrays are null")
    on_heap (guarded "tensor_assign_many" (count * 16))
    on_heap (guarded "tensor_assign_many" (count * 16))
    b ←
        admit_pairs (handle_pairs targets sources count)
          (record { identities = []; kind = none; pairs = [] })
    on_heap (transact count b))
