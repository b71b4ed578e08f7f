-- ===== src/Torch/Identity.antt =====
-- native/src/training/nn_v2_state.h: the identities of Torch tensors, which a cache keeps by the address
-- of the tensor of libtorch.
pub mod Distinct
pub mod Sound
use tensora.Core.Status.{fail_internal}
use tensora.Float.{Float32}
use tensora.Tensor.{Tensor}
use tensora.Heap.{guarded, load_storage}
use tensora.Steps.{Result, Steps, ◌>>=◌, ◌>>◌, return, check, Output, to_caller, need}
use tensora.Storage.{kind}
use tensora.Training.Assign.{tensor_identity}
use tensora.Torch.Bridge.{is_torch}
use tensora.Torch.Library.{Torch, TorchHost, Torched, on_heap_of}
use tensora.Torch.Backend.{tensor_to_torch}
use tensora.Prelude.{
  ℕ, ◌+◌, ◌%◌, ◌^◌, ◌==◌, not, Bool, Option, none, some, List, [], ◌∷◌, if◌then◌else◌,
}

-- `TorchIdentityEntry`. A weak pointer is the address of what it points to: while there is one, the
-- memory is not used again.
pub record TorchIdentityEntry : Type 0 where
  pub identity : ℕ
  pub tensor_impl : ℕ

abbrev pub Identities : Type 0
Identities = List (ℕ × TorchIdentityEntry)

-- `TorchIdentityMap()`, an `unordered_map` as an association list, and `NextTorchIdentity()`.
pub record IdentityCache : Type 0 where
  pub identities : Identities
  pub next : ℕ

abbrev pub empty_cache : IdentityCache
empty_cache = record { identities = []; next = 2 ^ 63 }

-- What it uses of libtorch: `getIntrusivePtr().get()`, and whether nothing owns a tensor any more.
pub record TorchImpls (X R : Type 0) : Type 0 where
  pub address : X → ℕ
  pub expired : ℕ → R → Bool

pub record IdentityState (F X R : Type 0) : Type 0 where
  pub host : TorchHost F X R
  pub cache : IdentityCache

-- `PruneExpiredTorchIdentitiesLocked`
pub prune_expired : (ℕ → Bool) → Identities → Identities
prune_expired expired [] = []
prune_expired expired ((key, e) ∷ rest) =
    let kept = prune_expired expired rest in if expired e.tensor_impl then kept else (key, e) ∷ kept

-- `identities.find(key)`
unfoldable pub find_identity : ℕ → Identities → Option TorchIdentityEntry
find_identity key [] = none
find_identity key ((k, e) ∷ rest) = if k == key then some e else find_identity key rest

module _ {F X R : Type 0} where
  abbrev pub on_identity_host : {A : Type 0} → Torched F X R A → Steps (IdentityState F X R) A
  on_identity_host m s = let (r, h) = m s.host in (r, record s { host = h })

  -- The identity that is given next.
  abbrev pub take_next : Steps (IdentityState F X R) ℕ
  take_next s = (
    Result.done s.cache.next,
    record s { cache = record s.cache { next = (s.cache.next + 1) % 2 ^ 64 } },
  )

  -- `remember_identity`, of a key that the map does not have.
  abbrev pub remember_identity : ℕ → ℕ → Steps (IdentityState F X R) ℕ
  remember_identity key assigned s = (
    Result.done assigned,
    record s {
      cache = record s.cache {
        identities = (key, record { identity = assigned; tensor_impl = key }) ∷ s.cache.identities;
      };
    },
  )

  -- A new identity for the key.
  assign_identity : ℕ → Steps (IdentityState F X R) ℕ
  unfolding guarded
  assign_identity key = do
    assigned ← λ s.
        (do
          check (not (s.cache.next == 0))
              (fail_internal "tensor_identity: opaque identity space exhausted")
          take_next)
          s
    on_identity_host (on_heap_of (guarded "tensor_identity" 0))
    remember_identity key assigned

  -- What the cache answers for the key, once it is pruned.
  answer_identity : ℕ → Option TorchIdentityEntry → Steps (IdentityState F X R) ℕ
  unfolding assign_identity
  answer_identity key (some e) = return e.identity
  answer_identity key none = assign_identity key

  -- `TorchIdentity`
  unfoldable pub torch_identity :
      Torch F X R → TorchImpls X R → ⦃fl : Float32 F⦄ → Tensor → Steps (IdentityState F X R) ℕ
  unfolding tensor_to_torch prune_expired answer_identity find_identity
  torch_identity torch impls t = do
    value ← on_identity_host (tensor_to_torch torch t to_caller)
    pruned ← λ s.
        (Result.done (prune_expired (λ w. impls.expired w s.host.runtime) s.cache.identities), s)
    λ s.
        answer_identity (impls.address value) (find_identity (impls.address value) pruned)
          (record s { cache = record s.cache { identities = pruned } })

  -- `TensorIdentity` of a build with libtorch.
  unfoldable pub torch_tensor_identity :
      Torch F X R
      → TorchImpls X R
      → ⦃fl : Float32 F⦄ → Tensor
      → Output
      → Steps (IdentityState F X R) ℕ
  unfolding torch_identity kind tensor_identity
  torch_tensor_identity torch impls t out = do
    need out "tensor_identity: output pointer is null"
    storage ← on_identity_host (on_heap_of (load_storage t.storage))
    if is_torch (kind storage)
        then torch_identity torch impls t
        else on_identity_host (on_heap_of (tensor_identity t out))
