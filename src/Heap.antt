-- ===== src/Heap.antt =====
-- The objects that the C++ code shares by `shared_ptr`, named by their numbers in lists that only
-- grow, and the code that works on them as a state monad with failure. Lifetimes are not modelled:
-- an object that nothing refers to any more stays in its list.
pub mod Frame
use Prim.Native.String.{String, ◌++◌}
use tensora.Core.Status.{fail_memory}
use tensora.Steps.{done, failed, Steps, ◌>>=◌, return, undefined_unless}
use tensora.Shape.{ShapeInfo}
use tensora.Storage.{Storage}
use tensora.Tensor.{Tensor, DType, Device}
use tensora.Prelude.{
  ℕ, ◌+◌, ◌%◌, ◌^◌, Bool, Option, none, some, List, [], ◌∷◌, ◌++◌ as append, ℤ, length, get_elem?,
  set,
}

-- `Operation`
pub data Operation : Type 0 where
  op_identity op_reshape op_transpose2d op_add op_multiply op_sum op_matmul : Operation
  op_relu op_sigmoid op_tanh op_gelu op_silu op_swiglu : Operation
  op_mse op_cross_entropy op_bias_add : Operation

-- `GradNode`
pub record GradNode : Type 0 where
  pub operation : Operation
  pub parents : List ℕ
  pub parent_versions : List ℕ

-- `AutogradMeta`, without its mutex.
pub record AutogradMeta : Type 0 where
  pub requires_grad : Bool
  pub is_leaf : Bool
  pub gradient : Option ℕ
  pub grad_fn : Option GradNode

-- `TensorVersionCounter`, with the value of its identity anchor.
pub record VersionCounter : Type 0 where
  pub value : ℕ
  pub identity : ℕ

-- How the allocator answers: `none` is success.
pub data AllocFailure : Type 0 where
  bad_alloc : AllocFailure
  length_error : AllocFailure

-- The allocator is asked with the number of requests before and the bytes wanted.
pub record Heap (F : Type 0) : Type 0 where
  pub storages : List (Storage F)
  pub counters : List VersionCounter
  pub tensors : List Tensor
  pub metas : List AutogradMeta
  pub next_identity : ℕ
  pub requests : ℕ
  pub allocator : ℕ → ℕ → Option AllocFailure

abbrev pub M : Type 0 → Type 0 → Type 0
M F A = Steps (Heap F) A

module _ {F : Type 0} where
  abbrev pub load_tensor : ℕ → M F Tensor
  load_tensor a h = undefined_unless (get_elem? h.tensors a) h

  abbrev pub load_storage : ℕ → M F (Storage F)
  load_storage a h = undefined_unless (get_elem? h.storages a) h

  abbrev pub load_counter : ℕ → M F VersionCounter
  load_counter a h = undefined_unless (get_elem? h.counters a) h

  abbrev pub load_meta : ℕ → M F AutogradMeta
  load_meta a h = undefined_unless (get_elem? h.metas a) h

  abbrev pub store_tensor : ℕ → Tensor → M F (Unit {0})
  store_tensor a t h = (done tt, record h { tensors = set h.tensors a t })

  abbrev pub store_storage : ℕ → Storage F → M F (Unit {0})
  store_storage a s h = (done tt, record h { storages = set h.storages a s })

  abbrev pub store_counter : ℕ → VersionCounter → M F (Unit {0})
  store_counter a c h = (done tt, record h { counters = set h.counters a c })

  abbrev pub store_meta : ℕ → AutogradMeta → M F (Unit {0})
  store_meta a m h = (done tt, record h { metas = set h.metas a m })

  abbrev pub new_storage : Storage F → M F ℕ
  new_storage s h = (done (length h.storages), record h { storages = append h.storages (s ∷ []) })

  abbrev pub new_meta : AutogradMeta → M F ℕ
  new_meta m h = (done (length h.metas), record h { metas = append h.metas (m ∷ []) })

  abbrev guard_answer : String → Option AllocFailure → M F (Unit {0})
  guard_answer operation none h = (done tt, h)
  guard_answer operation (some bad_alloc) h =
      (failed (fail_memory (operation ++ ": allocation failed")), h)
  guard_answer operation (some length_error) h =
      (failed (fail_memory (operation ++ ": allocation size is too large")), h)

  -- Asks the allocator for `bytes`, under an `AllocationGuard` of that name.
  unfoldable pub guarded : String → ℕ → M F (Unit {0})
  guarded operation bytes h =
      guard_answer operation (h.allocator h.requests bytes) (record h { requests = h.requests + 1 })

  -- `NewTensorIdentityAnchor` and the constructor of `TensorVersionCounter`.
  unfoldable pub new_counter : M F ℕ
  new_counter h = (
    done (length h.counters),
    record h {
      counters = append h.counters (record { value = 0; identity = h.next_identity } ∷ []);
      next_identity = (h.next_identity + 1) % 2 ^ 64;
    },
  )

  abbrev counter_or_new : Option ℕ → M F ℕ
  counter_or_new (some c) = return c
  counter_or_new none = new_counter

  push_tensor : Tensor → M F ℕ
  push_tensor t h = (done (length h.tensors), record h { tensors = append h.tensors (t ∷ []) })

  -- `make_shared<Tensor>`: a tensor without a version counter gets one of its own.
  unfoldable pub new_tensor : ShapeInfo → ℕ → DType → Device → ℤ → ℕ → Option ℕ → M F ℕ
  unfolding new_counter push_tensor
  new_tensor shape storage dtype device index offset counter = do
    c ← counter_or_new counter
    push_tensor (record {
      shape = shape;
      storage = storage;
      dtype = dtype;
      device = device;
      device_index = index;
      storage_offset = offset;
      version_counter = c;
      autograd_meta = none;
    })

  -- `Tensor::version` and `increment_version`.
  unfoldable pub version : Tensor → M F ℕ
  version t = do c ← load_counter t.version_counter; return c.value

  unfoldable pub increment_version : Tensor → M F (Unit {0})
  increment_version t = do
    c ← load_counter t.version_counter
    store_counter t.version_counter (record c { value = (c.value + 1) % 2 ^ 64 })

  -- `Tensor::set_identity_anchor`: the tensors that share the counter get the identity too.
  unfoldable pub set_identity_anchor : ℕ → ℕ → M F (Unit {0})
  set_identity_anchor tensor identity = do
    t ← load_tensor tensor
    c ← load_counter t.version_counter
    store_counter t.version_counter (record c { identity = identity })

  -- `Tensor::set_autograd_meta`
  unfoldable pub set_autograd_meta : ℕ → Option ℕ → M F (Unit {0})
  set_autograd_meta tensor meta = do
    t ← load_tensor tensor
    store_tensor tensor (record t { autograd_meta = meta })
