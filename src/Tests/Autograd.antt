-- ===== src/Tests/Autograd.antt =====
-- A recorded addition, and a backward pass after its operand was modified.
use tensora.Shape.{ShapeInfo}
use tensora.Storage.{Storage}
use tensora.Tensor.{Tensor, float32, cpu}
use tensora.Heap.{GradNode, increment_version, Heap, op_add}
use tensora.Steps.{Result}
use tensora.Autograd.Graph.{validate_saved_versions, grad_fn_of, contains, build_topology}
use tensora.Autograd.Topology.{IsClosed}
use tensora.Autograd.Order.{IsOrdered, ParentsFirst, topology_of-ParentsFirst}
use tensora.Autograd.Backward.{topology_of, backward}
use tensora.Autograd.Versions.{IsNodeCurrent, Stops, is_done, backward-stale}
use tensora.Autograd.Aliases.{increment_version-stale}
use tensora.Tests.Kernels.{counting}
use tensora.Prelude.{
  ℕ, zero, suc, true, false, none, some, List, [], ◌∷◌, ◌≡◌, pos, All, arith, refl,
}

abbrev scalar : ShapeInfo
scalar = record { dimensions = []; strides = []; numel = 1; byte_size = 4 }

abbrev tensor_at : ℕ → Tensor
tensor_at a = record {
  shape = scalar;
  storage = a;
  dtype = float32;
  device = cpu;
  device_index = pos 0;
  storage_offset = 0;
  version_counter = a;
  autograd_meta = some a;
}

-- The second tensor is the sum of the first with itself, whose version was 0 then and is 1 now.
abbrev summed : ℕ → Heap ℕ
summed v = record {
  storages = Storage.cpu (3 ∷ []) ∷ Storage.cpu (6 ∷ []) ∷ [];
  counters = record { value = v; identity = 1 } ∷ record { value = 0; identity = 2 } ∷ [];
  tensors = tensor_at 0 ∷ tensor_at 1 ∷ [];
  metas =
      record { requires_grad = true; is_leaf = true; gradient = none; grad_fn = none }
      ∷ record {
        requires_grad = true;
        is_leaf = false;
        gradient = none;
        grad_fn =
            some
              (record { operation = op_add; parents = 0 ∷ 0 ∷ []; parent_versions = 0 ∷ 0 ∷ [] });
      }
      ∷ [];
  next_identity = 3;
  requests = 0;
  allocator = λ n bytes. none;
}

abbrev modified : Heap ℕ
modified = summed 1

abbrev sum_node : GradNode
sum_node = record { operation = op_add; parents = 0 ∷ 0 ∷ []; parent_versions = 0 ∷ 0 ∷ [] }

-- A view of the first tensor as a row.
abbrev row_view : Tensor
row_view = record (tensor_at 0) {
  shape = record { dimensions = pos 1 ∷ []; strides = 1 ∷ []; numel = 1; byte_size = 4 };
}

modified-IsClosed : IsClosed modified
unfolding grad_fn_of
modified-IsClosed zero = tt
modified-IsClosed (suc zero) = (omega arith, (omega arith, tt))
modified-IsClosed (suc (suc a)) = tt

modified-IsOrdered : IsOrdered modified
unfolding grad_fn_of
modified-IsOrdered zero = tt
modified-IsOrdered (suc zero) = (omega arith, (omega arith, tt))
modified-IsOrdered (suc (suc a)) = tt

modified-stale : ¬ All (λ v. IsNodeCurrent modified (grad_fn_of modified v)) (0 ∷ 1 ∷ [])
unfolding grad_fn_of
modified-stale current = ground (arith, current.1.0.0)

summed-current : All (λ v. IsNodeCurrent (summed 0) (grad_fn_of (summed 0) v)) (0 ∷ 1 ∷ [])
unfolding grad_fn_of
summed-current = (tt, ((refl, (refl, tt)), tt))

topology_of-ParentsFirst_example :
    (topology : List ℕ) × (topology_of 1 modified ≡ (Result.done topology, modified))
    × ParentsFirst modified [] topology
    × (contains 1 topology ≡ true)
topology_of-ParentsFirst_example =
    topology_of-ParentsFirst modified 1 modified-IsOrdered modified-IsClosed (omega arith)

modified-listed : topology_of 1 modified ≡ (Result.done (0 ∷ 1 ∷ []), modified)
unfolding topology_of build_topology grad_fn_of
modified-listed = refl

backward-stale_example : Stops modified (backward 1 modified)
backward-stale_example = backward-stale modified 1 (0 ∷ 1 ∷ []) modified-listed modified-stale

increment_version-stale_example :
    (is_done (increment_version row_view (summed 0)).0 ≡ true)
    × (is_done (validate_saved_versions sum_node (increment_version row_view (summed 0)).1).0
        ≡ false)
increment_version-stale_example =
    increment_version-stale (summed 0) sum_node 0 row_view (tensor_at 0) (refl, (refl, tt)) refl
      refl refl (λ v current. ground (arith, current))
