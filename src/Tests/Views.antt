-- ===== src/Tests/Views.antt =====
-- A transposed view of a matrix of two rows and three columns, which lies in a longer storage and needs a
-- gradient.
use tensora.Storage.{Storage}
use tensora.Tensor.{Tensor, float32, cpu, logical_storage_index}
use tensora.Heap.{Heap, version}
use tensora.Steps.{Result, to_caller}
use tensora.Backend.Cpu.{transpose2d}
use tensora.Backend.Views.{transpose2d-index}
use tensora.Tests.Kernels.{counting}
use tensora.Prelude.{ℕ, ◌+◌, ◌*◌, true, none, some, [], ◌∷◌, pos, ◌≡◌, refl, arith, get_elem?}

abbrev matrix : Tensor
matrix = record {
  shape = record {
    dimensions = pos 2 ∷ pos 3 ∷ [];
    strides = 3 ∷ 1 ∷ [];
    numel = 6;
    byte_size = 24;
  };
  storage = 0;
  dtype = float32;
  device = cpu;
  device_index = pos 0;
  storage_offset = 2;
  version_counter = 0;
  autograd_meta = some 0;
}

abbrev before : Heap ℕ
before = record {
  storages = Storage.cpu (9 ∷ 9 ∷ 1 ∷ 2 ∷ 3 ∷ 4 ∷ 5 ∷ 6 ∷ []) ∷ [];
  counters = record { value = 0; identity = 1 } ∷ [];
  tensors = matrix ∷ [];
  metas = record { requires_grad = true; is_leaf = true; gradient = none; grad_fn = none } ∷ [];
  next_identity = 2;
  requests = 0;
  allocator = λ n bytes. none;
}

abbrev transposed_heap : Heap ℕ
transposed_heap = (transpose2d 0 to_caller before).1

transposes : transpose2d 0 to_caller before ≡ (Result.done 1, transposed_heap)
unfolding transpose2d version
transposes = refl

transpose2d-index_example :
    (view : Tensor) × (get_elem? transposed_heap.tensors 1 ≡ some view)
    × (view.storage ≡ 0)
    × (view.version_counter ≡ 0)
    × (view.shape.dimensions ≡ pos 3 ∷ pos 2 ∷ [])
    × (logical_storage_index view (2 * 2 + 1) ≡ logical_storage_index matrix (1 * 3 + 2))
transpose2d-index_example =
    transpose2d-index 0 matrix before transposed_heap 1 2 3 3 1 1 2 refl refl refl (omega arith)
      transposes (omega arith) (omega arith)
