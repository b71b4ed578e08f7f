-- ===== src/Tests/Tensor.antt =====
-- Runs of the model of native/src/tensor/tensor.cc.
use tensora.Core.Status.{ok}
use tensora.Shape.{ShapeInfo}
use tensora.Shape.Product.{product, sizes}
use tensora.Storage.{Storage, overwrite}
use tensora.Tensor.{Tensor, float32, cpu, is_contiguous, logical_storage_index, copy_to_host}
use tensora.Tensor.Layout.{dot, logical_storage_index_lem}
use tensora.Tensor.Contiguous.{IsSound, contiguous-in_order}
use tensora.Tensor.Copy.{logical_values, copy_to_host-logical}
use tensora.Prelude.{ℕ, ◌+◌, ◌%◌, ◌^◌, ◌<◌, ◌≡◌, refl, true, none, some, List, [], ◌∷◌, pos, arith}

abbrev grid_shape : ShapeInfo
grid_shape = record {
  dimensions = pos 2 ∷ pos 3 ∷ [];
  strides = 3 ∷ 1 ∷ [];
  numel = 6;
  byte_size = 24;
}

abbrev grid : Tensor
grid = record {
  shape = grid_shape;
  storage = 0;
  dtype = float32;
  device = cpu;
  device_index = pos 0;
  storage_offset = 0;
  version_counter = 0;
  autograd_meta = none;
}

-- The transposed view of the same storage.
abbrev turned : Tensor
turned = record grid {
  shape = record {
    dimensions = pos 3 ∷ pos 2 ∷ [];
    strides = 1 ∷ 3 ∷ [];
    numel = 6;
    byte_size = 24;
  };
}

abbrev values : List ℕ
values = 10 ∷ 11 ∷ 12 ∷ 20 ∷ 21 ∷ 22 ∷ []

grid-IsSound : IsSound grid.shape
unfolding product
grid-IsSound = record {
  ranks = refl;
  positive = (refl, (refl, tt));
  counted = refl;
  fits = omega arith;
  sized = refl;
}

turned-IsSound : IsSound turned.shape
unfolding product
turned-IsSound = record {
  ranks = refl;
  positive = (refl, (refl, tt));
  counted = refl;
  fits = omega arith;
  sized = refl;
}

turned-within : (i : ℕ) → i < 6 → logical_storage_index turned i < 6
unfolding logical_storage_index
turned-within i h = omega arith

logical_storage_index_lem_example :
    logical_storage_index turned 1 ≡ (0 + dot (sizes (pos 3 ∷ pos 2 ∷ [])) (1 ∷ 3 ∷ []) 1) % 2 ^ 64
logical_storage_index_lem_example = logical_storage_index_lem turned 1 refl (omega arith)

grid-contiguous : is_contiguous grid ≡ true
unfolding is_contiguous
grid-contiguous = refl

contiguous-in_order_example : logical_storage_index grid 4 ≡ 0 + 4
contiguous-in_order_example =
    contiguous-in_order grid 4 grid-IsSound grid-contiguous (omega arith) (omega arith)

copy_to_host-logical_example :
    copy_to_host turned (Storage.cpu values) (some (0 ∷ 0 ∷ 0 ∷ 0 ∷ 0 ∷ 0 ∷ 9 ∷ [])) 6 (some 0)
    ≡ record {
      status = ok;
      out_values = some (10 ∷ 20 ∷ 11 ∷ 21 ∷ 12 ∷ 22 ∷ 9 ∷ []);
      out_written = some 6;
    }
unfolding overwrite logical_values logical_storage_index
copy_to_host-logical_example =
    copy_to_host-logical 0 turned values (0 ∷ 0 ∷ 0 ∷ 0 ∷ 0 ∷ 0 ∷ 9 ∷ []) 6 0 turned-IsSound refl
      refl refl turned-within (omega arith) (omega arith) (omega arith)
