-- ===== src/Memory.antt =====
-- The functions of native/src/memory/cpu_storage.cc that make storage, and reads of a tensor's
-- logical elements through `Tensor::CopyToHostF32`.
use Prim.Native.String.{String}
use tensora.Core.Status.{is_ok, fail_argument}
use tensora.Shape.{ShapeInfo, validate_shape}
use tensora.Storage.{Storage, Copied, is_null}
use tensora.Tensor.{Tensor, copy_to_host}
use tensora.Heap.{M, guarded, new_storage, load_storage}
use tensora.Steps.{◌>>=◌, ◌>>◌, Output, need, check, fail, undefined_unless, from_status}
use tensora.Prelude.{
  ℕ, ◌*◌, not, ◌&&◌, Option, none, some, List, [], ◌∷◌, ℤ, pos, get_or, replicate, entries, ltb,
  if◌then◌else◌,
}

-- `vector::data`
abbrev pub pointer_to : {A : Type 0} → A → List A → Option (ℕ → A)
pointer_to d xs = some (λ i. get_or xs i d)

-- `ShapeInfo{}`
abbrev pub default_shape : ShapeInfo
default_shape = record { dimensions = []; strides = []; numel = 0; byte_size = 0 }

-- `dimensions.empty() ? nullptr : dimensions.data()`
abbrev pub dimensions_pointer : List ℤ → Option (ℕ → ℤ)
dimensions_pointer [] = none
dimensions_pointer (d ∷ ds) = pointer_to (pos 0) (d ∷ ds)

module _ {F : Type 0} where
  abbrev pub validated : Option (ℕ → ℤ) → ℕ → M F ShapeInfo
  validated dims rank = from_status (validate_shape dims rank (some default_shape))

  -- `CpuStorage::Filled`
  unfoldable pub filled : ℕ → F → Output → M F ℕ
  filled numel value out = do
    need out "cpu storage: output pointer is null"
    guarded "cpu storage" (numel * 4)
    new_storage (Storage.cpu (replicate numel value))

  abbrev read_entries : Option (ℕ → F) → ℕ → List F
  read_entries none numel = []
  read_entries (some read) numel = entries read 0 numel

  -- `CpuStorage::FromData`
  unfoldable pub from_data : Option (ℕ → F) → ℕ → Output → M F ℕ
  from_data values numel out = do
    need out "cpu storage: output pointer is null"
    check (not (ltb 0 numel && is_null values))
        (fail_argument "cpu storage: input data pointer is null")
    guarded "cpu storage" (numel * 4)
    new_storage (Storage.cpu (read_entries values numel))

  abbrev pub copied_values : Copied F → M F (List F)
  copied_values c = if is_ok c.status then undefined_unless c.out_values else fail c.status

  -- A buffer of the tensor's size, filled by `CopyToHostF32`.
  unfoldable pub read_logical : String → F → Tensor → M F (List F)
  read_logical operation zero t = do
    guarded operation (t.shape.numel * 4)
    storage ← load_storage t.storage
    copied_values
        (copy_to_host t storage (some (replicate t.shape.numel zero)) t.shape.numel (some 0))
