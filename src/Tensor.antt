-- ===== src/Tensor.antt =====
-- native/src/tensor/tensor.h and tensor.cc: a tensor is metadata over a storage that views share.
pub mod Layout
pub mod Contiguous
pub mod Copy
use tensora.Core.Status.{Status, ok, fail_argument, fail_internal, fail_unsupported, is_ok}
use tensora.Shape.{ShapeInfo}
use tensora.Storage.{Storage, Copied, copy_storage, as_cpu, byte_size, is_null}
use tensora.Prelude.{
  ℕ, zero, suc, ◌+◌, ◌*◌, ◌/◌, ◌%◌, ◌^◌, not, ◌&&◌, Bool, true, false, Option, none, some, List, [],
  ◌∷◌, ℤ, pos, to_u64, eq_ℤ, ltb, ◌==◌, if◌then◌else◌, length, get_or, get_elem?, set,
}

-- `DType`: the enumerator, and any other value of the underlying integer.
pub data DType : Type 0 where
  float32 : DType
  other_dtype : ℕ → DType

pub data Device : Type 0 where
  cpu cuda mps xpu hip : Device

-- The fields of `Tensor`. What a `shared_ptr` points to is named by its number in the heap.
pub record Tensor : Type 0 where
  pub shape : ShapeInfo
  pub storage : ℕ
  pub dtype : DType
  pub device : Device
  pub device_index : ℤ
  pub storage_offset : ℕ
  pub version_counter : ℕ
  pub autograd_meta : Option ℕ

abbrev pub is_float32 : DType → Bool
is_float32 float32 = true
is_float32 (other_dtype n) = false

abbrev pub is_cpu : Device → Bool
is_cpu cpu = true
is_cpu _ = false

-- The loop of `is_contiguous`, from the last dimension down.
unfoldable pub contiguous_from : ℕ → List ℤ → List ℕ → ℕ → Bool
contiguous_from zero dims strides expected = true
contiguous_from (suc i) dims strides expected =
    if get_or strides i 0 == expected
    then contiguous_from i dims strides (expected * to_u64 (get_or dims i (pos 0)) % 2 ^ 64)
    else false

-- `Tensor::is_contiguous`
unfoldable pub is_contiguous : Tensor → Bool
unfolding contiguous_from
is_contiguous t = contiguous_from (length t.shape.dimensions) t.shape.dimensions t.shape.strides 1

-- The loop of `logical_storage_index`, from the last dimension down.
unfoldable pub index_from : ℕ → List ℤ → List ℕ → ℕ → ℕ → ℕ
index_from zero dims strides remaining index = index
index_from (suc i) dims strides remaining index =
    let dimension = to_u64 (get_or dims i (pos 0)) in
    index_from i dims strides (remaining / dimension)
      ((index + remaining % dimension * get_or strides i 0 % 2 ^ 64) % 2 ^ 64)

-- `Tensor::logical_storage_index`
unfoldable pub logical_storage_index : Tensor → ℕ → ℕ
unfolding index_from
logical_storage_index t logical_index =
    index_from (length t.shape.dimensions) t.shape.dimensions t.shape.strides logical_index
      t.storage_offset

abbrev pub is_count : ℕ → Option ℕ → Bool
is_count numel none = false
is_count numel (some n) = n == numel

module _ {A : Type 0} where
  -- The loop over `logical_index`, with the number of rounds left.
  pub copy_loop : Tensor → List A → ℕ → ℕ → List A → Copied A
  copy_loop t values zero i buffer = record {
    status = ok;
    out_values = some buffer;
    out_written = some t.shape.numel;
  }
  copy_loop t values (suc n) i buffer = elim (get_elem? values (logical_storage_index t i)) [
    | none ↦ record {
      status = fail_internal "tensor copy: view layout exceeds backing storage";
      out_values = some buffer;
      out_written = some 0;
    }
    | some v ↦ copy_loop t values n (suc i) (set buffer i v)
  ]

  -- After the storage's own copy: its count must be the tensor's.
  check_written : Tensor → Copied A → Copied A
  check_written t c =
      if not (is_ok c.status)
      then c
      else if is_count t.shape.numel c.out_written
      then record c { status = ok }
      else record c {
        status = fail_internal "tensor copy: storage returned an inconsistent element count";
        out_written = some 0;
      }

  abbrev refused : Status → Option (List A) → Option ℕ → Copied A
  refused s out_values written = record {
    status = s;
    out_values = out_values;
    out_written = written;
  }

  -- A null buffer comes this far for a tensor without elements only, so that the loop has no round.
  copy_view : Tensor → Option (List A) → Option (List A) → Copied A
  copy_view t none out_values =
      refused (fail_unsupported "tensor copy: tensor is not backed by CPU storage") out_values
        (some 0)
  copy_view t (some values) none = record {
    status = ok;
    out_values = none;
    out_written = some t.shape.numel;
  }
  copy_view t (some values) (some buffer) = copy_loop t values t.shape.numel 0 buffer

  -- `Tensor::CopyToHostF32`
  pub copy_to_host : Tensor → Storage A → Option (List A) → ℕ → Option ℕ → Copied A
  unfolding check_written copy_view
  copy_to_host t storage out_values capacity none =
      refused (fail_argument "tensor copy: output count pointer is null") out_values none
  copy_to_host t storage out_values capacity (some w) =
      if not (is_float32 t.dtype)
      then refused (fail_unsupported "tensor copy: tensor dtype is not float32") out_values (some 0)
      else if ltb capacity t.shape.numel
      then refused (fail_argument "tensor copy: output capacity is smaller than tensor") out_values
          (some 0)
      else if ltb 0 t.shape.numel && is_null out_values
      then refused (fail_argument "tensor copy: output values pointer is null") out_values (some 0)
      else if is_contiguous t && t.storage_offset == 0 && byte_size storage == t.shape.byte_size
      then check_written t (copy_storage storage out_values capacity (some 0))
      else if not (is_cpu t.device && eq_ℤ t.device_index (pos 0))
      then refused
          (fail_unsupported "tensor copy: non-contiguous accelerator views are not qualified yet")
          out_values (some 0)
      else copy_view t (as_cpu storage) out_values
