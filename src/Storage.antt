-- ===== src/Storage.antt =====
-- native/src/memory: the storage interface, and CPU storage. The element type is a parameter.
pub mod Live
use tensora.Core.Status.{Status, ok, fail_argument}
use tensora.Prelude.{
  ℕ, ◌*◌, ◌%◌, ◌^◌, not, ◌&&◌, Bool, true, false, Option, none, some, List, [], ◌∷◌, ltb,
  if◌then◌else◌, length,
}

-- `StorageKind`
pub data StorageKind : Type 0 where
  cpu_kind torch_kind : StorageKind

-- What a copy to the host leaves: the caller's buffer and count. A pointer is `none` when null.
pub record Copied (A : Type 0) : Type 0 where
  pub status : Status
  pub out_values : Option (List A)
  pub out_written : Option ℕ

-- An object of a class derived from `TensorStorage`: CPU storage holds its values, and of another
-- class the virtual functions are known.
pub data Storage (A : Type 0) : Type 0 where
  cpu : List A → Storage A
  other : StorageKind → ℕ → (Option (List A) → ℕ → Option ℕ → Copied A) → Storage A

-- `vector::empty`
abbrev pub is_empty {ℓ} : {A : Type ℓ} → List A → Bool
is_empty [] = true
is_empty (x ∷ xs) = false

abbrev pub is_null {ℓ} : {A : Type ℓ} → Option A → Bool
is_null none = true
is_null (some a) = false

module _ {A : Type 0} where
  -- `std::copy` to the start of a buffer.
  unfoldable pub overwrite : List A → List A → List A
  overwrite [] buffer = buffer
  overwrite (v ∷ vs) [] = []
  overwrite (v ∷ vs) (b ∷ bs) = v ∷ overwrite vs bs

  abbrev pub overwrite_at : List A → Option (List A) → Option (List A)
  overwrite_at values none = none
  overwrite_at values (some buffer) = some (overwrite values buffer)

  abbrev refuse : Status → Option (List A) → Option ℕ → Copied A
  refuse s out_values written = record {
    status = s;
    out_values = out_values;
    out_written = written;
  }

  -- `CpuStorage::CopyToHostF32`
  unfoldable pub copy_cpu : List A → Option (List A) → ℕ → Option ℕ → Copied A
  copy_cpu values out_values capacity none =
      refuse (fail_argument "cpu storage: output count pointer is null") out_values none
  copy_cpu values out_values capacity (some _) =
      if ltb capacity (length values)
      then refuse (fail_argument "cpu storage: output capacity is too small") out_values (some 0)
      else if not (is_empty values) && is_null out_values
      then refuse (fail_argument "cpu storage: output values pointer is null") out_values (some 0)
      else record {
        status = ok;
        out_values = overwrite_at values out_values;
        out_written = some (length values);
      }

  -- The virtual functions of `TensorStorage`.
  unfoldable pub kind : Storage A → StorageKind
  kind (cpu values) = cpu_kind
  kind (other k bytes copy) = k

  unfoldable pub byte_size : Storage A → ℕ
  byte_size (cpu values) = length values * 4 % 2 ^ 64
  byte_size (other k bytes copy) = bytes

  unfoldable pub copy_storage : Storage A → Option (List A) → ℕ → Option ℕ → Copied A
  unfolding copy_cpu
  copy_storage (cpu values) out_values capacity written =
      copy_cpu values out_values capacity written
  copy_storage (other k bytes copy) out_values capacity written = copy out_values capacity written

  -- `std::dynamic_pointer_cast<CpuStorage>`
  unfoldable pub as_cpu : Storage A → Option (List A)
  as_cpu (cpu values) = some values
  as_cpu (other k bytes copy) = none
