-- ===== src/Api/Query.antt =====
-- native/src/c_api.cc: reading a tensor's metadata and its values.
use Prim.Native.String.{String}
use tensora.Core.Status.{Status, ok, fail_argument}
use tensora.Core.Abi.{Reply}
use tensora.Storage.{Copied, is_null, overwrite_at}
use tensora.Tensor.{Tensor, DType, float32, other_dtype, copy_to_host}
use tensora.Heap.{load_storage}
use tensora.Steps.{Result, Output, null_out, to_caller, ◌>>=◌, ◌>>◌, return, need}
use tensora.Runtime.{device_code}
use tensora.Api.{World, on_heap, Exported, exported, lookup_tensor, load}
use tensora.Prelude.{
  ℕ, pos, negsuc, ◌==◌, ◌&&◌, Option, none, some, List, ltb, ℤ, length, if◌then◌else◌,
}

-- `ts_abi_version`
abbrev ts_abi_version : ℕ
ts_abi_version = 5

-- `ts_last_error_message`, after a call with that reply.
abbrev ts_last_error_message : Reply → String
ts_last_error_message r = r.last_error

status_name : ℕ → String
status_name code =
    if code == 0
    then "OK"
    else if code == 1
    then "INVALID_ARGUMENT"
    else if code == 2
    then "INVALID_SHAPE"
    else if code == 3
    then "OUT_OF_MEMORY"
    else if code == 4
    then "UNSUPPORTED"
    else if code == 5
    then "INVALID_HANDLE"
    else if code == 6
    then "INTERNAL_ERROR"
    else if code == 7
    then "MODEL_ERROR"
    else "UNKNOWN_STATUS"

-- `ts_status_name`
unfoldable pub ts_status_name : ℤ → String
unfolding status_name
ts_status_name (pos code) = status_name code
ts_status_name (negsuc code) = "UNKNOWN_STATUS"

abbrev dtype_code : DType → ℕ
dtype_code float32 = 1
dtype_code (other_dtype n) = n

module _ {F : Type 0} where
  -- The queries that store one field of the tensor, and nothing when they fail.
  query : {A : Type 0} → String → String → (Tensor → A) → ℕ → Output → Exported F A
  unfolding lookup_tensor
  query operation message field tensor out =
      exported operation none
        (do need out message; object ← lookup_tensor tensor; t ← load object; return (field t))

  -- `ts_tensor_rank`
  unfoldable pub ts_tensor_rank : ℕ → Output → Exported F ℕ
  unfolding query
  ts_tensor_rank =
      query "tensor_rank" "tensor_rank: output rank pointer is null"
        (λ t. length t.shape.dimensions)

  -- `ts_tensor_dtype`
  unfoldable pub ts_tensor_dtype : ℕ → Output → Exported F ℕ
  unfolding query
  ts_tensor_dtype =
      query "tensor_dtype" "tensor_dtype: output dtype pointer is null" (λ t. dtype_code t.dtype)

  -- `ts_tensor_device`
  unfoldable pub ts_tensor_device : ℕ → Output → Exported F ℕ
  unfolding query
  ts_tensor_device =
      query "tensor_device" "tensor_device: output device pointer is null"
        (λ t. device_code t.device)

  -- `ts_tensor_device_index`
  unfoldable pub ts_tensor_device_index : ℕ → Output → Exported F ℤ
  unfolding query
  ts_tensor_device_index =
      query "tensor_device_index" "tensor_device_index: output device index pointer is null"
        (λ t. t.device_index)

  -- `ts_tensor_numel`
  unfoldable pub ts_tensor_numel : ℕ → Output → Exported F ℕ
  unfolding query
  ts_tensor_numel =
      query "tensor_numel" "tensor_numel: output numel pointer is null" (λ t. t.shape.numel)

-- What `ts_tensor_shape` leaves: its status, the caller's dimensions, and the rank that is stored.
pub record ShapeReply : Type 0 where
  pub status : Status
  pub out_dims : Option (List ℤ)
  pub out_rank : Option ℕ

-- The body of `ts_tensor_shape`, once the tensor is found. The rank is stored before the capacity is
-- looked at.
unfoldable pub store_shape : Tensor → Option (List ℤ) → ℕ → ShapeReply
store_shape t out_dims capacity =
    let rank = length t.shape.dimensions in
    if ltb capacity rank
    then record {
      status = fail_argument "tensor_shape: output dimension capacity is smaller than rank";
      out_dims = out_dims;
      out_rank = some rank;
    }
    else if ltb 0 rank && is_null out_dims
    then record {
      status = fail_argument "tensor_shape: output dimensions pointer is null";
      out_dims = out_dims;
      out_rank = some rank;
    }
    else record {
      status = ok;
      out_dims = overwrite_at t.shape.dimensions out_dims;
      out_rank = some rank;
    }

module _ {F : Type 0} where
  found_shape : Option (List ℤ) → ℕ → Result Tensor × World F → Option ShapeReply
  unfolding store_shape
  found_shape out_dims capacity (Result.done t, w) = some (store_shape t out_dims capacity)
  found_shape out_dims capacity (Result.failed s, w) =
      some (record { status = s; out_dims = out_dims; out_rank = none })
  found_shape out_dims capacity (Result.threw e, w) = none
  found_shape out_dims capacity (Result.undefined, w) = none

  -- `ts_tensor_shape`, with the status that its guard then reports.
  unfoldable pub ts_tensor_shape : ℕ → Option (List ℤ) → ℕ → Output → World F → Option ShapeReply
  unfolding lookup_tensor found_shape
  ts_tensor_shape tensor out_dims capacity null_out w = some (record {
    status = fail_argument "tensor_shape: output rank pointer is null";
    out_dims = out_dims;
    out_rank = none;
  })
  ts_tensor_shape tensor out_dims capacity to_caller w =
      found_shape out_dims capacity ((do object ← lookup_tensor tensor; load object) w)

  -- The body of `ts_tensor_copy_to_host_f32`, once the tensor and its storage are found.
  copy_found : Option (List F) → ℕ → Result (Tensor × Copied F) × World F → Option (Copied F)
  copy_found out_values capacity (Result.done (t, copied), w) =
      if ltb capacity t.shape.numel
      then some (record {
        status = fail_argument "tensor_copy_to_host_f32: output capacity is smaller than tensor";
        out_values = out_values;
        out_written = some 0;
      })
      else if ltb 0 t.shape.numel && is_null out_values
      then some (record {
        status = fail_argument "tensor_copy_to_host_f32: output values pointer is null";
        out_values = out_values;
        out_written = some 0;
      })
      else some copied
  copy_found out_values capacity (Result.failed s, w) =
      some (record { status = s; out_values = out_values; out_written = some 0 })
  copy_found out_values capacity (Result.threw e, w) = none
  copy_found out_values capacity (Result.undefined, w) = none

  -- `ts_tensor_copy_to_host_f32`, with the status that its guard then reports. The reads of the
  -- storage are pure, so they stand before the two checks.
  unfoldable pub ts_tensor_copy_to_host_f32 :
      ℕ → Option (List F) → ℕ → Output → World F → Option (Copied F)
  unfolding lookup_tensor copy_found
  ts_tensor_copy_to_host_f32 tensor out_values capacity null_out w = some (record {
    status = fail_argument "tensor_copy_to_host_f32: output count pointer is null";
    out_values = out_values;
    out_written = none;
  })
  ts_tensor_copy_to_host_f32 tensor out_values capacity to_caller w =
      copy_found out_values capacity (
        (do
          object ← lookup_tensor tensor
          t ← load object
          storage ← on_heap (load_storage t.storage)
          return (t, copy_to_host t storage out_values capacity (some 0)))
          w)
