-- ===== src/Core/Status.antt =====
-- native/src/core/status.h and status.cc, with the status codes of native/include/tensora.h.
use Prim.Native.String.{String}
use tensora.Prelude.{ℕ, Bool, true, false}

-- The first anonymous enum of tensora.h.
pub data StatusCode : Type 0 where
  ts_ok invalid_argument invalid_shape out_of_memory unsupported invalid_handle : StatusCode
  internal_error model_error : StatusCode

-- Their values at the C boundary.
abbrev pub code_value : StatusCode → ℕ
code_value ts_ok = 0
code_value invalid_argument = 1
code_value invalid_shape = 2
code_value out_of_memory = 3
code_value unsupported = 4
code_value invalid_handle = 5
code_value internal_error = 6
code_value model_error = 7

pub record Status : Type 0 where
  pub code : StatusCode
  pub message : String

-- `Status::Ok()`
abbrev pub ok : Status
ok = record { code = ts_ok; message = "" }

abbrev pub is_ts_ok : StatusCode → Bool
is_ts_ok ts_ok = true
is_ts_ok _ = false

-- `Status::ok()`
abbrev pub is_ok : Status → Bool
is_ok s = is_ts_ok s.code

-- The named constructors of status.cc.
abbrev pub fail_argument : String → Status
fail_argument m = record { code = invalid_argument; message = m }

abbrev pub fail_shape : String → Status
fail_shape m = record { code = invalid_shape; message = m }

abbrev pub fail_memory : String → Status
fail_memory m = record { code = out_of_memory; message = m }

abbrev pub fail_unsupported : String → Status
fail_unsupported m = record { code = unsupported; message = m }

abbrev pub fail_handle : String → Status
fail_handle m = record { code = invalid_handle; message = m }

abbrev pub fail_internal : String → Status
fail_internal m = record { code = internal_error; message = m }

abbrev pub fail_model : String → Status
fail_model m = record { code = model_error; message = m }
