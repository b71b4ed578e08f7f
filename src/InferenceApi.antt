-- ===== src/InferenceApi.antt =====
-- native/src/inference/inference_c_api.cc: the exported functions of inference, over a bridge. This
-- file has the texts that they copy out, and all functions but the run of a session.
pub mod Run
pub mod Insertion
pub mod Rollback
use Prim.Native.Char.{code}
use Prim.Native.String.{String, ◌++◌}
use tensora.Core.Guard.{returns}
use tensora.Core.Abi.{Reply, abi_reply}
use tensora.Core.Status.{Status, ok, fail_argument}
use tensora.Registry.Entries.{inference_session}
use tensora.Registry.{count}
use tensora.Storage.{is_null}
use tensora.Steps.{Result, ◌>>=◌, ◌>>◌, check, fail, Output, null_out, to_caller, need}
use tensora.Api.{Answer, reset, conclude}
use tensora.Inference.Bridge.{Host, Infer, Bridge}
use tensora.Prelude.{ℕ, ◌+◌, ◌==◌, not, Bool, Option, none, some, ltb, if◌then◌else◌}

-- `std::string::size`: the bytes of UTF-8.
unfoldable pub size : String → ℕ
size String.[] = 0
size (String.◌∷◌ c s) =
    let rest = size s in
    (if ltb (code c) 128
      then 1
      else if ltb (code c) 2048
      then 2
      else if ltb (code c) 65536
      then 3
      else 4)
    + rest

-- What a copy of a text leaves: the status, the text that is written with the zero behind it, and the
-- required size that is written.
pub record CopiedText : Type 0 where
  pub status : Status
  pub text : Option String
  pub required : Option ℕ

-- `CopyUtf8String`. The buffer is to_caller when it is not null.
unfoldable pub copy_utf8_string : String → Output → ℕ → Output → String → CopiedText
unfolding size
copy_utf8_string value out_value capacity null_out operation = record {
  status = fail_argument (operation ++ ": output required-size pointer is null");
  text = none;
  required = none;
}
copy_utf8_string value out_value capacity to_caller operation =
    let required = size value + 1 in
    if capacity == 0
    then record { status = ok; text = none; required = some required }
    else elim out_value [
      | null_out ↦ record {
        status = fail_argument (operation ++ ": output buffer pointer is null");
        text = none;
        required = some required;
      }
      | to_caller ↦
          if ltb capacity required
          then record {
            status = fail_argument (operation ++ ": output buffer capacity is too small");
            text = none;
            required = some required;
          }
          else record { status = ok; text = some value; required = some required }
    ]

-- A function of the interface.
abbrev pub Opened : Type 0 → Type 0 → Type 0 → Type 0
Opened F B A = Host F B → Option (Answer A) × Host F B

abbrev pub opened : {F B A : Type 0} → String → Option A → Infer F B A → Opened F B A
opened operation left body p = conclude operation left (body p)

-- What a null prefix stands for.
given_or_empty : Option String → String
given_or_empty none = ""
given_or_empty (some text) = text

module _ {F B : Type 0} where
  -- A guarded body that asks for a text and copies it to the caller.
  copied_out :
      String
      → Output
      → ℕ
      → Output
      → Result String × Host F B
      → Option (Answer CopiedText) × Host F B
  unfolding copy_utf8_string
  copied_out operation out_value capacity out_required (Result.done value, p) =
      let c = copy_utf8_string value out_value capacity out_required operation in
      (some (record { reply = abi_reply operation (returns c.status); written = some c }), p)
  copied_out operation out_value capacity out_required (Result.failed e, p) =
      conclude operation none (Result.failed e, p)
  copied_out operation out_value capacity out_required (Result.threw e, p) =
      conclude operation none (Result.threw e, p)
  copied_out operation out_value capacity out_required (Result.undefined, p) = (none, p)

  abbrev text_of :
      String → Output → ℕ → Output → (Output → Infer F B String) → Opened F B CopiedText
  text_of operation out_value capacity out_required value p =
      copied_out operation out_value capacity out_required (value to_caller p)

  -- `ts_runtime_live_onnx_session_count`
  unfoldable pub ts_runtime_live_onnx_session_count : Output → Opened F B ℕ
  ts_runtime_live_onnx_session_count out = opened "runtime_live_onnx_session_count" none (do
    need out "runtime_live_onnx_session_count: output pointer is null"
    λ p. (Result.done (count inference_session p.world.registry), p))

  module _ (bridge : Bridge F B) where
    open bridge use {
      is_available, provider_count, provider_name, session_create, session_provider,
      session_input_count, session_output_count, session_input_name, session_output_name,
      session_end_profiling, session_release,
    }

    -- `ts_onnx_available`
    unfoldable pub ts_onnx_available : Output → Opened F B ℕ
    ts_onnx_available out = opened "onnx_available" none (is_available out)

    -- `ts_onnx_provider_count`
    unfoldable pub ts_onnx_provider_count : Output → Opened F B ℕ
    ts_onnx_provider_count out = opened "onnx_provider_count" (reset out 0) (provider_count out)

    -- `ts_onnx_provider_name`
    unfoldable pub ts_onnx_provider_name : ℕ → Output → ℕ → Output → Opened F B CopiedText
    unfolding copied_out
    ts_onnx_provider_name index out_name capacity out_required =
        text_of "onnx_provider_name" out_name capacity out_required (provider_name index)

    create_with : Option String → Option String → ℕ → Option String → Output → Infer F B ℕ
    unfolding given_or_empty
    create_with none requested profiling prefix out =
        fail (fail_argument "onnx_session_create_with_provider: model path pointer is null")
    create_with (some model_path) none profiling prefix out =
        fail (fail_argument "onnx_session_create_with_provider: provider pointer is null")
    create_with (some model_path) (some requested) profiling prefix out =
        session_create model_path requested (not (profiling == 0)) (given_or_empty prefix) out

    -- `ts_onnx_session_create_with_provider`
    unfoldable pub ts_onnx_session_create_with_provider :
        Option String → Option String → ℕ → Option String → Output → Opened F B ℕ
    unfolding create_with
    ts_onnx_session_create_with_provider model_path requested profiling prefix out =
        opened "onnx_session_create_with_provider" (reset out 0) (do
          need out "onnx_session_create_with_provider: output handle pointer is null"
          create_with model_path requested profiling prefix out)

    -- `ts_onnx_session_create`
    unfoldable pub ts_onnx_session_create :
        Option String → ℕ → Option String → Output → Opened F B ℕ
    unfolding ts_onnx_session_create_with_provider
    ts_onnx_session_create model_path profiling prefix out =
        ts_onnx_session_create_with_provider model_path (some "auto") profiling prefix out

    -- `ts_onnx_session_provider`
    unfoldable pub ts_onnx_session_provider : ℕ → Output → ℕ → Output → Opened F B CopiedText
    unfolding copied_out
    ts_onnx_session_provider session out_provider capacity out_required =
        text_of "onnx_session_provider" out_provider capacity out_required
          (session_provider session)

    -- `ts_onnx_session_input_count`
    unfoldable pub ts_onnx_session_input_count : ℕ → Output → Opened F B ℕ
    ts_onnx_session_input_count session out =
        opened "onnx_session_input_count" (reset out 0) (session_input_count session out)

    -- `ts_onnx_session_output_count`
    unfoldable pub ts_onnx_session_output_count : ℕ → Output → Opened F B ℕ
    ts_onnx_session_output_count session out =
        opened "onnx_session_output_count" (reset out 0) (session_output_count session out)

    -- `ts_onnx_session_input_name`
    unfoldable pub ts_onnx_session_input_name : ℕ → ℕ → Output → ℕ → Output → Opened F B CopiedText
    unfolding copied_out
    ts_onnx_session_input_name session index out_name capacity out_required =
        text_of "onnx_session_input_name" out_name capacity out_required
          (session_input_name session index)

    -- `ts_onnx_session_output_name`
    unfoldable pub ts_onnx_session_output_name : ℕ → ℕ → Output → ℕ → Output → Opened F B CopiedText
    unfolding copied_out
    ts_onnx_session_output_name session index out_name capacity out_required =
        text_of "onnx_session_output_name" out_name capacity out_required
          (session_output_name session index)

    -- `ts_onnx_session_end_profiling`
    unfoldable pub ts_onnx_session_end_profiling : ℕ → Output → ℕ → Output → Opened F B CopiedText
    unfolding copied_out
    ts_onnx_session_end_profiling session out_path capacity out_required =
        text_of "onnx_session_end_profiling" out_path capacity out_required
          (session_end_profiling session)

    -- `ts_onnx_session_release`
    unfoldable pub ts_onnx_session_release : ℕ → Opened F B (Unit {0})
    ts_onnx_session_release session = opened "onnx_session_release" none (session_release session)
