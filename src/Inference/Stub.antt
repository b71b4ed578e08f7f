-- ===== src/Inference/Stub.antt =====
-- native/src/inference/inference_bridge_stub.cc: the bridge of a build without ONNX Runtime.
use Prim.Native.String.{String, ◌++◌}
use tensora.Core.Status.{Status, fail_unsupported}
use tensora.Steps.{◌>>◌, return, fail, Output, need}
use tensora.Inference.Bridge.{Infer, Bridge}
use tensora.Prelude.{ℕ, Bool, Option, List}

-- `Disabled`
unfoldable pub disabled : String → Status
disabled operation = fail_unsupported (operation ++ ": ONNX Runtime backend is not enabled")

module _ {F B : Type 0} where
  -- `IsAvailable`
  is_available : Output → Infer F B ℕ
  is_available out = do need out "onnx_available: output pointer is null"; return 0

  -- `ProviderCount`
  provider_count : Output → Infer F B ℕ
  provider_count out = do need out "onnx_provider_count: output pointer is null"; return 0

  -- `ProviderName`
  provider_name : ℕ → Output → Infer F B String
  unfolding disabled
  provider_name index out = do
    need out "onnx_provider_name: output string pointer is null"
    fail (disabled "onnx_provider_name")

  -- `SessionCreate`
  session_create : String → String → Bool → String → Output → Infer F B ℕ
  unfolding disabled
  session_create model_path provider enable_profiling prefix out = do
    need out "onnx_session_create: output handle pointer is null"
    fail (disabled "onnx_session_create")

  -- `SessionProvider`
  session_provider : ℕ → Output → Infer F B String
  unfolding disabled
  session_provider session out = do
    need out "onnx_session_provider: output string pointer is null"
    fail (disabled "onnx_session_provider")

  -- `SessionInputCount`
  session_input_count : ℕ → Output → Infer F B ℕ
  unfolding disabled
  session_input_count session out = do
    need out "onnx_session_input_count: output pointer is null"
    fail (disabled "onnx_session_input_count")

  -- `SessionOutputCount`
  session_output_count : ℕ → Output → Infer F B ℕ
  unfolding disabled
  session_output_count session out = do
    need out "onnx_session_output_count: output pointer is null"
    fail (disabled "onnx_session_output_count")

  -- `SessionInputName`
  session_input_name : ℕ → ℕ → Output → Infer F B String
  unfolding disabled
  session_input_name session index out = do
    need out "onnx_session_input_name: output string pointer is null"
    fail (disabled "onnx_session_input_name")

  -- `SessionOutputName`
  session_output_name : ℕ → ℕ → Output → Infer F B String
  unfolding disabled
  session_output_name session index out = do
    need out "onnx_session_output_name: output string pointer is null"
    fail (disabled "onnx_session_output_name")

  -- `SessionRun`
  session_run :
      ℕ → List String → List (Option ℕ) → List String → Output → Infer F B (List (Option ℕ))
  unfolding disabled
  session_run session input_names inputs output_names out = do
    need out "onnx_session_run: output vector pointer is null"
    fail (disabled "onnx_session_run")

  -- `SessionEndProfiling`
  session_end_profiling : ℕ → Output → Infer F B String
  unfolding disabled
  session_end_profiling session out = do
    need out "onnx_session_end_profiling: output string pointer is null"
    fail (disabled "onnx_session_end_profiling")

  -- `SessionRelease`
  session_release : ℕ → Infer F B (Unit {0})
  unfolding disabled
  session_release session = fail (disabled "onnx_session_release")

  -- The functions of the bridge together.
  unfoldable pub stub : Bridge F B
  unfolding is_available provider_count provider_name session_create session_provider
      session_input_count session_output_count session_input_name session_output_name session_run
      session_end_profiling session_release
  stub = record {
    is_available = is_available;
    provider_count = provider_count;
    provider_name = provider_name;
    session_create = session_create;
    session_provider = session_provider;
    session_input_count = session_input_count;
    session_output_count = session_output_count;
    session_input_name = session_input_name;
    session_output_name = session_output_name;
    session_run = session_run;
    session_end_profiling = session_end_profiling;
    session_release = session_release;
  }
