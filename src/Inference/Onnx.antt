-- ===== src/Inference/Onnx.antt =====
-- native/src/inference/inference_bridge_onnx.cc: the bridge over ONNX Runtime, as a whole.
use tensora.Float.{Float32}
use tensora.Inference.Bridge.{Bridge}
use tensora.Inference.Runtime.{OnnxRuntime, Onnx}
use tensora.Inference.Providers.{Build}
use tensora.Inference.Sessions
use tensora.Inference.Running.{session_run}

module _ {F O S V R : Type 0} ⦃fl : Float32 F⦄ where
  unfoldable pub onnx : Build → OnnxRuntime F O S V R → Bridge F (Onnx S R)
  unfolding Sessions.is_available Sessions.provider_count Sessions.provider_name
      Sessions.session_create Sessions.session_provider Sessions.session_input_count
      Sessions.session_output_count Sessions.session_input_name Sessions.session_output_name
      session_run Sessions.session_end_profiling Sessions.session_release
  onnx build ort = record {
    is_available = Sessions.is_available;
    provider_count = Sessions.provider_count ort;
    provider_name = Sessions.provider_name ort;
    session_create = Sessions.session_create ort build;
    session_provider = Sessions.session_provider;
    session_input_count = Sessions.session_input_count;
    session_output_count = Sessions.session_output_count;
    session_input_name = Sessions.session_input_name;
    session_output_name = Sessions.session_output_name;
    session_run = session_run ort;
    session_end_profiling = Sessions.session_end_profiling ort;
    session_release = Sessions.session_release;
  }
