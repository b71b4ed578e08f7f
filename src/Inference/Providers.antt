-- ===== src/Inference/Providers.antt =====
-- native/src/inference/inference_bridge_onnx.cc: the execution providers.
use Prim.Native.String.{String}
use text.Mathlib.Text.{◌==◌ as same_text}
use tensora.Steps.{◌>>=◌, return}
use tensora.Inference.{is_known_provider, contains_provider}
use tensora.Inference.Runtime.{
  ort_invalid_argument, ort_not_implemented, append_cuda, append_openvino, append_migraphx,
  append_dml, append_coreml, disable_mem_pattern, sequential_execution, OnnxRuntime, Handlers,
  Session, ask, throw_ort,
}
use tensora.Prelude.{
  not, ◌&&◌, ◌||◌, Bool, true, false, Option, none, some, List, [], ◌∷◌, if◌then◌else◌,
}

-- `_WIN32`, `__APPLE__`, or neither.
pub data Platform : Type 0 where
  windows apple other_platform : Platform

-- What the build is compiled for: the platform, `TENSORA_WITH_ORT_DML`, `TENSORA_WITH_ORT_COREML`.
pub record Build : Type 0 where
  pub platform : Platform
  pub with_dml : Bool
  pub with_coreml : Bool

-- `CanConfigureProvider`
unfoldable pub can_configure_provider : Build → String → Bool
can_configure_provider build provider =
    if same_text provider "CPUExecutionProvider"
      || same_text provider "CUDAExecutionProvider"
      || same_text provider "OpenVINOExecutionProvider"
      || same_text provider "MIGraphXExecutionProvider"
    then true
    else if build.with_dml && same_text provider "DmlExecutionProvider"
    then true
    else if build.with_coreml && same_text provider "CoreMLExecutionProvider"
    then true
    else false

-- The candidates of `ResolveAutoProvider`.
unfoldable pub auto_candidates : Platform → List String
auto_candidates windows =
    "CUDAExecutionProvider" ∷ "OpenVINOExecutionProvider" ∷ "DmlExecutionProvider"
    ∷ "MIGraphXExecutionProvider" ∷ "CPUExecutionProvider" ∷ []
auto_candidates apple = "CoreMLExecutionProvider" ∷ "CPUExecutionProvider" ∷ []
auto_candidates other_platform =
    "CUDAExecutionProvider" ∷ "MIGraphXExecutionProvider" ∷ "OpenVINOExecutionProvider"
    ∷ "CPUExecutionProvider" ∷ []

-- The loop of `ResolveAutoProvider`, with `IsProviderAvailable` as `contains_provider`.
unfoldable pub first_supported : Build → List String → List String → Option String
first_supported build available [] = none
first_supported build available (candidate ∷ candidates) =
    if contains_provider available candidate && can_configure_provider build candidate
    then some candidate
    else first_supported build available candidates

module _ {F O S V R : Type 0} (ort : OnnxRuntime F O S V R) where
  open ort use {get_available_providers, configure}

  supported_or_throw : Handlers → Option String → Session F S R String
  supported_or_throw h none =
      throw_ort h "No supported ONNX execution provider is available" ort_not_implemented
  supported_or_throw h (some candidate) = return candidate

  -- `ResolveAutoProvider`
  unfoldable pub resolve_auto_provider : Build → Handlers → List String → Session F S R String
  unfolding auto_candidates first_supported supported_or_throw
  resolve_auto_provider build h available =
      supported_or_throw h (first_supported build available (auto_candidates build.platform))

  -- The choice of `ResolveProvider` among the providers that are available.
  unfoldable pub resolve_among : Build → Handlers → String → List String → Session F S R String
  unfolding resolve_auto_provider contains_provider can_configure_provider
  resolve_among build h requested available =
      if same_text requested "auto"
      then resolve_auto_provider build h available
      else if not (contains_provider available requested)
      then throw_ort h "Requested ONNX execution provider is not available" ort_not_implemented
      else if not (can_configure_provider build requested)
      then throw_ort h "Requested ONNX execution provider is not enabled in this Tensora build"
          ort_not_implemented
      else return requested

  -- `ResolveProvider`, with `IsKnownProvider`.
  unfoldable pub resolve_provider : Build → Handlers → String → Session F S R String
  unfolding is_known_provider resolve_among
  resolve_provider build h requested =
      if not (is_known_provider requested)
      then throw_ort h "Unknown ONNX execution provider" ort_invalid_argument
      else (do available ← ask h get_available_providers; resolve_among build h requested available)

  -- `AppendProvider`, with its options given.
  unfoldable pub append_provider : Build → Handlers → O → String → Session F S R O
  append_provider build h options provider =
      if same_text provider "CPUExecutionProvider"
      then return options
      else if same_text provider "CUDAExecutionProvider"
      then ask h (configure append_cuda options)
      else if same_text provider "OpenVINOExecutionProvider"
      then ask h (configure append_openvino options)
      else if same_text provider "MIGraphXExecutionProvider"
      then ask h (configure append_migraphx options)
      else if build.with_dml && same_text provider "DmlExecutionProvider"
      then (do
        without_pattern ← ask h (configure disable_mem_pattern options)
        sequential ← ask h (configure sequential_execution without_pattern)
        ask h (configure (append_dml 0) sequential))
      else if build.with_coreml && same_text provider "CoreMLExecutionProvider"
      then ask h (configure (append_coreml 0) options)
      else throw_ort h "ONNX execution provider cannot be configured" ort_not_implemented
