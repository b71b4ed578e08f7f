-- ===== src/Inference.antt =====
-- native/src/inference/onnx_policy.h: the choice of an execution provider, and the checks that need
-- nothing of ONNX Runtime.
pub mod Resolution
pub mod Bridge
pub mod Stub
pub mod Runtime
pub mod Providers
pub mod Sessions
pub mod Running
pub mod Onnx
pub mod Registries
pub mod Agreement
pub mod Profiling
pub mod Inputs
use Prim.Native.String.{String, ◌++◌}
use text.Mathlib.Text.{◌==◌ as same_text}
use tensora.Core.Status.{Status, ok, fail_argument, fail_unsupported, fail_model}
use tensora.Steps.{Output, null_out, to_caller}
use tensora.Prelude.{
  ℕ, ◌==◌, not, ◌&&◌, ◌||◌, Bool, true, false, Option, none, some, List, [], ◌∷◌, if◌then◌else◌,
}

-- `ContainsProvider`
unfoldable pub contains_provider : List String → String → Bool
contains_provider [] provider = false
contains_provider (name ∷ providers) provider =
    same_text name provider || contains_provider providers provider

-- `IsKnownProvider`
unfoldable pub is_known_provider : String → Bool
is_known_provider provider =
    same_text provider "auto"
    || same_text provider "CPUExecutionProvider"
    || same_text provider "CUDAExecutionProvider"
    || same_text provider "DmlExecutionProvider"
    || same_text provider "CoreMLExecutionProvider"
    || same_text provider "OpenVINOExecutionProvider"
    || same_text provider "MIGraphXExecutionProvider"

-- The loop over the candidates.
unfoldable pub first_candidate : List String → List String → List String → Option String
first_candidate available configurable [] = none
first_candidate available configurable (candidate ∷ candidates) =
    if contains_provider available candidate && contains_provider configurable candidate
    then some candidate
    else first_candidate available configurable candidates

abbrev pub selected : Option String → Status × String
selected none = (fail_unsupported "onnx provider: no supported execution provider is available", "")
selected (some candidate) = (ok, candidate)

-- `ResolveProviderFromSnapshot`: the status, and what is in the output string, `none` for a null
-- pointer.
unfoldable pub resolve_provider_from_snapshot :
    String → List String → List String → List String → Output → Status × Option String
unfolding is_known_provider contains_provider first_candidate
resolve_provider_from_snapshot requested available configurable candidates null_out =
    (fail_argument "onnx provider: output string pointer is null", none)
resolve_provider_from_snapshot requested available configurable candidates to_caller =
    if not (is_known_provider requested)
    then (fail_argument "onnx provider: unknown execution provider", some "")
    else if same_text requested "auto"
    then (let (s, name) = selected (first_candidate available configurable candidates) in
        (s, some name))
    else if not (contains_provider available requested)
    then (fail_unsupported "onnx provider: requested execution provider is not available", some "")
    else if not (contains_provider configurable requested)
    then (
      fail_unsupported
          "onnx provider: requested execution provider is not enabled in this Tensora build",
      some "",
    )
    else (ok, some requested)

-- `ValidateTensorElementCount`
unfoldable pub validate_tensor_element_count : ℕ → ℕ → String → Status
validate_tensor_element_count expected actual operation =
    if not (expected == actual)
    then fail_model (operation ++ ": shape and element count are inconsistent")
    else ok
