-- ===== src/Tests/Inference.antt =====
-- Runs of the model of native/src/inference/onnx_policy.h.
use Prim.Native.String.{String}
use tensora.Steps.{to_caller}
use tensora.Inference.{selected, resolve_provider_from_snapshot}
use tensora.Inference.Resolution.{IsFirst, resolve_provider_from_snapshot-IsFirst}
use tensora.Prelude.{◌≡◌, Option, some, List, [], ◌∷◌}

abbrev available : List String
available = "CUDAExecutionProvider" ∷ "CPUExecutionProvider" ∷ []

abbrev configurable : List String
configurable = "CPUExecutionProvider" ∷ []

resolve_provider_from_snapshot-IsFirst_example :
    (o : Option String) × IsFirst available configurable available o
    × (resolve_provider_from_snapshot "auto" available configurable available to_caller
        ≡ (let (s, name) = selected o in (s, some name)))
resolve_provider_from_snapshot-IsFirst_example =
    resolve_provider_from_snapshot-IsFirst available configurable available
