-- ===== src/Inference/Agreement.antt =====
-- native/src/inference/inference_bridge_onnx.cc and onnx_policy.h: the bridge resolves a provider as the
-- policy does.
use Prim.Native.String.{String}
use text.Mathlib.Text.{◌==◌ as same_text}
use text.Mathlib.TextEquality.{eq_iff}
use tensora.Core.Status.{Status, is_ok}
use tensora.Steps.{Result, to_caller}
use tensora.Inference.{
  is_known_provider, contains_provider, first_candidate, resolve_provider_from_snapshot,
}
use tensora.Inference.Bridge.{Host}
use tensora.Inference.Runtime.{OnnxRuntime, answered, Handlers, Onnx, handled, ort_failure}
use tensora.Inference.Providers.{
  Build, can_configure_provider, auto_candidates, first_supported, resolve_auto_provider,
  resolve_provider,
}
use tensora.Prelude.{
  ◌≡◌, refl, true, false, Option, some, List, [], ◌∷◌, ◌++◌, arith, Bool-cases, Option-cases, inl,
  inr, if◌then◌else◌,
}

-- What a build can configure, as the list that the policy takes.
abbrev pub configurable : Build → List String
configurable build =
    "CPUExecutionProvider"
    ∷ "CUDAExecutionProvider"
    ∷ "OpenVINOExecutionProvider"
    ∷ "MIGraphXExecutionProvider"
    ∷ ((if build.with_dml then "DmlExecutionProvider" ∷ [] else [])
        ++ (if build.with_coreml then "CoreMLExecutionProvider" ∷ [] else []))

same_text_comm : (s t : String) → same_text s t ≡ same_text t s
same_text_comm s t = ground (arith, eq_iff s t, eq_iff t s)

contains_provider-configurable :
    (build : Build) (name : String)
    → contains_provider (configurable build) name ≡ can_configure_provider build name
unfolding contains_provider can_configure_provider
contains_provider-configurable build name = ground (
  arith,
  same_text_comm "CPUExecutionProvider" name,
  same_text_comm "CUDAExecutionProvider" name,
  same_text_comm "OpenVINOExecutionProvider" name,
  same_text_comm "MIGraphXExecutionProvider" name,
  same_text_comm "DmlExecutionProvider" name,
  same_text_comm "CoreMLExecutionProvider" name,
)

first_supported-first_candidate :
    (build : Build) (available candidates : List String)
    → first_supported build available candidates
      ≡ first_candidate available (configurable build) candidates
unfolding first_supported first_candidate
first_supported-first_candidate build available [] = refl
first_supported-first_candidate build available (c ∷ candidates) =
    rw
      (
        contains_provider-configurable build c,
        first_supported-first_candidate build available candidates,
      )
      refl

-- The same name, or a failure with the same code.
abbrev pub Agrees : Status × Option String → Result String → Type 0
Agrees (s, out) (Result.done name) = (is_ok s ≡ true) × (out ≡ some name)
Agrees (s, out) (Result.failed e) = (is_ok s ≡ false) × (e.code ≡ s.code)
Agrees (s, out) (Result.threw e) = ⊥
Agrees (s, out) Result.undefined = ⊥

module _ {F O S V R : Type 0} (ort : OnnxRuntime F O S V R) (build : Build) (h : Handlers) where
  -- When ONNX Runtime lists its providers, ResolveProvider of the bridge and
  -- ResolveProviderFromSnapshot of the policy, given that list, what the build can configure and the
  -- candidates of the platform, select the same provider, or both fail with the same code.
  pub resolve_provider-Agrees :
      (requested : String) (available : List String) (r : R) (p : Host F (Onnx S R))
      → ort.get_available_providers p.bridge.runtime ≡ (answered available, r)
      → Agrees
          (resolve_provider_from_snapshot requested available
            (configurable build)
            (auto_candidates build.platform)
            to_caller)
          (resolve_provider ort build h requested p).0
  unfolding resolve_provider resolve_provider_from_snapshot resolve_auto_provider handled
      ort_failure
  resolve_provider-Agrees requested available r p listed =
      elim (Bool-cases (is_known_provider requested)) [
        | inr unknown ↦ rw unknown (refl, refl)
        | inl known ↦ elim (Bool-cases (same_text requested "auto")) [
          | inl auto ↦
              elim (Option-cases
                (first_candidate available (configurable build) (auto_candidates build.platform))) [
                  | inl nothing ↦
                      rw
                        (
                          known,
                          listed,
                          auto,
                          first_supported-first_candidate build available
                              (auto_candidates build.platform),
                          nothing,
                        )
                        (refl, refl)
                  | inr (name, found) ↦
                      rw
                        (
                          known,
                          listed,
                          auto,
                          first_supported-first_candidate build available
                              (auto_candidates build.platform),
                          found,
                        )
                        (refl, refl)
                ]
          | inr named ↦ elim (Bool-cases (contains_provider available requested)) [
            | inr absent ↦ rw (known, listed, named, absent) (refl, refl)
            | inl present ↦ elim (Bool-cases (can_configure_provider build requested)) [
              | inr off ↦
                  rw
                    (
                      known,
                      listed,
                      named,
                      present,
                      contains_provider-configurable build requested,
                      off,
                    )
                    (refl, refl)
              | inl on ↦
                  rw
                    (
                      known,
                      listed,
                      named,
                      present,
                      contains_provider-configurable build requested,
                      on,
                    )
                    (refl, refl)
            ]
          ]
        ]
      ]
