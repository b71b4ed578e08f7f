-- ===== src/Inference/Resolution.antt =====
-- native/src/inference/onnx_policy.h: the provider that "auto" stands for.
use Prim.Native.String.{String}
use tensora.Steps.{to_caller}
use tensora.Inference.{
  contains_provider, first_candidate, selected, is_known_provider, resolve_provider_from_snapshot,
}
use tensora.Prelude.{
  ◌≡◌, refl, ap, ◌&&◌, Bool, true, false, Option, none, some, List, [], ◌∷◌, ◌++◌, All, Bool-cases,
  inl, inr,
}

-- A provider that ONNX Runtime has and that this build can configure.
abbrev pub usable : List String → List String → String → Bool
usable available configurable name =
    contains_provider available name && contains_provider configurable name

-- The first of the candidates that is usable, and none before it, or that none is.
pub data IsFirst (available configurable candidates : List String) : Option String → Type 0 where
  chosen :
      (before after : List String) (name : String)
      → candidates ≡ before ++ name ∷ after
      → All (λ n. usable available configurable n ≡ false) before
      → usable available configurable name ≡ true
      → IsFirst available configurable candidates (some name)
  nothing :
      All (λ n. usable available configurable n ≡ false) candidates
      → IsFirst available configurable candidates none

skip-IsFirst :
    (available configurable candidates : List String) (c : String) (o : Option String)
    → usable available configurable c ≡ false
    → IsFirst available configurable candidates o
    → IsFirst available configurable (c ∷ candidates) o
skip-IsFirst available configurable candidates c (some _) bad
      (IsFirst.chosen before after name split none_before good) =
    IsFirst.chosen (c ∷ before) after name (ap (◌∷◌ c) split) (bad, none_before) good
skip-IsFirst available configurable candidates c none bad (IsFirst.nothing all) =
    IsFirst.nothing (bad, all)

first_candidate-IsFirst :
    (available configurable candidates : List String)
    → IsFirst available configurable candidates (first_candidate available configurable candidates)
unfolding first_candidate
first_candidate-IsFirst available configurable [] = IsFirst.nothing tt
first_candidate-IsFirst available configurable (c ∷ candidates) =
    elim (Bool-cases (usable available configurable c)) [
      | inl good ↦ rw good (IsFirst.chosen [] candidates c refl tt good)
      | inr bad ↦ rw bad (
          skip-IsFirst available configurable candidates c _ bad
            (first_candidate-IsFirst available configurable candidates))
    ]

-- Resolving "auto" selects the first candidate that is both available and configurable, with none
-- of those before it being so; where no candidate is, the call is UNSUPPORTED and the name empty.
pub resolve_provider_from_snapshot-IsFirst :
    (available configurable candidates : List String)
    → (o : Option String) × IsFirst available configurable candidates o
      × (resolve_provider_from_snapshot "auto" available configurable candidates to_caller
          ≡ (let (s, name) = selected o in (s, some name)))
unfolding resolve_provider_from_snapshot is_known_provider
resolve_provider_from_snapshot-IsFirst available configurable candidates = (
  first_candidate available configurable candidates,
  first_candidate-IsFirst available configurable candidates,
  refl,
)
