-- ===== src/Inference/Registries.antt =====
-- native/src/inference: the bridges leave the handle registry alone when a session is run.
use Prim.Native.String.{String}
use tensora.Float.{Float32}
use tensora.Heap.{M}
use tensora.Registry.Entries.{inference_session}
use tensora.Steps.{Output}
use tensora.Steps.Frame.{keeping, Keeps, return-Keeps, fail-Keeps}
use tensora.Inference.Bridge.{on_objects, LeavesRegistry, registry_frame, find_in-Keeps}
use tensora.Inference.Stub.{stub}
use tensora.Inference.Runtime.{
  OnnxRuntime, OrtCall, Handlers, Onnx, SessionState, ask, bridge_state, lookup_session,
}
use tensora.Inference.Providers.{Build}
use tensora.Inference.Running.{ort_value_to_tensor, feed, convert, run_session, session_run}
use tensora.Inference.Onnx.{onnx}
use tensora.Prelude.{ℕ, refl, Option, none, some, List, [], ◌∷◌}

module _ (F B : Type 0) where
  on_objects-Keeps : {A : Type 0} (m : M F A) → Keeps (registry_frame F B) (on_objects m)
  unfolding Keeps
  on_objects-Keeps m p = refl

  stub-LeavesRegistry : LeavesRegistry {F = F} {B = B} stub
  unfolding stub
  stub-LeavesRegistry = record {
    session_run =
        λ session names inputs outputs out. search (keeping, fail-Keeps (registry_frame F B));
  }

module _ (F S R : Type 0) where
  ask-Keeps :
      {A : Type 0} (h : Handlers) (call : R → OrtCall A × R)
      → Keeps (registry_frame F (Onnx S R)) (ask h call)
  unfolding Keeps
  ask-Keeps h call p = refl

  bridge_state-Keeps : Keeps (registry_frame F (Onnx S R)) bridge_state
  unfolding Keeps
  bridge_state-Keeps p = refl

  lookup_session-Keeps : (handle : ℕ) → Keeps (registry_frame F (Onnx S R)) (lookup_session handle)
  unfolding lookup_session
  lookup_session-Keeps handle =
      search (keeping, bridge_state-Keeps, find_in-Keeps F (Onnx S R) handle inference_session)
        depth 20

module _ (F O S V R : Type 0) ⦃fl : Float32 F⦄ (ort : OnnxRuntime F O S V R) where
  ort_value_to_tensor-Keeps :
      (value : V) → Keeps (registry_frame F (Onnx S R)) (ort_value_to_tensor ort value)
  unfolding ort_value_to_tensor
  ort_value_to_tensor-Keeps value =
      search (keeping, ask-Keeps F S R, on_objects-Keeps F (Onnx S R)) depth 30

  feed-Keeps : (inputs : List (Option ℕ)) → Keeps (registry_frame F (Onnx S R)) (feed ort inputs)
  unfolding feed
  feed-Keeps [] = return-Keeps (registry_frame F (Onnx S R)) []
  feed-Keeps (none ∷ inputs) = fail-Keeps (registry_frame F (Onnx S R)) (List V) _
  feed-Keeps (some a ∷ inputs) =
      search (keeping, feed-Keeps inputs, ask-Keeps F S R, on_objects-Keeps F (Onnx S R)) depth 20

  convert-Keeps : (outputs : List V) → Keeps (registry_frame F (Onnx S R)) (convert ort outputs)
  unfolding convert
  convert-Keeps [] = return-Keeps (registry_frame F (Onnx S R)) []
  convert-Keeps (output ∷ outputs) =
      search (keeping, convert-Keeps outputs, ort_value_to_tensor-Keeps output) depth 20

  run_session-Keeps :
      (state : SessionState S) (names : List String) (inputs : List (Option ℕ))
      (outputs : List String)
      → Keeps (registry_frame F (Onnx S R)) (run_session ort state names inputs outputs)
  unfolding run_session
  run_session-Keeps state names inputs outputs =
      search (keeping, feed-Keeps, convert-Keeps, ask-Keeps F S R) depth 20

  session_run-Keeps :
      (session : ℕ) (names : List String) (inputs : List (Option ℕ)) (outputs : List String)
      (out : Output)
      → Keeps (registry_frame F (Onnx S R)) (session_run ort session names inputs outputs out)
  unfolding session_run
  session_run-Keeps session names inputs outputs out =
      search (keeping, run_session-Keeps, lookup_session-Keeps F S R) depth 20

  pub onnx-LeavesRegistry : (build : Build) → LeavesRegistry (onnx build ort)
  unfolding onnx
  onnx-LeavesRegistry build = record { session_run = session_run-Keeps }
