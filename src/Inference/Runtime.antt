-- ===== src/Inference/Runtime.antt =====
-- native/src/inference/inference_bridge_onnx.cc: what it uses of ONNX Runtime, which is a parameter,
-- how its exceptions become statuses, and the state of the bridge.
use Prim.Native.String.{String, ◌++◌ as joined}
use tensora.Core.Guard.{Exception, bad_alloc}
use tensora.Core.Status.{Status, fail_argument, fail_unsupported, fail_model, fail_memory}
use tensora.Registry.Entries.{inference_session}
use tensora.Steps.{Result, ◌>>=◌, ◌>>◌, return, fail, undefined_unless}
use tensora.Inference.Bridge.{Infer, find_in}
use tensora.Prelude.{
  true, false, ℕ, Bool, Option, none, some, List, [], ◌∷◌, ◌++◌, ℤ, length, get_elem?, set,
}

-- `OrtErrorCode`, as far as the code looks at it.
pub data OrtErrorCode : Type 0 where
  ort_no_suchfile ort_invalid_graph ort_invalid_protobuf ort_model_loaded : OrtErrorCode
  ort_invalid_argument ort_not_implemented : OrtErrorCode
  other_ort_code : ℕ → OrtErrorCode

-- An `Ort::Exception`, with its code and its text.
pub record OrtError : Type 0 where
  pub code : OrtErrorCode
  pub what : String

-- What a call of ONNX Runtime gives: a value, an `Ort::Exception`, or another exception.
pub data OrtCall (A : Type 0) : Type 0 where
  answered : A → OrtCall A
  ort_threw : OrtError → OrtCall A
  threw_other : Exception → OrtCall A

-- `ONNXTensorElementDataType`
pub data ElementType : Type 0 where
  float_element : ElementType
  other_element : ℕ → ElementType

abbrev pub is_float_element : ElementType → Bool
is_float_element float_element = true
is_float_element (other_element n) = false

-- The calls on `Ort::SessionOptions`.
pub data OptionCall : Type 0 where
  enable_all_optimizations append_cuda append_openvino append_migraphx : OptionCall
  disable_mem_pattern sequential_execution : OptionCall
  append_dml append_coreml : ℕ → OptionCall
  enable_profiling : String → OptionCall

-- ONNX Runtime: `O` are session options, `S` sessions, `V` values, and `R` is its own state. The last
-- six are functions of a value; those of its type and shape go by `GetTensorTypeAndShapeInfo()`.
pub record OnnxRuntime (F O S V R : Type 0) : Type 0 where
  pub get_available_providers : R → OrtCall (List String) × R
  pub create_environment : R → OrtCall (Unit {0}) × R
  pub disable_telemetry_events : R → OrtCall (Unit {0}) × R
  pub new_options : R → OrtCall O × R
  pub configure : OptionCall → O → R → OrtCall O × R
  pub new_session : String → O → R → OrtCall S × R
  pub get_input_count : S → R → OrtCall ℕ × R
  pub get_input_name : S → ℕ → R → OrtCall String × R
  pub input_element_type : S → ℕ → R → OrtCall ElementType × R
  pub get_output_count : S → R → OrtCall ℕ × R
  pub get_output_name : S → ℕ → R → OrtCall String × R
  pub output_element_type : S → ℕ → R → OrtCall ElementType × R
  pub create_cpu_memory_info : R → OrtCall (Unit {0}) × R
  pub create_tensor : List F → List ℤ → R → OrtCall V × R
  pub run : S → List String → List V → List String → R → OrtCall (List V) × R
  pub end_profiling_allocated : S → R → OrtCall String × R
  pub is_tensor : V → R → OrtCall Bool × R
  pub get_element_type : V → R → OrtCall ElementType × R
  pub get_shape : V → R → OrtCall (List ℤ) × R
  pub get_element_count : V → R → OrtCall ℕ × R
  pub get_tensor_data : V → R → OrtCall (Option (ℕ → F)) × R

-- `OrtFailure`
unfoldable pub ort_failure : String → OrtError → Status
ort_failure operation error = elim error.code [
  | ort_no_suchfile ↦ fail_model (joined (joined operation ": ") error.what)
  | ort_invalid_graph ↦ fail_model (joined (joined operation ": ") error.what)
  | ort_invalid_protobuf ↦ fail_model (joined (joined operation ": ") error.what)
  | ort_model_loaded ↦ fail_model (joined (joined operation ": ") error.what)
  | ort_invalid_argument ↦ fail_argument (joined (joined operation ": ") error.what)
  | ort_not_implemented ↦ fail_unsupported (joined (joined operation ": ") error.what)
  | other_ort_code n ↦ fail_model (joined (joined operation ": ") error.what)
]

-- `SessionState`, without its mutex.
pub record SessionState (S : Type 0) : Type 0 where
  pub selected_provider : String
  pub session : S
  pub input_names : List String
  pub output_names : List String
  pub profiling_enabled : Bool
  pub profiling_ended : Bool
  pub profiling_path : String

-- The bridge: the sessions that were made, ONNX Runtime, and which of the two static variables of
-- `Environment` have been initialised.
pub record Onnx (S R : Type 0) : Type 0 where
  pub sessions : List (SessionState S)
  pub runtime : R
  pub environment_made : Bool
  pub telemetry_disabled : Bool

-- The handlers around a call: the operation that `OrtFailure` names, and the one that a handler of
-- `std::bad_alloc` names, where there is such a handler.
pub record Handlers : Type 0 where
  pub ort : String
  pub memory : Option String

-- A step of the bridge.
abbrev pub Session : Type 0 → Type 0 → Type 0 → Type 0 → Type 0
Session F S R A = Infer F (Onnx S R) A

-- What leaves a `try` block with these handlers.
unfoldable pub handled : {A : Type 0} → Handlers → OrtCall A → Result A
unfolding ort_failure
handled h (answered a) = Result.done a
handled h (ort_threw e) = Result.failed (ort_failure h.ort e)
handled h (threw_other bad_alloc) = elim h.memory [
  | none ↦ Result.threw bad_alloc
  | some operation ↦ Result.failed (fail_memory (joined operation ": allocation failed"))
]
handled h (threw_other e) = Result.threw e

module _ {F S R : Type 0} where
  -- A call of ONNX Runtime under these handlers.
  abbrev pub ask : {A : Type 0} → Handlers → (R → OrtCall A × R) → Session F S R A
  ask h call p =
      let (c, r) = call p.bridge.runtime in
      (handled h c, record p { bridge = record p.bridge { runtime = r } })

  -- `throw Ort::Exception(what, code)`
  abbrev pub throw_ort : {A : Type 0} → Handlers → String → OrtErrorCode → Session F S R A
  throw_ort h what code = fail (ort_failure h.ort (record { code = code; what = what }))

  abbrev pub bridge_state : Session F S R (Onnx S R)
  bridge_state p = (Result.done p.bridge, p)

  abbrev pub store_bridge : Onnx S R → Session F S R (Unit {0})
  store_bridge b p = (Result.done tt, record p { bridge = b })

  -- `LookupSession`: the number of the state, and the state.
  unfoldable pub lookup_session : ℕ → Session F S R (ℕ × SessionState S)
  lookup_session handle = do
    a ← find_in handle inference_session
    b ← bridge_state
    state ← undefined_unless (get_elem? b.sessions a)
    return (a, state)

  abbrev pub store_session : ℕ → SessionState S → Session F S R (Unit {0})
  store_session a state = do
    b ← bridge_state
    store_bridge (record b { sessions = set b.sessions a state })

  -- `make_shared<SessionState>`
  abbrev pub new_session_state : SessionState S → Session F S R ℕ
  new_session_state state = do
    b ← bridge_state
    store_bridge (record b { sessions = b.sessions ++ state ∷ [] })
    return (length b.sessions)
