-- ===== src/Inference/Sessions.antt =====
-- native/src/inference/inference_bridge_onnx.cc: sessions are made, asked for their names, profiled and
-- released.
use Prim.Native.String.{String}
use tensora.Core.Status.{fail_argument}
use tensora.Registry.Entries.{inference_session}
use tensora.Registry.{Registry, release}
use tensora.Core.Status.{Status}
use tensora.Core.Abi.{is_empty as is_empty_text}
use tensora.Steps.{Result, ◌>>=◌, ◌>>◌, return, check, undefined_unless, from_status, Output, need}
use tensora.Inference.Bridge.{Host, insert_in}
use tensora.Inference.Runtime.{
  ort_not_implemented, ElementType, is_float_element, OrtCall, OnnxRuntime, Handlers, SessionState,
  Onnx, Session, ask, throw_ort, bridge_state, store_bridge, lookup_session, store_session,
  new_session_state, enable_all_optimizations, enable_profiling,
}
use tensora.Inference.Providers.{Build, resolve_provider, append_provider}
use tensora.Prelude.{
  ℕ, zero, suc, ◌+◌, not, Bool, true, false, none, some, List, [], ◌∷◌, length, get_elem?, ltb,
  if◌then◌else◌,
}

-- The handlers of `SessionCreate`, and of `SessionEndProfiling`.
abbrev pub create_handlers : Handlers
create_handlers = record { ort = "onnx_session_create"; memory = some "onnx_session_create" }

abbrev pub profiling_handlers : Handlers
profiling_handlers = record { ort = "onnx_session_end_profiling"; memory = none }

abbrev pub count_handlers : Handlers
count_handlers = record { ort = "onnx_provider_count"; memory = none }

abbrev pub name_handlers : Handlers
name_handlers = record { ort = "onnx_provider_name"; memory = none }

module _ {F O S V R : Type 0} (ort : OnnxRuntime F O S V R) where
  open ort use {
    get_available_providers, create_environment, disable_telemetry_events, new_options, configure,
    new_session, get_input_count, get_input_name, input_element_type, get_output_count,
    get_output_name, output_element_type, end_profiling_allocated,
  }

  -- The static variables of `Environment`, each initialised by the first call that gets to it.
  make_environment : Handlers → Session F S R (Unit {0})
  make_environment h = do
    before ← bridge_state
    if before.environment_made then return tt else (do
      ask h create_environment
      b ← bridge_state
      store_bridge (record b { environment_made = true }))

  disable_telemetry : Handlers → Session F S R (Unit {0})
  disable_telemetry h = do
    before ← bridge_state
    if before.telemetry_disabled then return tt else (do
      ask h disable_telemetry_events
      b ← bridge_state
      store_bridge (record b { telemetry_disabled = true }))

  -- `Environment`
  unfoldable pub environment : Handlers → Session F S R (Unit {0})
  unfolding make_environment disable_telemetry
  environment h = do make_environment h; disable_telemetry h

  -- `MakeOptions`
  unfoldable pub make_options : Build → Handlers → String → Bool → String → Session F S R O
  unfolding append_provider
  make_options build h provider profiling prefix = do
    fresh ← ask h new_options
    optimized ← ask h (configure enable_all_optimizations fresh)
    options ← append_provider ort build h optimized provider
    if profiling
        then ask h (
            configure
              (enable_profiling (if is_empty_text prefix then "tensora-profile" else prefix))
              options)
        else return options

  -- The loops over the inputs and the outputs in the constructor of `SessionState`.
  read_names :
      Handlers
      → String
      → (ℕ → R → OrtCall String × R)
      → (ℕ → R → OrtCall ElementType × R)
      → ℕ
      → ℕ
      → Session F S R (List String)
  read_names h refusal name element index zero = return []
  read_names h refusal name element index (suc n) = do
    first ← ask h (name index)
    type ← ask h (element index)
    (if is_float_element type then return tt else throw_ort h refusal ort_not_implemented)
    others ← read_names h refusal name element (index + 1) n
    return (first ∷ others)

  -- The constructor of `SessionState`. C++ leaves open which argument of `Ort::Session` comes first.
  unfoldable pub session_state :
      Build → Handlers → String → String → Bool → String → Session F S R (SessionState S)
  unfolding resolve_provider environment make_options read_names
  session_state build h model_path provider profiling prefix = do
    selected ← resolve_provider ort build h provider
    environment h
    options ← make_options build h selected profiling prefix
    session ← ask h (new_session model_path options)
    inputs ← ask h (get_input_count session)
    input_names ←
        read_names h "Tensora currently supports float32 ONNX inputs" (get_input_name session)
          (input_element_type session) 0 inputs
    outputs ← ask h (get_output_count session)
    output_names ←
        read_names h "Tensora currently supports float32 ONNX outputs" (get_output_name session)
          (output_element_type session) 0 outputs
    return (record {
      selected_provider = selected;
      session = session;
      input_names = input_names;
      output_names = output_names;
      profiling_enabled = profiling;
      profiling_ended = false;
      profiling_path = "";
    })

  -- `SessionCreate`
  unfoldable pub session_create : Build → String → String → Bool → String → Output → Session F S R ℕ
  unfolding session_state
  session_create build model_path provider profiling prefix out = do
    need out "onnx_session_create: output handle pointer is null"
    check (not (is_empty_text model_path))
        (fail_argument "onnx_session_create: model path is empty")
    state ← session_state build create_handlers model_path provider profiling prefix
    number ← new_session_state state
    insert_in inference_session number

  -- `ProviderCount`
  unfoldable pub provider_count : Output → Session F S R ℕ
  provider_count out = do
    need out "onnx_provider_count: output pointer is null"
    providers ← ask count_handlers get_available_providers
    return (length providers)

  -- `ProviderName`
  unfoldable pub provider_name : ℕ → Output → Session F S R String
  provider_name index out = do
    need out "onnx_provider_name: output string pointer is null"
    providers ← ask name_handlers get_available_providers
    check (ltb index (length providers)) (fail_argument "onnx_provider_name: index is out of range")
    undefined_unless (get_elem? providers index)

  -- What `SessionEndProfiling` does to a session with profiling that has not ended.
  unfoldable pub end_now : ℕ → SessionState S → Session F S R String
  end_now a state = do
    path ← ask profiling_handlers (end_profiling_allocated state.session)
    store_session a (record state { profiling_path = path; profiling_ended = true })
    return path

  -- `SessionEndProfiling`
  unfoldable pub session_end_profiling : ℕ → Output → Session F S R String
  unfolding lookup_session end_now
  session_end_profiling session out = do
    need out "onnx_session_end_profiling: output string pointer is null"
    (a, state) ← lookup_session session
    check state.profiling_enabled
        (fail_argument "onnx_session_end_profiling: profiling is not enabled")
    if state.profiling_ended then return state.profiling_path else end_now a state

module _ {F S R : Type 0} where
  -- `IsAvailable`
  unfoldable pub is_available : Output → Session F S R ℕ
  is_available out = do need out "onnx_available: output pointer is null"; return 1

  -- `SessionProvider`
  unfoldable pub session_provider : ℕ → Output → Session F S R String
  unfolding lookup_session
  session_provider session out = do
    need out "onnx_session_provider: output string pointer is null"
    (a, state) ← lookup_session session
    return state.selected_provider

  -- `SessionInputCount`
  unfoldable pub session_input_count : ℕ → Output → Session F S R ℕ
  unfolding lookup_session
  session_input_count session out = do
    need out "onnx_session_input_count: output pointer is null"
    (a, state) ← lookup_session session
    return (length state.input_names)

  -- `SessionOutputCount`
  unfoldable pub session_output_count : ℕ → Output → Session F S R ℕ
  unfolding lookup_session
  session_output_count session out = do
    need out "onnx_session_output_count: output pointer is null"
    (a, state) ← lookup_session session
    return (length state.output_names)

  -- `SessionInputName`
  unfoldable pub session_input_name : ℕ → ℕ → Output → Session F S R String
  unfolding lookup_session
  session_input_name session index out = do
    need out "onnx_session_input_name: output string pointer is null"
    (a, state) ← lookup_session session
    check (ltb index (length state.input_names))
        (fail_argument "onnx_session_input_name: index is out of range")
    undefined_unless (get_elem? state.input_names index)

  -- `SessionOutputName`
  unfoldable pub session_output_name : ℕ → ℕ → Output → Session F S R String
  unfolding lookup_session
  session_output_name session index out = do
    need out "onnx_session_output_name: output string pointer is null"
    (a, state) ← lookup_session session
    check (ltb index (length state.output_names))
        (fail_argument "onnx_session_output_name: index is out of range")
    undefined_unless (get_elem? state.output_names index)

  released : Host F (Onnx S R) → Status × Registry ℕ → Result (Unit {0}) × Host F (Onnx S R)
  released p (s, r) =
      from_status (s, some tt) (record p { world = record p.world { registry = r } })

  -- `SessionRelease`
  unfoldable pub session_release : ℕ → Session F S R (Unit {0})
  unfolding released
  session_release session p = released p (release session inference_session p.world.registry)
