-- ===== src/Tests/Sessions.antt =====
-- Runs of the model of native/src/inference over a small ONNX Runtime, which gives its inputs back.
use Prim.Native.String.{String}
use tensora.Storage.{Storage, overwrite}
use tensora.Tensor.{Tensor, float32, cpu, logical_storage_index}
use tensora.Tensor.Copy.{logical_values}
use tensora.Registry.{Registry, lookup}
use tensora.Registry.Entries.{tensor_handle, inference_session, find, same_type}
use tensora.Registry.Invariant.{IsValid}
use tensora.Heap.{Heap}
use tensora.Memory.{pointer_to}
use tensora.Steps.{Result, to_caller}
use tensora.Inference.Bridge.{Host}
use tensora.Inference.{resolve_provider_from_snapshot}
use tensora.Inference.Runtime.{OnnxRuntime, answered, float_element, SessionState, Onnx, handled}
use tensora.Inference.Providers.{Build, other_platform, auto_candidates, resolve_provider}
use tensora.Inference.Sessions.{session_end_profiling, create_handlers}
use tensora.Inference.Running.{tensor_to_host}
use tensora.Inference.Onnx.{onnx}
use tensora.Inference.Registries.{onnx-LeavesRegistry}
use tensora.Inference.Agreement.{configurable, Agrees, resolve_provider-Agrees}
use tensora.Inference.Profiling.{session_end_profiling-again}
use tensora.Inference.Inputs.{tensor_to_host_iff}
use tensora.InferenceApi.Run.{RunArguments, ts_onnx_session_run}
use tensora.InferenceApi.Rollback.{Settled, ts_onnx_session_run-Settled}
use tensora.Tests.Kernels.{counting}
use tensora.Prelude.{
  ℕ, ◌+◌, ◌≡◌, ◌↔◌, refl, true, false, some, none, List, [], ◌∷◌, ℤ, pos, length, arith,
}

abbrev providers : List String
providers = "CUDAExecutionProvider" ∷ "CPUExecutionProvider" ∷ []

-- The state counts the calls.
abbrev echo : OnnxRuntime ℕ (List ℕ) ℕ (List ℕ × List ℤ) ℕ
echo = record {
  get_available_providers = λ r. (answered providers, r + 1);
  create_environment = λ r. (answered tt, r + 1);
  disable_telemetry_events = λ r. (answered tt, r + 1);
  new_options = λ r. (answered [], r + 1);
  configure = λ call o r. (answered o, r + 1);
  new_session = λ path o r. (answered 7, r + 1);
  get_input_count = λ s r. (answered 1, r + 1);
  get_input_name = λ s i r. (answered "x", r + 1);
  input_element_type = λ s i r. (answered float_element, r + 1);
  get_output_count = λ s r. (answered 1, r + 1);
  get_output_name = λ s i r. (answered "y", r + 1);
  output_element_type = λ s i r. (answered float_element, r + 1);
  create_cpu_memory_info = λ r. (answered tt, r + 1);
  create_tensor = λ values shape r. (answered (values, shape), r + 1);
  run = λ s names values outputs r. (answered values, r + 1);
  end_profiling_allocated = λ s r. (answered "profile.json", r + 1);
  is_tensor = λ v r. (answered true, r);
  get_element_type = λ v r. (answered float_element, r);
  get_shape = λ v r. (answered v.1, r);
  get_element_count = λ v r. (answered (length v.0), r);
  get_tensor_data = λ v r. (answered (pointer_to 0 v.0), r);
}

abbrev build : Build
build = record { platform = other_platform; with_dml = false; with_coreml = false }

-- The transpose of a matrix with the rows 1 2 and 3 4.
abbrev transposed : Tensor
transposed = record {
  shape = record {
    dimensions = pos 2 ∷ pos 2 ∷ [];
    strides = 1 ∷ 2 ∷ [];
    numel = 4;
    byte_size = 16;
  };
  storage = 0;
  dtype = float32;
  device = cpu;
  device_index = pos 0;
  storage_offset = 0;
  version_counter = 0;
  autograd_meta = none;
}

abbrev rows : List ℕ
rows = 1 ∷ 2 ∷ 3 ∷ 4 ∷ []

abbrev heap : Heap ℕ
heap = record {
  storages = Storage.cpu rows ∷ [];
  counters = record { value = 0; identity = 1 } ∷ [];
  tensors = transposed ∷ [];
  metas = [];
  next_identity = 2;
  requests = 0;
  allocator = λ requests bytes. none;
}

abbrev session : SessionState ℕ
session = record {
  selected_provider = "CPUExecutionProvider";
  session = 7;
  input_names = "x" ∷ [];
  output_names = "y" ∷ [];
  profiling_enabled = true;
  profiling_ended = false;
  profiling_path = "";
}

abbrev table : Registry ℕ
table = record {
  entries =
      (2, record { type = tensor_handle; refs = 1; object = 0 })
      ∷ (1, record { type = inference_session; refs = 1; object = 0 })
      ∷ [];
  next_handle = 3;
}

table-IsValid : IsValid table
unfolding find
table-IsValid = record {
  entries = (
    (omega arith, omega arith, omega arith, omega arith, refl),
    ((omega arith, omega arith, omega arith, omega arith, refl), tt),
  );
  started = omega arith;
  bounded = omega arith;
}

abbrev host : Host ℕ (Onnx ℕ ℕ)
host = record {
  world = record { heap = heap; registry = table };
  bridge = record {
    sessions = session ∷ [];
    runtime = 0;
    environment_made = true;
    telemetry_disabled = true;
  };
}

abbrev arguments : RunArguments
arguments = record {
  input_names = some (λ i. some "x");
  input_tensors = some (λ i. 2);
  input_count = 1;
  output_names = some (λ i. some "y");
  output_count = 1;
  out_tensors = to_caller;
  out_capacity = 1;
  out_written = to_caller;
}

ts_onnx_session_run-Settled_example :
    Settled
      (onnx build echo)
      1
      arguments
      host
      (ts_onnx_session_run (onnx build echo) 1 arguments host)
ts_onnx_session_run-Settled_example =
    ts_onnx_session_run-Settled ℕ (Onnx ℕ ℕ) (onnx build echo)
      (onnx-LeavesRegistry ℕ (List ℕ) ℕ (List ℕ × List ℤ) ℕ echo build) 1 arguments host
      table-IsValid

resolve_provider-Agrees_example :
    Agrees
      (resolve_provider_from_snapshot "auto" providers
        (configurable build)
        (auto_candidates build.platform)
        to_caller)
      (resolve_provider echo build create_handlers "auto" host).0
resolve_provider-Agrees_example =
    resolve_provider-Agrees echo build create_handlers "auto" providers 1 host refl

abbrev profiled : Host ℕ (Onnx ℕ ℕ)
profiled = record host {
  bridge = record host.bridge {
    sessions = record session { profiling_ended = true; profiling_path = "profile.json" } ∷ [];
    runtime = 1;
  };
}

ends : session_end_profiling echo 1 to_caller host ≡ (Result.done "profile.json", profiled)
unfolding session_end_profiling lookup find same_type handled
ends = refl

session_end_profiling-again_example :
    session_end_profiling echo 1 to_caller profiled ≡ (Result.done "profile.json", profiled)
session_end_profiling-again_example =
    session_end_profiling-again echo 1 "profile.json" host profiled ends

tensor_to_host_iff_example :
    (tensor_to_host transposed to_caller to_caller heap
      ≡ (Result.done (logical_values {A = ℕ} 0 transposed rows, pos 2 ∷ pos 2 ∷ []), heap))
    ↔ (rows ≡ logical_values {A = ℕ} 0 transposed rows)
tensor_to_host_iff_example = tensor_to_host_iff transposed rows heap refl refl refl

-- The session gets 1 2 3 4 for the transpose, whose elements are 1 3 2 4.
fed_in_storage_order :
    (tensor_to_host transposed to_caller to_caller heap
      ≡ (Result.done (rows, pos 2 ∷ pos 2 ∷ []), heap))
    × (logical_values {A = ℕ} 0 transposed rows ≡ 1 ∷ 3 ∷ 2 ∷ 4 ∷ [])
unfolding tensor_to_host logical_values logical_storage_index overwrite
fed_in_storage_order = (refl, refl)
