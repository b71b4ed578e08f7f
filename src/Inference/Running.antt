-- ===== src/Inference/Running.antt =====
-- native/src/inference/inference_bridge_onnx.cc: a run of a session, with the copies of its inputs and
-- outputs.
use Prim.Native.String.{String}
use tensora.Core.Status.{is_ok, fail_argument, fail_unsupported, fail_internal, fail_model}
use tensora.Float.{Float32}
use tensora.Storage.{copy_storage, is_empty}
use tensora.Tensor.{Tensor, float32, cpu, is_float32, is_count}
use tensora.Memory.{dimensions_pointer, validated, from_data}
use tensora.Heap.{M, load_tensor, load_storage, new_tensor}
use tensora.Steps.{◌>>=◌, ◌>>◌, return, fail, check, undefined_unless, Output, to_caller, need}
use tensora.Inference.Bridge.{on_objects}
use tensora.Inference.Runtime.{
  is_float_element, OnnxRuntime, Handlers, SessionState, Session, ask, lookup_session,
}
use tensora.Prelude.{
  ℕ, ◌==◌, not, ◌||◌, Option, none, some, List, [], ◌∷◌, ℤ, pos, length, replicate, ltb,
}

-- The handlers of `SessionRun`, and those inside `OrtValueToTensor`, which is called there.
abbrev pub run_handlers : Handlers
run_handlers = record { ort = "onnx_session_run"; memory = some "onnx_session_run" }

abbrev pub output_handlers : Handlers
output_handlers = record { ort = "onnx output"; memory = some "onnx_session_run" }

module _ {F : Type 0} ⦃fl : Float32 F⦄ where
  open fl use {zero_f}

  -- `TensorToHost`: the values and the shape.
  unfoldable pub tensor_to_host : Tensor → Output → Output → M F (List F × List ℤ)
  unfolding copy_storage
  tensor_to_host tensor out_values out_shape = do
    need out_values "onnx input: output buffer pointer is null"
    need out_shape "onnx input: output buffer pointer is null"
    check (is_float32 tensor.dtype)
        (fail_unsupported "onnx input: only float32 tensors are supported")
    storage ← load_storage tensor.storage
    let numel = tensor.shape.numel
    let copied = copy_storage storage (some (replicate numel zero_f)) numel (some 0)
    check (is_ok copied.status) copied.status
    check (is_count numel copied.out_written)
        (fail_internal "onnx input: storage returned an inconsistent size")
    values ← undefined_unless copied.out_values
    return (values, tensor.shape.dimensions)

module _ {F O S V R : Type 0} ⦃fl : Float32 F⦄ (ort : OnnxRuntime F O S V R) where
  open ort use {
    create_cpu_memory_info, create_tensor, run, is_tensor, get_element_type, get_shape,
    get_element_count, get_tensor_data,
  }

  -- `OrtValueToTensor`, with a value and an output pointer given.
  unfoldable pub ort_value_to_tensor : V → Session F S R ℕ
  unfolding from_data new_tensor
  ort_value_to_tensor value = do
    tensor ← ask run_handlers (is_tensor value)
    check tensor (fail_unsupported "onnx output: only tensor outputs are supported")
    type ← ask output_handlers (get_element_type value)
    check (is_float_element type)
        (fail_unsupported "onnx output: only float32 outputs are supported")
    dimensions ← ask output_handlers (get_shape value)
    shape ← on_objects (validated (dimensions_pointer dimensions) (length dimensions))
    numel ← ask output_handlers (get_element_count value)
    check (shape.numel == numel)
        (fail_model "onnx output: shape and element count are inconsistent")
    values ← ask output_handlers (get_tensor_data value)
    storage ← on_objects (from_data values shape.numel to_caller)
    on_objects (new_tensor shape storage float32 cpu (pos 0) 0 none)

  -- The loop that copies the inputs.
  unfoldable pub feed : List (Option ℕ) → Session F S R (List V)
  unfolding tensor_to_host
  feed [] = return []
  feed (none ∷ inputs) = fail (fail_argument "onnx_session_run: null input tensor object")
  feed (some a ∷ inputs) = do
    tensor ← on_objects (load_tensor a)
    (values, shape) ← on_objects (tensor_to_host tensor to_caller to_caller)
    first ← ask run_handlers (create_tensor values shape)
    others ← feed inputs
    return (first ∷ others)

  -- The loop that copies the outputs.
  unfoldable pub convert : List V → Session F S R (List (Option ℕ))
  unfolding ort_value_to_tensor
  convert [] = return []
  convert (output ∷ outputs) = do
    first ← ort_value_to_tensor output
    others ← convert outputs
    return (some first ∷ others)

  -- What `SessionRun` does to the session that it found.
  unfoldable pub run_session :
      SessionState S → List String → List (Option ℕ) → List String → Session F S R (List (Option ℕ))
  unfolding feed convert
  run_session state input_names inputs output_names = do
    check (length input_names == length state.input_names)
        (fail_argument "onnx_session_run: input count does not match model")
    check (not (is_empty output_names || ltb (length state.output_names) (length output_names)))
        (fail_argument "onnx_session_run: invalid output count")
    ask run_handlers create_cpu_memory_info
    values ← feed inputs
    outputs ← ask run_handlers (run state.session input_names values output_names)
    check (length outputs == length output_names)
        (fail_model "onnx_session_run: runtime returned unexpected output count")
    convert outputs

  -- `SessionRun`
  unfoldable pub session_run :
      ℕ → List String → List (Option ℕ) → List String → Output → Session F S R (List (Option ℕ))
  unfolding lookup_session run_session
  session_run session input_names inputs output_names out = do
    need out "onnx_session_run: output vector pointer is null"
    check (length input_names == length inputs)
        (fail_argument "onnx_session_run: input name/tensor counts differ")
    (a, state) ← lookup_session session
    run_session state input_names inputs output_names
