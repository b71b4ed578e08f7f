-- ===== src/InferenceApi/Run.antt =====
-- native/src/inference/inference_c_api.cc: ts_onnx_session_run. The caller's arrays do not overlap.
use Prim.Native.String.{String}
use tensora.Core.Status.{Status, ok, is_ok, fail_argument, fail_internal}
use tensora.Registry.Entries.{tensor_handle}
use tensora.Registry.{Registry, insert, release}
use tensora.Storage.{is_null}
use tensora.Steps.{Result, ◌>>=◌, ◌>>◌, return, fail, check, Output, null_out, to_caller, is_given}
use tensora.Api.{Answer, conclude}
use tensora.Inference.Bridge.{Host, Infer, Bridge, find_in}
use tensora.Prelude.{
  ℕ, ◌==◌, ◌&&◌, ◌||◌, not, Option, none, some, List, [], ◌∷◌, ◌++◌, length, replicate, entries,
  ltb, if◌then◌else◌,
}

-- `InsertInferenceTensor`
unfoldable pub insert_inference_tensor :
    Option ℕ → Output → Registry ℕ → Status × Option ℕ × Registry ℕ
insert_inference_tensor tensor null_out r =
    (fail_argument "onnx output: output handle pointer is null", none, r)
insert_inference_tensor tensor to_caller r = insert tensor_handle tensor (some 0) r

-- `ReleaseInsertedOutputs`
unfoldable pub release_inserted_outputs : List ℕ → Registry ℕ → Registry ℕ
release_inserted_outputs [] r = r
release_inserted_outputs (handle ∷ handles) r =
    release_inserted_outputs handles
      (if not (handle == 0) then (release handle tensor_handle r).1 else r)

-- The handle in the place of an output pointer that was given.
abbrev pub handle_of : Option ℕ → ℕ
handle_of none = 0
handle_of (some handle) = handle

-- The loop that inserts the results, with the handles of those inserted so far. The vector of the
-- source has zeros for the others.
unfoldable pub insert_results : List (Option ℕ) → List ℕ → Registry ℕ → Status × List ℕ × Registry ℕ
unfolding insert_inference_tensor release_inserted_outputs
insert_results [] inserted r = (ok, inserted, r)
insert_results (result ∷ results) inserted r =
    let (status, out, after) = insert_inference_tensor result to_caller r in
    let rest = insert_results results (inserted ++ handle_of out ∷ []) after in
    if not (is_ok status) then (status, [], release_inserted_outputs inserted after) else rest

-- What a run leaves in the caller's array of handles and count.
pub record RunOutputs : Type 0 where
  pub out_tensors : Option (List ℕ)
  pub out_written : Option ℕ

-- The arguments of a run that are pointers and counts.
pub record RunArguments : Type 0 where
  pub input_names : Option (ℕ → Option String)
  pub input_tensors : Option (ℕ → ℕ)
  pub input_count : ℕ
  pub output_names : Option (ℕ → Option String)
  pub output_count : ℕ
  pub out_tensors : Output
  pub out_capacity : ℕ
  pub out_written : Output

-- The tests before anything is written to the array of handles.
unfoldable pub admit_arguments : RunArguments → Status
admit_arguments a =
    if not (is_given a.out_written)
    then fail_argument "onnx_session_run: output count pointer is null"
    else if ltb 0 a.input_count && (is_null a.input_names || is_null a.input_tensors)
    then fail_argument "onnx_session_run: input arrays are null"
    else if a.output_count == 0 || is_null a.output_names
    then fail_argument "onnx_session_run: output names are null or empty"
    else if ltb a.out_capacity a.output_count
    then fail_argument "onnx_session_run: output handle capacity is too small"
    else if not (is_given a.out_tensors)
    then fail_argument "onnx_session_run: output handle array is null"
    else ok

-- What a failed run leaves to the caller: no handle in any place, once the arguments are admitted.
unfoldable pub left_outputs : RunArguments → RunOutputs
unfolding admit_arguments
left_outputs a = record {
  out_tensors = if is_ok (admit_arguments a) then some (replicate a.output_count 0) else none;
  out_written = elim a.out_written [ null_out ↦ none | to_caller ↦ some 0 ];
}

-- An array of names, as far as a count goes.
abbrev pub names_of : Option (ℕ → Option String) → ℕ → List (Option String)
names_of none count = []
names_of (some names) count = entries names 0 count

abbrev pub named_handles :
    Option (ℕ → Option String) → Option (ℕ → ℕ) → ℕ → List (Option String × ℕ)
named_handles (some names) (some handles) count =
    entries (λ index. (names index, handles index)) 0 count
named_handles names handles count = []

module _ {F B : Type 0} where
  -- The loop over the inputs, with `LookupInferenceTensor`.
  unfoldable pub read_inputs : List (Option String × ℕ) → Infer F B (List String × List (Option ℕ))
  read_inputs [] = return ([], [])
  read_inputs ((none, handle) ∷ inputs) =
      fail (fail_argument "onnx_session_run: an input name pointer is null")
  read_inputs ((some name, handle) ∷ inputs) = do
    tensor ← find_in handle tensor_handle
    (names, tensors) ← read_inputs inputs
    return (name ∷ names, some tensor ∷ tensors)

  -- The loop over the names of the outputs.
  unfoldable pub read_output_names : List (Option String) → Infer F B (List String)
  read_output_names [] = return []
  read_output_names (none ∷ names) =
      fail (fail_argument "onnx_session_run: an output name pointer is null")
  read_output_names (some name ∷ names) = do
    others ← read_output_names names
    return (name ∷ others)

  abbrev with_inserted : Host F B → Status × List ℕ × Registry ℕ → Result (List ℕ) × Host F B
  with_inserted p (status, handles, r) = (
    (if is_ok status then Result.done handles else Result.failed status),
    record p { world = record p.world { registry = r } },
  )

  -- The results of the bridge become handles.
  unfoldable pub hand_out : List (Option ℕ) → Infer F B (List ℕ)
  unfolding insert_results
  hand_out results p = with_inserted p (insert_results results [] p.world.registry)

  module _ (bridge : Bridge F B) where
    open bridge use {session_run}

    -- The body of `ts_onnx_session_run` up to the call of the bridge, which it ends with.
    unfoldable pub run_bridge : ℕ → RunArguments → Infer F B (List (Option ℕ))
    unfolding admit_arguments read_inputs read_output_names
    run_bridge session a = do
      check (is_ok (admit_arguments a)) (admit_arguments a)
      (names, inputs) ← read_inputs (named_handles a.input_names a.input_tensors a.input_count)
      output_names ← read_output_names (names_of a.output_names a.output_count)
      results ← session_run session names inputs output_names to_caller
      check (length results == a.output_count)
          (fail_internal "onnx_session_run: bridge returned unexpected output count")
      return results

    -- The body of `ts_onnx_session_run`.
    unfoldable pub run_body : ℕ → RunArguments → Infer F B RunOutputs
    unfolding run_bridge hand_out
    run_body session a = do
      results ← run_bridge session a
      handles ← hand_out results
      return (record { out_tensors = some handles; out_written = some (length handles) })

    -- `ts_onnx_session_run`
    unfoldable pub ts_onnx_session_run :
        ℕ → RunArguments → Host F B → Option (Answer RunOutputs) × Host F B
    unfolding left_outputs run_body
    ts_onnx_session_run session a p =
        conclude "onnx_session_run" (some (left_outputs a)) (run_body session a p)
