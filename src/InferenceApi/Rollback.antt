-- ===== src/InferenceApi/Rollback.antt =====
-- native/src/inference/inference_c_api.cc: what ts_onnx_session_run leaves in the handle registry.
use Prim.Native.String.{String}
use tensora.Core.Status.{Status, ok, is_ok, fail_internal}
use tensora.Registry.{Registry}
use tensora.Registry.Invariant.{IsValid}
use tensora.Steps.{Result, and_then, check, return, to_caller, ◌>>=◌, ◌>>◌}
use tensora.Steps.Frame.{
  keeping, Keeps, return-Keeps, fail-Keeps, Yields, bind-Yields, then-Yields, check_then-Yields,
  return-Yields, and_then-done, check_then-done, done-value,
}
use tensora.Core.Guard.{returns}
use tensora.Core.Abi.{Reply, abi_reply}
use tensora.Api.{Answer, conclude}
use tensora.Inference.Bridge.{Host, Bridge, registry_frame, LeavesRegistry, find_in-Keeps}
use tensora.InferenceApi.Run.{
  RunArguments, RunOutputs, left_outputs, read_inputs, read_output_names, insert_results, hand_out,
  admit_arguments, names_of, named_handles, run_bridge, run_body, ts_onnx_session_run,
}
use tensora.InferenceApi.Insertion.{Gathered, insert_results-all}
use tensora.Prelude.{
  ℕ, ◌≡◌, refl, sym, ap, ◌∙◌, subst, ◌⊎◌, ◌==◌, ==→≡, Option, none, some, List, [], ◌∷◌, length,
  inl, inr,
}

module _ {F B : Type 0} (bridge : Bridge F B) (session : ℕ) (a : RunArguments) (p : Host F B) where
  -- The bridge was called with the inputs and the names that the arguments stand for, and returned
  -- these results.
  abbrev pub Returned : List (Option ℕ) → Type 0
  Returned results =
      (given : List String × List (Option ℕ)) × (output_names : List String) × (p1 : Host F B)
      × (p2 : Host F B) × (q : Host F B) × (read_inputs
            (named_handles a.input_names a.input_tensors a.input_count) p
          ≡ (Result.done given, p1))
      × (read_output_names (names_of a.output_names a.output_count) p1
          ≡ (Result.done output_names, p2))
      × (bridge.session_run session given.0 given.1 output_names to_caller p2
          ≡ (Result.done results, q))

  -- What the caller and the table have after a run: a handle for each of the results of the bridge, as
  -- many as were asked for, or no handle, and the table as it was.
  abbrev pub Settled : Option (Answer RunOutputs) × Host F B → Type 0
  Settled (answer, q) =
      ((q.world.registry.entries ≡ p.world.registry.entries)
        × ((answer ≡ none)
            ⊎ ((reply : Reply) × (answer
                  ≡ some (record { reply = reply; written = some (left_outputs a) })))))
      ⊎ ((handles : List ℕ) × (results : List (Option ℕ)) × Returned results
          × (answer
              ≡ some (record {
                reply = abi_reply "onnx_session_run" (returns ok);
                written =
                    some
                      (record { out_tensors = some handles; out_written = some (length handles) });
              }))
          × (length handles ≡ a.output_count)
          × Gathered p.world.registry.entries results handles q.world.registry)

module _ (F B : Type 0) where
  read_inputs-Keeps :
      (inputs : List (Option String × ℕ)) → Keeps (registry_frame F B) (read_inputs inputs)
  unfolding read_inputs
  read_inputs-Keeps [] = return-Keeps (registry_frame F B) ([], [])
  read_inputs-Keeps ((none, handle) ∷ inputs) =
      fail-Keeps (registry_frame F B) (List String × List (Option ℕ)) _
  read_inputs-Keeps ((some name, handle) ∷ inputs) =
      search (keeping, read_inputs-Keeps inputs, find_in-Keeps F B) depth 20

  read_output_names-Keeps :
      (names : List (Option String)) → Keeps (registry_frame F B) (read_output_names names)
  unfolding read_output_names
  read_output_names-Keeps [] = return-Keeps (registry_frame F B) []
  read_output_names-Keeps (none ∷ names) = fail-Keeps (registry_frame F B) (List String) _
  read_output_names-Keeps (some name ∷ names) =
      search (keeping, read_output_names-Keeps names) depth 20

  -- The results of a run are those that the bridge returned.
  run_bridge-Returned :
      (bridge : Bridge F B) (session : ℕ) (a : RunArguments) (p q : Host F B)
      (results : List (Option ℕ))
      → run_bridge bridge session a p ≡ (Result.done results, q)
      → Returned bridge session a p results
  unfolding run_bridge
  run_bridge-Returned bridge session a p q results e =
      let (admitted, e1) =
        check_then-done (is_ok (admit_arguments a)) (admit_arguments a) _ p results q e in
      let (given, p1, read, e2) =
        and_then-done (read_inputs (named_handles a.input_names a.input_tensors a.input_count) p) _
          results q e1 in
      let (output_names, p2, named, e3) =
        and_then-done (read_output_names (names_of a.output_names a.output_count) p1) _ results q
          e2 in
      let (found, q1, ran, e4) =
        and_then-done (bridge.session_run session given.0 given.1 output_names to_caller p2) _
          results q e3 in
      let (long, last) =
        check_then-done (length found == a.output_count)
          (fail_internal "onnx_session_run: bridge returned unexpected output count") (return found)
          q1 results q e4 in
      (
        given,
        output_names,
        p1,
        p2,
        q1,
        read,
        named,
        ran ∙ ap (λ x. (Result.done x, q1)) (done-value found results q1 q last),
      )

  count_checked :
      (n : ℕ) (e : Status) (results : List (Option ℕ))
      → Yields {S = Host F B}
          (check (length results == n) e >> return results)
          (λ found s. length found ≡ n)
  count_checked n e results =
      check_then-Yields (length results == n) e (return results) (λ found s. length found ≡ n)
        (λ same. return-Yields (Host F B) results _ (λ s. ==→≡ (length results) n same))

  module _ (bridge : Bridge F B) (laws : LeavesRegistry bridge) where
    run_bridge-Keeps :
        (session : ℕ) (a : RunArguments) → Keeps (registry_frame F B) (run_bridge bridge session a)
    unfolding run_bridge
    run_bridge-Keeps session a =
        search (keeping, laws.session_run, read_inputs-Keeps, read_output_names-Keeps) depth 20

    -- What the bridge gives has the length that was asked for.
    run_bridge-length :
        (session : ℕ) (a : RunArguments)
        → Yields (run_bridge bridge session a) (λ results s. length results ≡ a.output_count)
    unfolding run_bridge
    run_bridge-length session a =
        search (count_checked a.output_count, bind-Yields, then-Yields) depth 20

    handed_out-Settled :
        (session : ℕ) (a : RunArguments) (p q : Host F B) (results : List (Option ℕ))
        → Returned bridge session a p results
        → length results ≡ a.output_count
        → q.world.registry ≡ p.world.registry
        → IsValid p.world.registry
        → Settled bridge session a p (
            conclude "onnx_session_run" (some (left_outputs a)) (
              (do
                handles ← hand_out results
                return (record { out_tensors = some handles; out_written = some (length handles) }))
                q))
    unfolding hand_out conclude
    handed_out-Settled session a p q results returned long same v =
        elim (insert_results-all results q.world.registry (subst IsValid (sym same) v)) [
          | inl (bad, table) ↦ rw bad (inl (table ∙ ap (λ r. r.entries) same, inr (_, refl)))
          | inr (good, g) ↦ rw good (
              inr (
                (insert_results results [] q.world.registry).1,
                results,
                returned,
                refl,
                g.counted ∙ long,
                subst
                    (λ (r : Registry ℕ).
                      Gathered r.entries results (insert_results results [] q.world.registry).1
                        (insert_results results [] q.world.registry).2)
                    same g,
              ))
        ]

    concluded-Settled :
        (session : ℕ) (a : RunArguments) (p : Host F B)
        → IsValid p.world.registry
        → (x : Result (List (Option ℕ)) × Host F B) → run_bridge bridge session a p ≡ x
        → x.1.world.registry ≡ p.world.registry
        → Settled bridge session a p (
            conclude "onnx_session_run" (some (left_outputs a)) (
              and_then x (λ results. do
                handles ← hand_out results
                return
                    (record { out_tensors = some handles; out_written = some (length handles) }))))
    unfolding conclude Yields
    concluded-Settled session a p v (Result.done results, q) e same =
        handed_out-Settled session a p q results
          (run_bridge-Returned bridge session a p q results e)
          (run_bridge-length session a p results q e) same v
    concluded-Settled session a p v (Result.failed s, q) e same =
        inl (ap (λ r. r.entries) same, inr (_, refl))
    concluded-Settled session a p v (Result.threw s, q) e same =
        inl (ap (λ r. r.entries) same, inr (_, refl))
    concluded-Settled session a p v (Result.undefined, q) e same =
        inl (ap (λ r. r.entries) same, inl refl)

    -- For a bridge whose runs leave the handle registry alone, and a valid registry: after
    -- ts_onnx_session_run either the table of handles is as it was and the caller has no handle, or
    -- each of the results that the bridge returned for the inputs and names of the call, as many as were
    -- asked for, has a handle, in their order, which finds it, and the release of these handles would
    -- restore the table.
    pub ts_onnx_session_run-Settled :
        (session : ℕ) (a : RunArguments) (p : Host F B)
        → IsValid p.world.registry
        → Settled bridge session a p (ts_onnx_session_run bridge session a p)
    unfolding ts_onnx_session_run run_body Keeps
    ts_onnx_session_run-Settled session a p v =
        concluded-Settled session a p v (run_bridge bridge session a p) refl
          (run_bridge-Keeps session a p)
