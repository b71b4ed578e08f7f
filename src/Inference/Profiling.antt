-- ===== src/Inference/Profiling.antt =====
-- native/src/inference/inference_bridge_onnx.cc: SessionEndProfiling a second time.
use tensora.Autograd.Aliases.{get_elem?-set}
use tensora.Core.Status.{is_ok}
use tensora.Registry.{lookup}
use tensora.Registry.Entries.{inference_session}
use tensora.Steps.{Result, to_caller, return, check}
use tensora.Steps.Frame.{and_then-done, done-value, check-done}
use tensora.Inference.Bridge.{Host}
use tensora.Inference.Runtime.{OnnxRuntime, Onnx, SessionState, ask, lookup_session}
use tensora.Inference.Sessions.{session_end_profiling, profiling_handlers, end_now}
use Prim.Native.String.{String}
use tensora.Prelude.{
  ℕ, ◌≡◌, refl, sym, ap, ◌∙◌, subst, true, some, get_elem?, set, if◌then◌else◌, Bool-cases,
  Option-cases, inl, inr,
}

module _ {F S R : Type 0} where
  -- A session that is found is found by its handle in any bridge that has it at its number.
  lookup_session-found :
      (handle a : ℕ) (state : SessionState S) (p q : Host F (Onnx S R))
      → lookup_session handle p ≡ (Result.done (a, state), q)
      → (q ≡ p)
        × (get_elem? p.bridge.sessions a ≡ some state)
        × ((b : Onnx S R) (t : SessionState S)
            → get_elem? b.sessions a ≡ some t
            → lookup_session handle (record p { bridge = b })
              ≡ (Result.done (a, t), record p { bridge = b }))
  unfolding lookup_session
  lookup_session-found handle a state p q e =
      elim (Bool-cases (is_ok (lookup handle inference_session p.world.registry).0)) [
        | inr bad ↦ cc (rw bad at e)
        | inl good ↦ elim (Option-cases (lookup handle inference_session p.world.registry).1) [
          | inl nothing ↦ cc (rw (good, nothing) at e)
          | inr (o, out) ↦ elim (Option-cases (get_elem? p.bridge.sessions o)) [
            | inl gone ↦ cc (rw (good, out, gone) at e)
            | inr (s, stored) ↦
                let step = rw (good, out, stored) at e in
                let both : ◌≡◌ {A = ℕ × SessionState S} (o, s) (a, state) =
                  done-value {A = ℕ × SessionState S} _ _ _ _ step in
                let numbered : (lookup handle inference_session p.world.registry).1 ≡ some a =
                  out ∙ ap (λ (x : ℕ × SessionState S). some x.0) both in
                (
                  sym (ap (λ r. r.1) step),
                  subst (λ x. get_elem? p.bridge.sessions x.0 ≡ some x.1) both stored,
                  λ b t there. rw (good, numbered, there) refl,
                )
          ]
        ]
      ]

module _ {F O S V R : Type 0} (ort : OnnxRuntime F O S V R) where
  -- Ending the profiling of a session, in either way, leaves a bridge in which it has ended.
  end_profiling-ended :
      (session a : ℕ) (state : SessionState S) (path : String) (p q : Host F (Onnx S R))
      → get_elem? p.bridge.sessions a ≡ some state
      → state.profiling_enabled ≡ true
      → (if state.profiling_ended then return state.profiling_path else end_now ort a state) p
        ≡ (Result.done path, q)
      → (t : SessionState S) × (q ≡ record p { bridge = q.bridge })
        × (get_elem? q.bridge.sessions a ≡ some t)
        × (t.profiling_enabled ≡ true)
        × (t.profiling_ended ≡ true)
        × (t.profiling_path ≡ path)
  unfolding end_now
  end_profiling-ended session a state path p q stored enabled e =
      elim (Bool-cases state.profiling_ended) [
        | inl over ↦
            let step = rw over at e in
            let same = sym (ap (λ r. r.1) step) in
            (
              state,
              same ∙ ap (λ (b : Onnx S R). record p { bridge = b }) (ap (λ r. r.bridge) (sym same)),
              ap (λ r. get_elem? r.bridge.sessions a) same ∙ stored,
              enabled,
              over,
              done-value _ _ _ _ step,
            )
        | inr going ↦
            let (found, u, asked, e1) =
              and_then-done (ask profiling_handlers (ort.end_profiling_allocated state.session) p) _
                path q (rw going at e) in
            let t : SessionState S = record state {
              profiling_path = found;
              profiling_ended = true;
            } in
            let same : u ≡ record p { bridge = u.bridge } =
              let kept = sym (ap (λ r. r.1) asked) in
              kept
              ∙ ap (λ (b : Onnx S R). record p { bridge = b }) (ap (λ r. r.bridge) (sym kept)) in
            let there : get_elem? u.bridge.sessions a ≡ some state =
              ap (λ r. get_elem? r.1.bridge.sessions a) (sym asked) ∙ stored in
            subst
              (λ (r : Host F (Onnx S R)).
                (x : SessionState S) × (r ≡ record p { bridge = r.bridge })
                × (get_elem? r.bridge.sessions a ≡ some x)
                × (x.profiling_enabled ≡ true)
                × (x.profiling_ended ≡ true)
                × (x.profiling_path ≡ path))
              (ap (λ r. r.1) e1)
              (
                t,
                ap
                    (λ (r : Host F (Onnx S R)). record r {
                      bridge = record u.bridge { sessions = set u.bridge.sessions a t };
                    })
                    same,
                get_elem?-set u.bridge.sessions a t state there,
                enabled,
                refl,
                done-value _ _ _ _ e1,
              )
      ]

  -- When SessionEndProfiling succeeds, calling it again for the same handle gives the same path and
  -- changes nothing, neither of the process nor of ONNX Runtime.
  pub session_end_profiling-again :
      (session : ℕ) (path : String) (p q : Host F (Onnx S R))
      → session_end_profiling ort session to_caller p ≡ (Result.done path, q)
      → session_end_profiling ort session to_caller q ≡ (Result.done path, q)
  unfolding session_end_profiling
  session_end_profiling-again session path p q e =
      let ((a, state), p1, found, e1) = and_then-done (lookup_session session p) _ path q e in
      let (same, stored, again) = lookup_session-found session a state p p1 found in
      let (u, p2, on, e2) = and_then-done (check state.profiling_enabled _ p1) _ path q e1 in
      let (enabled, same2) = check-done state.profiling_enabled _ p1 p2 on in
      let (t, bridged, there, t_enabled, t_ended, t_path) =
        end_profiling-ended session a state path p2 q
          (ap (λ (r : Host F (Onnx S R)). get_elem? r.bridge.sessions a) (same2 ∙ same) ∙ stored)
          enabled e2 in
      let placed : q ≡ record p { bridge = q.bridge } =
        bridged ∙ ap (λ (r : Host F (Onnx S R)). record r { bridge = q.bridge }) (same2 ∙ same) in
      let second : lookup_session session q ≡ (Result.done (a, t), q) =
        subst (λ (r : Host F (Onnx S R)). lookup_session session r ≡ (Result.done (a, t), r))
          (sym placed) (again q.bridge t there) in
      rw (second, t_enabled, t_ended, t_path) refl
