-- ===== src/Registry/Refinement.antt =====
-- native/src/runtime/handle_registry.cc: the registry as a map from handles to entries.
use tensora.Registry.Entries.{HandleType, same_type, Entry, find}
use tensora.Registry.{Registry, insert, retain, release}
use tensora.Registry.Invariant.{
  IsValid, Action, inserts, retains, releases, step, run, find_above, find-erase, find-set_refs,
  find-refs, step-IsValid,
}
use tensora.Prelude.{
  ℕ, ◌+◌, ◌-◌, ◌^◌, ◌≡◌, refl, ap, ap₂, ◌∙◌, fun_ext, Option, none, some, List, [], ◌∷◌, ◌==◌,
  if◌then◌else◌, arith, Option-cases, inl, inr,
}

-- What the registry promises: a map from handles to entries, and the next handle to give out.
pub record Handles (A : Type 0) : Type 0 where
  pub entry : ℕ → Option (Entry A)
  pub next : ℕ

module _ {A : Type 0} where
  abbrev pub updated : ℕ → Option (Entry A) → (ℕ → Option (Entry A)) → ℕ → Option (Entry A)
  updated h e entry k = if h == k then e else entry k

  -- One more reference, unless the count is full.
  abbrev pub retained : ℕ → HandleType → Option (Entry A) → Handles A → Handles A
  retained h type none m = m
  retained h type (some e) m =
      if same_type e.type type
      then (if e.refs == 2 ^ 64 - 1
          then m
          else record m { entry = updated h (some (record e { refs = e.refs + 1 })) m.entry })
      else m

  -- One reference less, and no entry without references.
  abbrev pub released : ℕ → HandleType → Option (Entry A) → Handles A → Handles A
  released h type none m = m
  released h type (some e) m =
      if same_type e.type type
      then record m {
        entry =
            updated h (if e.refs == 1 then none else some (record e { refs = e.refs - 1 })) m.entry;
      }
      else m

  -- One call on the map.
  unfoldable pub call : Action A → Handles A → Handles A
  call (inserts type none) m = m
  call (inserts type (some object)) m = if m.next == 2 ^ 64 - 1 then m else record {
    entry = updated m.next (some (record { type = type; refs = 1; object = object })) m.entry;
    next = m.next + 1;
  }
  call (retains h type) m = retained h type (m.entry h) m
  call (releases h type) m = released h type (m.entry h) m

  -- The map that a registry stands for.
  abbrev pub view : Registry A → Handles A
  view r = record { entry = λ h. find h r.entries; next = r.next_handle }

  entry-step :
      (a : Action A) (r : Registry A) (k : ℕ)
      → IsValid r
      → find k (step a r).entries ≡ (call a (view r)).entry k
  unfolding step call insert retain release find
  entry-step (inserts type none) r k v = refl
  entry-step (inserts type (some o)) r k v =
      ground (arith, find_above r.next_handle r.next_handle r.entries v.entries)
  entry-step (retains h type) r k v = elim (Option-cases (find h r.entries)) [
    | inl gone ↦ ground arith
    | inr (e, found) ↦ ground (
      arith,
      find-refs r.next_handle h r.entries e v.entries found,
      find-set_refs h (e.refs + 1) k r.entries,
    )
  ]
  entry-step (releases h type) r k v = elim (Option-cases (find h r.entries)) [
    | inl gone ↦ ground arith
    | inr (e, found) ↦ ground (
      arith,
      find-refs r.next_handle h r.entries e v.entries found,
      find-set_refs h (e.refs - 1) k r.entries,
      find-erase r.next_handle h k r.entries v.entries,
    )
  ]

  next-step :
      (a : Action A) (r : Registry A) → IsValid r → (step a r).next_handle ≡ (call a (view r)).next
  unfolding step call insert retain release
  next-step (inserts type none) r v = refl
  next-step (inserts type (some o)) r v =
      ground (arith, find_above r.next_handle r.next_handle r.entries v.entries)
  next-step (retains h type) r v = elim (Option-cases (find h r.entries)) [
    | inl gone ↦ ground arith
    | inr (e, found) ↦ ground arith
  ]
  next-step (releases h type) r v = elim (Option-cases (find h r.entries)) [
    | inl gone ↦ ground arith
    | inr (e, found) ↦ ground arith
  ]

  step-call : (a : Action A) (r : Registry A) → IsValid r → view (step a r) ≡ call a (view r)
  step-call a r v =
      ap₂ {C = Handles A} (λ e n. record { entry = e; next = n })
        (fun_ext (λ k. entry-step a r k v)) (next-step a r v)

  -- Many calls on the map.
  unfoldable pub calls : List (Action A) → Handles A → Handles A
  calls [] m = m
  calls (a ∷ actions) m = calls actions (call a m)

  -- From any valid registry, what any sequence of Insert, Retain and Release makes of the table is
  -- what the same calls make of the map from handles to entries that the table stands for.
  pub run-calls :
      (actions : List (Action A)) (r : Registry A)
      → IsValid r
      → view (run actions r) ≡ calls actions (view r)
  unfolding run calls
  run-calls [] r v = refl
  run-calls (a ∷ actions) r v =
      run-calls actions (step a r) (step-IsValid a r v) ∙ ap (calls actions) (step-call a r v)
