-- ===== src/Registry/Balance.antt =====
-- native/src/runtime/handle_registry.cc: the reference counts, against the statuses that clients
-- see.
use tensora.Core.Status.{is_ok}
use tensora.Registry.Entries.{Entry, find}
use tensora.Registry.{Registry, empty, insert, retain, release}
use tensora.Registry.Invariant.{
  IsValid, Action, inserts, retains, releases, step, run, find_above, find-erase, find-set_refs,
  find-refs, step-IsValid, empty-IsValid,
}
use tensora.Prelude.{
  ℕ, ◌+◌, ◌-◌, ◌≡◌, Bool, false, Option, none, some, List, [], ◌∷◌, ◌==◌, ◌&&◌, if◌then◌else◌,
  arith, Option-cases, inl, inr,
}

abbrev count_of : {A : Type 0} → Option (Entry A) → ℕ
count_of none = 0
count_of (some e) = e.refs

abbrev is_handle : ℕ → Option ℕ → Bool
is_handle h none = false
is_handle h (some k) = k == h

abbrev one_if : Bool → ℕ
one_if b = if b then 1 else 0

module _ {A : Type 0} where
  -- The references to a handle.
  abbrev pub refs_of : ℕ → Registry A → ℕ
  refs_of h r = count_of (find h r.entries)

  -- What a call's status and output tell its caller: one more reference to `h`, or one less.
  pub gained : ℕ → Action A → Registry A → ℕ
  gained h (inserts type object) r =
      let (s, out, after) = insert type object (some 0) r in one_if (is_ok s && is_handle h out)
  gained h (retains k type) r = one_if (is_ok (retain k type r).0 && k == h)
  gained h (releases k type) r = 0

  pub lost : ℕ → Action A → Registry A → ℕ
  lost h (inserts type object) r = 0
  lost h (retains k type) r = 0
  lost h (releases k type) r = one_if (is_ok (release k type r).0 && k == h)

  pub total_gained : ℕ → List (Action A) → Registry A → ℕ
  total_gained h [] r = 0
  total_gained h (a ∷ actions) r = gained h a r + total_gained h actions (step a r)

  pub total_lost : ℕ → List (Action A) → Registry A → ℕ
  total_lost h [] r = 0
  total_lost h (a ∷ actions) r = lost h a r + total_lost h actions (step a r)

  step-balance :
      (a : Action A) (h : ℕ) (r : Registry A)
      → IsValid r
      → refs_of h (step a r) + lost h a r ≡ refs_of h r + gained h a r
  unfolding step gained lost insert retain release find
  step-balance (inserts type none) h r v = omega arith
  step-balance (inserts type (some o)) h r v =
      ground (arith, find_above r.next_handle h r.entries v.entries)
  step-balance (retains k type) h r v = elim (Option-cases (find k r.entries)) [
    | inl gone ↦ ground arith
    | inr (e, found) ↦ ground (arith, find-set_refs k (e.refs + 1) h r.entries)
  ]
  step-balance (releases k type) h r v = elim (Option-cases (find k r.entries)) [
    | inl gone ↦ ground arith
    | inr (e, found) ↦ ground (
      arith,
      find-refs r.next_handle k r.entries e v.entries found,
      find-set_refs k (e.refs - 1) h r.entries,
      find-erase r.next_handle k h r.entries v.entries,
    )
  ]

  run-balance :
      (actions : List (Action A)) (h : ℕ) (r : Registry A)
      → IsValid r
      → refs_of h (run actions r) + total_lost h actions r ≡ refs_of h r + total_gained h actions r
  unfolding run total_gained total_lost
  run-balance [] h r v = omega arith
  run-balance (a ∷ actions) h r v =
      omega (arith, step-balance a h r v, run-balance actions h (step a r) (step-IsValid a r v))

  -- After any calls on the empty registry, the references to a handle and the successful releases of
  -- it together are the insertion that returned it and the successful retentions of it.
  pub run-empty-balance :
      (actions : List (Action A)) (h : ℕ)
      → refs_of h (run actions empty) + total_lost h actions empty ≡ total_gained h actions empty
  unfolding find
  run-empty-balance actions h = omega (arith, run-balance actions h empty empty-IsValid)
