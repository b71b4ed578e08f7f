-- ===== src/Registry/Lifetime.antt =====
-- native/src/runtime/handle_registry.cc: the life of a handle, from Insert to the last Release.
use tensora.Core.Status.{ok, invalid_handle, internal_error}
use tensora.Registry.Entries.{HandleType, same_type, Entry, Table, find, set_refs}
use tensora.Registry.{Registry, insert, retain, release, lookup}
use tensora.Registry.Invariant.{
  IsValid, Action, inserts, retains, releases, step, run, find_above, find-erase, find-set_refs,
  find-refs, step-IsValid,
}
use tensora.Prelude.{
  ℕ, ◌+◌, ◌-◌, ◌^◌, ◌<◌, ◌≡◌, ◌≢◌, none, some, List, [], ◌∷◌, arith, Option-cases, inl, inr,
}

module _ {A : Type 0} where
  -- Inserting an object into a valid registry with identifiers left succeeds. The handle is not 0
  -- and named nothing before; under it the object is found, with its type, and a lookup of any other
  -- handle answers as before.
  pub insert-lookup :
      (type : HandleType) (object : A) (before : ℕ) (r : Registry A)
      → IsValid r
      → r.next_handle < 2 ^ 64 - 1
      → let (s, out, after) = insert type (some object) (some before) r in
        (s ≡ ok)
        × (out ≡ some r.next_handle)
        × (r.next_handle ≢ 0)
        × (find r.next_handle r.entries ≡ none)
        × (lookup r.next_handle type after ≡ (ok, some object))
        × ((h : ℕ) (expected : HandleType)
            → h ≢ r.next_handle
            → lookup h expected after ≡ lookup h expected r)
  unfolding insert lookup find same_type
  insert-lookup type object before r v b =
      let fresh = find_above r.next_handle r.next_handle r.entries v.entries (omega arith) in
      (ground arith, ground arith, omega arith, fresh, ground arith, λ h expected ne. ground arith)

  -- The last identifier is never given out: at 2^64 - 1 an insertion is refused, and the registry is
  -- as it was.
  pub insert-exhausted :
      (type : HandleType) (object : A) (before : ℕ) (r : Registry A)
      → r.next_handle ≡ 2 ^ 64 - 1
      → let (s, out, after) = insert type (some object) (some before) r in
        (s.code ≡ internal_error) × (out ≡ some 0) × (after ≡ r)
  unfolding insert
  insert-exhausted type object before r e = ground arith

  set_refs-set_refs :
      (h c : ℕ) (t : Table A) (e : Entry A)
      → find h t ≡ some e
      → set_refs h e.refs (set_refs h c t) ≡ t
  unfolding find set_refs
  set_refs-set_refs h c [] e f = absurd (ground arith)
  set_refs-set_refs h c ((k, x) ∷ t) e f = ground (arith, set_refs-set_refs h c t e)

  -- A reference of a valid registry that is taken, below the limit of the count, and given back
  -- leaves no trace: `Release` undoes `Retain`.
  pub release-retain :
      (h : ℕ) (e : Entry A) (r : Registry A)
      → IsValid r
      → find h r.entries ≡ some e
      → e.refs + 1 < 2 ^ 64
      → let (s, held) = retain h e.type r in (s ≡ ok) × (release h e.type held ≡ (ok, r))
  unfolding retain release same_type
  release-retain h e r v f b = ground (
    arith,
    find-refs r.next_handle h r.entries e v.entries f,
    find-set_refs h (e.refs + 1) h r.entries,
    set_refs-set_refs h (e.refs + 1) r.entries e f,
  )

  step-dead :
      (a : Action A) (h : ℕ) (r : Registry A)
      → IsValid r
      → h < r.next_handle
      → find h r.entries ≡ none
      → (find h (step a r).entries ≡ none) × (h < (step a r).next_handle)
  unfolding step insert retain release find
  step-dead (inserts type none) h r v b f = (f, b)
  step-dead (inserts type (some o)) h r v b f = ground arith
  step-dead (retains k type) h r v b f = elim (Option-cases (find k r.entries)) [
    | inl gone ↦ ground arith
    | inr (e, found) ↦ ground (arith, find-set_refs k (e.refs + 1) h r.entries)
  ]
  step-dead (releases k type) h r v b f = elim (Option-cases (find k r.entries)) [
    | inl gone ↦ ground arith
    | inr (e, found) ↦ ground (
      arith,
      find-set_refs k (e.refs - 1) h r.entries,
      find-erase r.next_handle k h r.entries v.entries,
    )
  ]

  run-dead :
      (actions : List (Action A)) (h : ℕ) (r : Registry A)
      → IsValid r
      → h < r.next_handle
      → find h r.entries ≡ none
      → find h (run actions r).entries ≡ none
  unfolding run
  run-dead [] h r v b f = f
  run-dead (a ∷ actions) h r v b f =
      let (gone, below) = step-dead a h r v b f in
      run-dead actions h (step a r) (step-IsValid a r v) below gone

  last_release :
      (h : ℕ) (e : Entry A) (r : Registry A)
      → IsValid r
      → find h r.entries ≡ some e
      → e.refs ≡ 1
      → let r' = step (releases h e.type) r in
        (find h r'.entries ≡ none) × (r'.next_handle ≡ r.next_handle)
  unfolding step release same_type
  last_release h e r v f one = ground (
    arith,
    find-refs r.next_handle h r.entries e v.entries f,
    find-erase r.next_handle h h r.entries v.entries,
  )

  lookup-dead :
      (h : ℕ) (expected : HandleType) (r : Registry A)
      → find h r.entries ≡ none
      → ((lookup h expected r).0.code ≡ invalid_handle) × ((lookup h expected r).1 ≡ none)
  unfolding lookup
  lookup-dead h expected r f = ground arith

  -- Once the only reference to a handle of a valid registry is released, no later calls make the
  -- handle valid again: each lookup of it, under any type, is INVALID_HANDLE and gives no object.
  pub released-dead :
      (actions : List (Action A)) (h : ℕ) (e : Entry A) (expected : HandleType) (r : Registry A)
      → IsValid r
      → find h r.entries ≡ some e
      → e.refs ≡ 1
      → let later = run actions (step (releases h e.type) r) in
        ((lookup h expected later).0.code ≡ invalid_handle) × ((lookup h expected later).1 ≡ none)
  released-dead actions h e expected r v f one =
      let (gone, same) = last_release h e r v f one in
      let (_, below, _, _) = find-refs r.next_handle h r.entries e v.entries f in
      lookup-dead h expected _ (
        run-dead actions h (step (releases h e.type) r) (step-IsValid (releases h e.type) r v)
          (rw same below) gone)
