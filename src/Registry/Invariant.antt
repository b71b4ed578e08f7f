-- ===== src/Registry/Invariant.antt =====
-- native/src/runtime/handle_registry.cc: the well-formed registries, and sequences of calls.
use tensora.Registry.Entries.{HandleType, Entry, Table, find, erase, set_refs}
use tensora.Registry.{Registry, empty, insert, retain, release}
use tensora.Prelude.{
  ℕ, ◌+◌, ◌-◌, ◌^◌, ◌<◌, ◌≤◌, ◌≡◌, refl, Option, none, some, List, [], ◌∷◌, ◌==◌, if◌then◌else◌,
  arith, Option-cases, inl, inr,
}

-- Every handle is positive, below the next one and in one entry, and every count fits and is not 0.
abbrev pub EntriesBelow : {A : Type 0} → ℕ → Table A → Type 0
EntriesBelow n [] = Unit
EntriesBelow n ((h, e) ∷ m) =
    ((0 < h) × (h < n) × (0 < e.refs) × (e.refs < 2 ^ 64) × (find h m ≡ none)) × EntriesBelow n m

pub record IsValid {A : Type 0} (r : Registry A) : Type 0 where
  pub entries : EntriesBelow r.next_handle r.entries
  pub started : 0 < r.next_handle
  pub bounded : r.next_handle < 2 ^ 64

pub data Action (A : Type 0) : Type 0 where
  inserts : HandleType → Option A → Action A
  retains releases : ℕ → HandleType → Action A

module _ {A : Type 0} where
  -- One call of a client.
  unfoldable pub step : Action A → Registry A → Registry A
  step (inserts type object) r = (insert type object (some 0) r).2
  step (retains h type) r = (retain h type r).1
  step (releases h type) r = (release h type r).1

  unfoldable pub run : List (Action A) → Registry A → Registry A
  run [] r = r
  run (a ∷ actions) r = run actions (step a r)

  EntriesBelow-mono : (m n : ℕ) (t : Table A) → m ≤ n → EntriesBelow m t → EntriesBelow n t
  EntriesBelow-mono m n [] h v = tt
  EntriesBelow-mono m n ((k, e) ∷ t) h (v, vs) = ground (arith, EntriesBelow-mono m n t h vs)

  pub find_above : (n h : ℕ) (t : Table A) → EntriesBelow n t → n ≤ h → find h t ≡ none
  unfolding find
  find_above n h [] v b = refl
  find_above n h ((k, e) ∷ t) (v, vs) b = ground (arith, find_above n h t vs b)

  -- Other handles do not see an erasure or a new count.
  pub find-erase :
      (n h j : ℕ) (t : Table A)
      → EntriesBelow n t
      → find j (erase h t) ≡ (if h == j then none else find j t)
  unfolding find erase
  find-erase n h j [] v = ground arith
  find-erase n h j ((k, e) ∷ t) (v, vs) = ground (arith, find-erase n h j t vs)

  abbrev pub with_refs : ℕ → Option (Entry A) → Option (Entry A)
  with_refs c none = none
  with_refs c (some e) = some (record e { refs = c })

  pub find-set_refs :
      (h c j : ℕ) (t : Table A)
      → find j (set_refs h c t) ≡ (if h == j then with_refs c (find j t) else find j t)
  unfolding find set_refs
  find-set_refs h c j [] = ground arith
  find-set_refs h c j ((k, e) ∷ t) = ground (arith, find-set_refs h c j t)

  erase-EntriesBelow : (n h : ℕ) (t : Table A) → EntriesBelow n t → EntriesBelow n (erase h t)
  unfolding erase
  erase-EntriesBelow n h [] v = tt
  erase-EntriesBelow n h ((k, e) ∷ t) (v, vs) =
      ground (arith, erase-EntriesBelow n h t vs, find-erase n h k t vs)

  set_refs-EntriesBelow :
      (n h c : ℕ) (t : Table A)
      → 0 < c
      → c < 2 ^ 64
      → EntriesBelow n t
      → EntriesBelow n (set_refs h c t)
  unfolding set_refs
  set_refs-EntriesBelow n h c [] p b v = tt
  set_refs-EntriesBelow n h c ((k, e) ∷ t) p b (v, vs) =
      ground (arith, set_refs-EntriesBelow n h c t p b vs, find-set_refs h c k t)

  -- The entry that a lookup finds has a count that fits and is not 0.
  pub find-refs :
      (n h : ℕ) (t : Table A) (e : Entry A)
      → EntriesBelow n t
      → find h t ≡ some e
      → (0 < h) × (h < n) × (0 < e.refs) × (e.refs < 2 ^ 64)
  unfolding find
  find-refs n h [] e v f = absurd (ground arith)
  find-refs n h ((k, e) ∷ t) found (v, vs) f = ground (arith, find-refs n h t found vs)

  insert-IsValid :
      (type : HandleType) (object : Option A) (r : Registry A)
      → IsValid r
      → IsValid (insert type object (some 0) r).2
  unfolding insert
  insert-IsValid type none r v = v
  insert-IsValid type (some object) r v = ground (
    arith,
    find_above r.next_handle r.next_handle r.entries v.entries,
    EntriesBelow-mono r.next_handle (r.next_handle + 1) r.entries,
  )

  retain-IsValid :
      (h : ℕ) (type : HandleType) (r : Registry A) → IsValid r → IsValid (retain h type r).1
  unfolding retain
  retain-IsValid h type r v = elim (Option-cases (find h r.entries)) [
    | inl gone ↦ ground arith
    | inr (e, found) ↦ ground (
      arith,
      find-refs r.next_handle h r.entries e v.entries found,
      set_refs-EntriesBelow r.next_handle h (e.refs + 1) r.entries,
    )
  ]

  release-IsValid :
      (h : ℕ) (type : HandleType) (r : Registry A) → IsValid r → IsValid (release h type r).1
  unfolding release
  release-IsValid h type r v = elim (Option-cases (find h r.entries)) [
    | inl gone ↦ ground arith
    | inr (e, found) ↦ ground (
      arith,
      find-refs r.next_handle h r.entries e v.entries found,
      set_refs-EntriesBelow r.next_handle h (e.refs - 1) r.entries,
      erase-EntriesBelow r.next_handle h r.entries v.entries,
    )
  ]

  pub empty-IsValid : IsValid {A = A} empty
  empty-IsValid = record { entries = tt; started = omega arith; bounded = omega arith }

  pub step-IsValid : (a : Action A) (r : Registry A) → IsValid r → IsValid (step a r)
  unfolding step
  step-IsValid (inserts type object) r v = insert-IsValid type object r v
  step-IsValid (retains h type) r v = retain-IsValid h type r v
  step-IsValid (releases h type) r v = release-IsValid h type r v

  pub run-IsValid :
      (actions : List (Action A)) (r : Registry A) → IsValid r → IsValid (run actions r)
  unfolding run
  run-IsValid [] r v = v
  run-IsValid (a ∷ actions) r v = run-IsValid actions (step a r) (step-IsValid a r v)

  -- After any calls on the empty registry each handle in it is positive, below the next handle and
  -- in one entry, and each reference count is at least 1 and below 2^64.
  pub run-empty-IsValid : (actions : List (Action A)) → IsValid (run actions empty)
  run-empty-IsValid actions = run-IsValid actions empty empty-IsValid
