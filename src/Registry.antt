-- ===== src/Registry.antt =====
-- native/src/runtime/handle_registry.h, handle_registry.cc and handle_registry_internal.h: the table
-- behind every handle of the C interface. Each operation holds the registry's mutex throughout, so
-- concurrent calls are a sequence of these operations.
pub mod Entries
pub mod Invariant
pub mod Lifetime
pub mod Balance
pub mod Refinement
pub mod Draining
pub mod Additions
use Entries.{HandleType, same_type, Entry, Table, find, erase, set_refs}
use tensora.Core.Status.{Status, is_ok, ok, fail_argument, fail_handle, fail_internal}
use tensora.Prelude.{
  ℕ, ◌+◌, ◌-◌, ◌%◌, ◌^◌, not, Bool, true, false, Option, none, some, List, [], ◌∷◌, ltb, ◌==◌, ◌||◌,
  if◌then◌else◌,
}

pub record Registry (A : Type 0) : Type 0 where
  pub entries : Table A
  pub next_handle : ℕ

abbrev pub empty : {A : Type 0} → Registry A
empty = record { entries = []; next_handle = 1 }

-- `ValidateNextHandle`
validate_next_handle : ℕ → Status
validate_next_handle next =
    if next == 0 || next == 2 ^ 64 - 1
    then fail_internal "handle registry: handle identifier space exhausted"
    else ok

module _ {A : Type 0} where
  -- `emplace` adds nothing where the key is taken.
  emplaced : ℕ → Entry A → Table A → Option (Entry A) → Table A × Bool
  emplaced h e m none = ((h, e) ∷ m, true)
  emplaced h e m (some _) = (m, false)

  emplace : ℕ → Entry A → Table A → Table A × Bool
  unfolding emplaced
  emplace h e m = emplaced h e m (find h m)

  -- `Insert`: a null object or output pointer is `none`. The result is the status, what the output
  -- pointer points to, and the registry.
  pub insert : HandleType → Option A → Option ℕ → Registry A → Status × Option ℕ × Registry A
  unfolding validate_next_handle emplace
  insert type object none r =
      (fail_argument "handle registry: output handle pointer is null", none, r)
  insert type none (some _) r =
      (fail_argument "handle registry: cannot register null object", some 0, r)
  insert type (some object) (some _) r =
      let status = validate_next_handle r.next_handle in
      let handle = r.next_handle in
      let (entries, inserted) =
        emplace handle (record { type = type; refs = 1; object = object }) r.entries in
      let after : Registry A = record { entries = entries; next_handle = (handle + 1) % 2 ^ 64 } in
      if not (is_ok status)
      then (status, some 0, r)
      else if not inserted
      then (fail_internal "handle registry: duplicate handle identifier", some 0, after)
      else (ok, some handle, after)

  -- `Retain`, once the entry is looked up.
  retain_entry : ℕ → HandleType → Registry A → Option (Entry A) → Status × Registry A
  retain_entry h expected r none =
      (fail_handle "handle registry: cannot retain unknown/released handle", r)
  retain_entry h expected r (some e) =
      if not (same_type e.type expected)
      then (fail_handle "handle registry: handle type mismatch", r)
      else if e.refs == 2 ^ 64 - 1
      then (fail_internal "handle registry: reference count overflow", r)
      else (ok, record r { entries = set_refs h (e.refs + 1) r.entries })

  -- `Retain`
  pub retain : ℕ → HandleType → Registry A → Status × Registry A
  unfolding retain_entry
  retain h expected r =
      if h == 0
      then (fail_handle "handle registry: handle 0 is invalid", r)
      else retain_entry h expected r (find h r.entries)

  -- `Release`, once the entry is looked up: the last reference takes the entry out.
  release_entry : ℕ → HandleType → Registry A → Option (Entry A) → Status × Registry A
  release_entry h expected r none =
      (fail_handle "handle registry: cannot release unknown/released handle", r)
  release_entry h expected r (some e) =
      if not (same_type e.type expected)
      then (fail_handle "handle registry: handle type mismatch", r)
      else if e.refs == 0
      then (fail_internal "handle registry: corrupted zero reference count", r)
      else if e.refs - 1 == 0
      then (ok, record r { entries = erase h r.entries })
      else (ok, record r { entries = set_refs h (e.refs - 1) r.entries })

  -- `Release`
  pub release : ℕ → HandleType → Registry A → Status × Registry A
  unfolding release_entry
  release h expected r =
      if h == 0
      then (fail_handle "handle registry: handle 0 is invalid", r)
      else release_entry h expected r (find h r.entries)

  lookup_entry : HandleType → Option (Entry A) → Status × Option A
  lookup_entry expected none = (fail_handle "handle registry: unknown or released handle", none)
  lookup_entry expected (some e) =
      if not (same_type e.type expected)
      then (fail_handle "handle registry: handle type mismatch", none)
      else (ok, some e.object)

  -- The part of `Lookup` after its null check: the status, and what the caller's `shared_ptr` holds
  -- afterwards.
  unfoldable pub lookup : ℕ → HandleType → Registry A → Status × Option A
  unfolding lookup_entry
  lookup h expected r =
      if h == 0
      then (fail_handle "handle registry: handle 0 is invalid", none)
      else lookup_entry expected (find h r.entries)

  -- `Lookup`: the outer `none` is a null pointer to the caller's `shared_ptr`.
  pub lookup_into : ℕ → HandleType → Option (Option A) → Registry A → Status × Option (Option A)
  lookup_into h expected none r =
      (fail_argument "handle registry: lookup output pointer is null", none)
  lookup_into h expected (some _) r = let (status, out) = lookup h expected r in (status, some out)

  -- The loop of `Count`.
  count_entries : HandleType → Table A → ℕ → ℕ
  count_entries type [] count = count
  count_entries type ((h, e) ∷ m) count =
      count_entries type m (if same_type e.type type then count + 1 else count)

  -- `Count`
  pub count : HandleType → Registry A → ℕ
  unfolding count_entries
  count type r = count_entries type r.entries 0
