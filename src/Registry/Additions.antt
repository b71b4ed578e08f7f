-- ===== src/Registry/Additions.antt =====
-- native/src/runtime/handle_registry.cc: a registry with one more handle.
use tensora.Core.Status.{ok, is_ok}
use tensora.Registry.Entries.{HandleType, Entry, same_type, find, erase, set_refs}
use tensora.Registry.{Registry, insert, release, lookup}
use tensora.Registry.Invariant.{IsValid, find_above}
use tensora.Prelude.{
  ℕ, ◌+◌, ◌-◌, ◌^◌, ◌<◌, ◌≡◌, refl, ◌⊎◌, ◌==◌, false, Option, none, some, ◌∷◌, arith, Option-cases,
  Bool-cases, inl, inr,
}

module _ {A : Type 0} where
  -- The registry after a new handle `n` for `e`.
  abbrev pub above : ℕ → Entry A → Registry A → Registry A
  above n e r = record { entries = (n, e) ∷ r.entries; next_handle = n + 1 }

  abbrev pub fresh : HandleType → A → Entry A
  fresh type object = record { type = type; refs = 1; object = object }

  pub release-above :
      (h n : ℕ) (type : HandleType) (e : Entry A) (r : Registry A)
      → h < n
      → (release h type (above n e r)).1 ≡ above n e (release h type r).1
  unfolding release find set_refs erase
  release-above h n type e r less = elim (Option-cases (find h r.entries)) [
    | inl gone ↦ ground arith
    | inr (entry, found) ↦ ground arith
  ]

  pub release-fresh :
      (n : ℕ) (type : HandleType) (object : A) (r : Registry A)
      → 0 < n
      → (release n type (above n (fresh type object) r)).1.entries ≡ r.entries
  unfolding release find erase same_type
  release-fresh n type object r positive = ground arith

  -- Another handle does not see the new one.
  pub lookup-above :
      (h n : ℕ) (type : HandleType) (e : Entry A) (r : Registry A)
      → h < n
      → lookup h type (above n e r) ≡ lookup h type r
  unfolding lookup find
  lookup-above h n type e r less = ground arith

  pub lookup-fresh :
      (n : ℕ) (type : HandleType) (object : A) (r : Registry A)
      → 0 < n
      → lookup n type (above n (fresh type object) r) ≡ (ok, some object)
  unfolding lookup find same_type
  lookup-fresh n type object r positive = ground arith

  -- An insertion into a valid registry fails and changes nothing, or adds the next handle.
  pub insert-cases :
      (type : HandleType) (x : Option A) (r : Registry A)
      → IsValid r
      → let (s, out, after) = insert type x (some 0) r in
        ((is_ok s ≡ false) × (after ≡ r))
        ⊎ ((object : A) × (x ≡ some object)
            × (insert type x (some 0) r
                ≡ (ok, some r.next_handle, above r.next_handle (fresh type object) r)))
  unfolding insert
  insert-cases type none r v = inl (refl, refl)
  insert-cases type (some object) r v = elim (Bool-cases (r.next_handle == 2 ^ 64 - 1)) [
    | inl last ↦ inl (ground arith, ground arith)
    | inr more ↦
        inr
          (object, refl, ground (arith, find_above r.next_handle r.next_handle r.entries v.entries))
  ]
