-- ===== src/Registry/Draining.antt =====
-- native/src/runtime/handle_registry.cc: a client that gives back every reference it has.
use tensora.Core.Status.{ok}
use tensora.Registry.Entries.{HandleType, same_type, Entry, find}
use tensora.Registry.{Registry, release}
use tensora.Registry.Invariant.{
  IsValid, releases, step, run, find-erase, find-set_refs, find-refs, step-IsValid,
}
use tensora.Prelude.{
  ℕ, zero, suc, ◌-◌, ◌≡◌, refl, ap, ◌∙◌, false, none, some, ◌==◌, replicate, if◌then◌else◌, arith,
}

module _ {A : Type 0} where
  release-entry :
      (h : ℕ) (e : Entry A) (r : Registry A)
      → IsValid r
      → find h r.entries ≡ some e
      → ((release h e.type r).0 ≡ ok)
        × (find h (release h e.type r).1.entries
            ≡ (if e.refs == 1 then none else some (record e { refs = e.refs - 1 })))
  unfolding release same_type
  release-entry h e r v found = ground (
    arith,
    find-refs r.next_handle h r.entries e v.entries found,
    find-set_refs h (e.refs - 1) h r.entries,
    find-erase r.next_handle h h r.entries v.entries,
  )

  one_less :
      (e : Entry A) (n : ℕ)
      → e.refs ≡ suc (suc n)
      → (if e.refs == 1 then none else some (record e { refs = e.refs - 1 }))
        ≡ some (record e { refs = suc n })
  one_less e n c =
      let big : (e.refs == 1) ≡ false = ground arith in
      let less : e.refs - 1 ≡ suc n = omega arith in
      rw big (ap (λ (k : ℕ). some (record e { refs = k })) less)

  -- The statuses of that many releases.
  abbrev pub AllSucceed : ℕ → ℕ → HandleType → Registry A → Type 0
  AllSucceed zero h type r = Unit
  AllSucceed (suc n) h type r =
      ((release h type r).0 ≡ ok) × AllSucceed n h type (release h type r).1

  -- Releasing a handle of a valid registry as many times as it has references succeeds each time,
  -- and the handle is then gone.
  pub release-drained :
      (n h : ℕ) (e : Entry A) (r : Registry A)
      → IsValid r
      → find h r.entries ≡ some e
      → e.refs ≡ n
      → AllSucceed n h e.type r × (find h (run (replicate n (releases h e.type)) r).entries ≡ none)
  unfolding run step
  release-drained zero h e r v found c =
      absurd (omega (arith, find-refs r.next_handle h r.entries e v.entries found))
  release-drained (suc zero) h e r v found c =
      let (fine, after) = release-entry h e r v found in ((fine, tt), rw (after, c) refl)
  release-drained (suc (suc n)) h e r v found c =
      let (fine, after) = release-entry h e r v found in
      let (all, gone) =
        release-drained (suc n) h (record e { refs = suc n }) (release h e.type r).1
          (step-IsValid (releases h e.type) r v) (after ∙ one_less e n c) refl in
      ((fine, all), gone)
