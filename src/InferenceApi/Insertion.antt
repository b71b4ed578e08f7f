-- ===== src/InferenceApi/Insertion.antt =====
-- native/src/inference/inference_c_api.cc: the loop that makes handles of the results of a run.
use mathlib.Core.List.{append_assoc, append-nil, map-append}
use tensora.Core.Status.{Status, ok, is_ok}
use tensora.Registry.Entries.{tensor_handle, Entry, Table}
use tensora.Registry.{Registry, release, lookup}
use tensora.Registry.Invariant.{IsValid, inserts, step, step-IsValid}
use tensora.Registry.Additions.{
  above, fresh, release-above, release-fresh, lookup-above, lookup-fresh, insert-cases,
}
use tensora.InferenceApi.Run.{insert_inference_tensor, release_inserted_outputs, insert_results}
use tensora.Prelude.{
  ℕ, ◌+◌, ◌<◌, ◌≡◌, refl, sym, ap, ap₂, ◌∙◌, subst, ◌⊎◌, true, false, Option, some, List, [], ◌∷◌,
  ◌++◌, All, map, arith, inl, inr, length, length-append,
}

release_inserted_outputs-above :
    (handles : List ℕ) (n : ℕ) (e : Entry ℕ) (r : Registry ℕ)
    → All (λ h. h < n) handles
    → release_inserted_outputs handles (above n e r)
      ≡ above n e (release_inserted_outputs handles r)
unfolding release_inserted_outputs
release_inserted_outputs-above [] n e r below = refl
release_inserted_outputs-above (h ∷ handles) n e r (less, below) = ground (
  arith,
  release-above h n tensor_handle e r less,
  release_inserted_outputs-above handles n e r below,
  release_inserted_outputs-above handles n e (release h tensor_handle r).1 below,
)

release_inserted_outputs-append :
    (handles more : List ℕ) (r : Registry ℕ)
    → release_inserted_outputs (handles ++ more) r
      ≡ release_inserted_outputs more (release_inserted_outputs handles r)
unfolding release_inserted_outputs
release_inserted_outputs-append [] more r = refl
release_inserted_outputs-append (h ∷ handles) more r =
    release_inserted_outputs-append handles more _

-- Taking back the handles and a new one leaves what taking back the handles leaves.
release_inserted_outputs-fresh :
    (handles : List ℕ) (n tensor : ℕ) (r : Registry ℕ)
    → 0 < n
    → All (λ h. h < n) handles
    → (release_inserted_outputs
        (handles ++ n ∷ [])
        (above n (fresh tensor_handle tensor) r)).entries
      ≡ (release_inserted_outputs handles r).entries
unfolding release_inserted_outputs
release_inserted_outputs-fresh handles n tensor r positive below =
    rw
      (
        release_inserted_outputs-append handles (n ∷ []) (above n (fresh tensor_handle tensor) r),
        release_inserted_outputs-above handles n (fresh tensor_handle tensor) r below,
      )
      (ground
        (arith, release-fresh n tensor_handle tensor (release_inserted_outputs handles r) positive))

All-later : (n : ℕ) (handles : List ℕ) → All (λ h. h < n) handles → All (λ h. h < n + 1) handles
All-later n [] below = tt
All-later n (h ∷ handles) (less, below) = (omega arith, All-later n handles below)

All-snoc :
    (n : ℕ) (handles : List ℕ) → All (λ h. h < n) handles → All (λ h. h < n + 1) (handles ++ n ∷ [])
All-snoc n [] below = (omega arith, tt)
All-snoc n (h ∷ handles) (less, below) = (omega arith, All-snoc n handles below)

-- What the handles stand for.
abbrev pub found : Registry ℕ → List ℕ → List (Status × Option ℕ)
found r handles = map (λ h. lookup h tensor_handle r) handles

abbrev pub objects : List (Option ℕ) → List (Status × Option ℕ)
objects results = map (λ x. (ok, x)) results

found-above :
    (handles : List ℕ) (n : ℕ) (e : Entry ℕ) (r : Registry ℕ)
    → All (λ h. h < n) handles
    → found (above n e r) handles ≡ found r handles
found-above [] n e r below = refl
found-above (h ∷ handles) n e r (less, below) =
    ap₂ (λ x xs. x ∷ xs) (lookup-above h n tensor_handle e r less) (found-above handles n e r below)

-- The registry after some results are inserted, from one with these entries.
pub record Gathered (entries : Table ℕ) (results : List (Option ℕ)) (handles : List ℕ)
    (r : Registry ℕ) : Type 0 where
  pub valid : IsValid r
  pub below : All (λ h. h < r.next_handle) handles
  pub restores : (release_inserted_outputs handles r).entries ≡ entries
  pub stands_for : found r handles ≡ objects results
  pub counted : length handles ≡ length results

Gathered-snoc :
    (entries : Table ℕ) (results : List (Option ℕ)) (handles : List ℕ) (r : Registry ℕ) (tensor : ℕ)
    → Gathered entries results handles r
    → IsValid (above r.next_handle (fresh tensor_handle tensor) r)
    → Gathered entries
        (results ++ some tensor ∷ [])
        (handles ++ r.next_handle ∷ [])
        (above r.next_handle (fresh tensor_handle tensor) r)
Gathered-snoc entries results handles r tensor g v =
    let n = r.next_handle in
    record {
      valid = v;
      below = All-snoc n handles g.below;
      restores =
          release_inserted_outputs-fresh handles n tensor r g.valid.started g.below ∙ g.restores;
      stands_for =
          map-append (λ h. lookup h tensor_handle (above n (fresh tensor_handle tensor) r)) handles
            (n ∷ [])
          ∙ ap₂ (λ xs ys. xs ++ ys)
              (found-above handles n (fresh tensor_handle tensor) r g.below ∙ g.stands_for)
              (ap (λ x. x ∷ []) (lookup-fresh n tensor_handle tensor r g.valid.started))
          ∙ sym (map-append (λ x. (ok, x)) results (some tensor ∷ []));
      counted = omega (
        arith,
        length-append handles (n ∷ []),
        length-append results (some tensor ∷ []),
        g.counted,
      );
    }

-- Either nothing is left in the table of what was inserted, or every result has a handle.
abbrev pub AllOrNothing : Table ℕ → List (Option ℕ) → Status × List ℕ × Registry ℕ → Type 0
AllOrNothing entries results (status, handles, after) =
    ((is_ok status ≡ false) × (after.entries ≡ entries))
    ⊎ ((is_ok status ≡ true) × Gathered entries results handles after)

insert_results-AllOrNothing :
    (entries : Table ℕ) (results : List (Option ℕ)) (handles : List ℕ) (rest : List (Option ℕ))
    (r : Registry ℕ)
    → Gathered entries results handles r
    → AllOrNothing entries (results ++ rest) (insert_results rest handles r)
unfolding insert_results insert_inference_tensor step
insert_results-AllOrNothing entries results handles [] r g =
    inr (refl, subst (λ xs. Gathered entries xs handles r) (sym (append-nil results)) g)
insert_results-AllOrNothing entries results handles (x ∷ rest) r g =
    elim (insert-cases tensor_handle x r g.valid) [
      | inl (bad, same) ↦
          rw bad
            (inl (bad, ap (λ q. (release_inserted_outputs handles q).entries) same ∙ g.restores))
      | inr (tensor, given, added) ↦
          let after = above r.next_handle (fresh tensor_handle tensor) r in
          let v =
            subst IsValid (ap (λ t. t.2) added)
              (step-IsValid (inserts tensor_handle x) r g.valid) in
          let later =
            insert_results-AllOrNothing entries (results ++ some tensor ∷ [])
              (handles ++ r.next_handle ∷ []) rest after
              (Gathered-snoc entries results handles r tensor g v) in
          rw (added, given)
            (subst
              (λ xs.
                AllOrNothing entries xs (insert_results rest (handles ++ r.next_handle ∷ []) after))
              (append_assoc results (some tensor ∷ []) rest) later)
    ]

-- Every result gets a handle, or the table is as it was.
pub insert_results-all :
    (results : List (Option ℕ)) (r : Registry ℕ)
    → IsValid r
    → AllOrNothing r.entries results (insert_results results [] r)
unfolding release_inserted_outputs
insert_results-all results r v =
    insert_results-AllOrNothing r.entries [] [] results r
      (record { valid = v; below = tt; restores = refl; stands_for = refl; counted = refl })
