-- ===== src/Autograd/Versions.antt =====
-- native/src/autograd/autograd.h: the check of the saved versions, and `Backward` where it fails.
use tensora.Core.Status.{Status}
use tensora.Float.{Float32}
use tensora.Tensor.{Tensor}
use tensora.Heap.{Heap, M, GradNode, load_tensor, version}
use tensora.Steps.{and_then, check, undefined_unless, Result}
use tensora.Autograd.Values.{requires_grad}
use tensora.Autograd.Graph.{check_versions, validate_saved_versions, grad_fn_of}
use tensora.Autograd.Backward.{check_grad_fn, check_all, topology_of, backward}
use tensora.Prelude.{
  ℕ, ◌==◌, Bool, true, false, Option, none, some, List, [], ◌∷◌, ◌≡◌, refl, length, get_elem?, inl,
  inr, ◌⊎◌, All, subst, sym, Bool-cases, Option-cases, arith, ==→≡,
}

-- The version that a tensor has now.
abbrev pub current_version : {F : Type 0} → Heap F → ℕ → Option ℕ
current_version h a = elim (get_elem? h.tensors a) [
  | none ↦ none
  | some t ↦ elim (get_elem? h.counters t.version_counter) [ none ↦ none | some c ↦ some c.value ]
]

-- The saved versions are those that the parents have.
abbrev pub IsCurrent : {F : Type 0} → Heap F → List ℕ → List ℕ → Type 0
IsCurrent h [] [] = Unit
IsCurrent h (p ∷ ps) (v ∷ vs) = (current_version h p ≡ some v) × IsCurrent h ps vs
IsCurrent h [] (v ∷ vs) = ⊥
IsCurrent h (p ∷ ps) [] = ⊥

abbrev pub IsNodeCurrent : {F : Type 0} → Heap F → Option GradNode → Type 0
IsNodeCurrent h none = Unit
IsNodeCurrent h (some node) = IsCurrent h node.parents node.parent_versions

abbrev pub is_done : {A : Type 0} → Result A → Bool
is_done (Result.done a) = true
is_done (Result.failed s) = false
is_done (Result.threw e) = false
is_done Result.undefined = false

check_versions-next :
    {F : Type 0} (p v : ℕ) (ps vs : List ℕ) (h : Heap F)
    → (current_version h p ≡ some v) × (check_versions (p ∷ ps) (v ∷ vs) h ≡ check_versions ps vs h)
      ⊎ ((check_versions (p ∷ ps) (v ∷ vs) h).1 ≡ h)
        × (is_done (check_versions (p ∷ ps) (v ∷ vs) h).0 ≡ false)
unfolding check_versions version
check_versions-next p v ps vs h = elim (Option-cases (get_elem? h.tensors p)) [
  | inl gone ↦ inr (ground (arith, gone), ground (arith, gone))
  | inr (t, found) ↦ elim (Option-cases (get_elem? h.counters t.version_counter)) [
    | inl gone ↦ inr (ground (arith, found, gone), ground (arith, found, gone))
    | inr (c, counter) ↦ elim (Bool-cases (c.value == v)) [
      | inl same ↦ inl (
        ground (arith, found, counter, ==→≡ c.value v same),
        ground (arith, found, counter, same),
      )
      | inr other ↦
          inr (ground (arith, found, counter, other), ground (arith, found, counter, other))
    ]
  ]
]

check_versions-frame :
    {F : Type 0} (parents versions : List ℕ) (h : Heap F)
    → (check_versions parents versions h).1 ≡ h
unfolding check_versions
check_versions-frame [] versions h = refl
check_versions-frame (p ∷ ps) [] h = refl
check_versions-frame (p ∷ ps) (v ∷ vs) h = elim (check_versions-next p v ps vs h) [
  | inl (same, next) ↦ ground (arith, next, check_versions-frame ps vs h)
  | inr (kept, stopped) ↦ kept
]

check_versions-IsCurrent :
    {F : Type 0} (parents versions : List ℕ) (h : Heap F)
    → length parents ≡ length versions
    → is_done (check_versions parents versions h).0 ≡ true
    → IsCurrent h parents versions
unfolding check_versions
check_versions-IsCurrent [] [] h same passed = tt
check_versions-IsCurrent [] (v ∷ vs) h same passed = ground (arith, same)
check_versions-IsCurrent (p ∷ ps) [] h same passed = ground (arith, same)
check_versions-IsCurrent (p ∷ ps) (v ∷ vs) h same passed = elim (check_versions-next p v ps vs h) [
  | inl (current, next) ↦ (
    current,
    check_versions-IsCurrent ps vs h (ground (arith, same)) (ground (arith, next, passed)),
  )
  | inr (kept, stopped) ↦ ground (arith, stopped, passed)
]

check_grad_fn-frame : {F : Type 0} (fn : Option GradNode) (h : Heap F) → (check_grad_fn fn h).1 ≡ h
unfolding check_grad_fn validate_saved_versions
check_grad_fn-frame none h = refl
check_grad_fn-frame (some node) h =
    elim (Bool-cases (length node.parents == length node.parent_versions)) [
      | inl same ↦ ground (arith, same, check_versions-frame node.parents node.parent_versions h)
      | inr other ↦ ground (arith, other)
    ]

pub check_grad_fn-IsNodeCurrent :
    {F : Type 0} (fn : Option GradNode) (h : Heap F)
    → is_done (check_grad_fn fn h).0 ≡ true
    → IsNodeCurrent h fn
unfolding check_grad_fn validate_saved_versions
check_grad_fn-IsNodeCurrent none h passed = tt
check_grad_fn-IsNodeCurrent (some node) h passed =
    elim (Bool-cases (length node.parents == length node.parent_versions)) [
      | inl same ↦
          check_versions-IsCurrent node.parents node.parent_versions h
            (==→≡ (length node.parents) (length node.parent_versions) same)
            (ground (arith, passed, same))
      | inr other ↦ ground (arith, other, passed)
    ]

-- A step that stops, and leaves the heap as it was.
abbrev pub Stops : {F A : Type 0} → Heap F → Result A × Heap F → Type 0
Stops h r = (r.1 ≡ h) × (is_done r.0 ≡ false)

and_then-Stops :
    {F A B : Type 0} (h : Heap F) (r : Result A × Heap F) (f : A → M F B)
    → r.1 ≡ h
    → ((a : A) → r.0 ≡ Result.done a → Stops h (f a h))
    → Stops h (and_then r f)
and_then-Stops h (Result.done a, h') f same next =
    subst (λ k. Stops h (f a k)) (sym same) (next a refl)
and_then-Stops h (Result.failed s, h') f same next = (same, refl)
and_then-Stops h (Result.threw e, h') f same next = (same, refl)
and_then-Stops h (Result.undefined, h') f same next = (same, refl)

undefined_unless-frame : {F A : Type 0} (o : Option A) (h : Heap F) → (undefined_unless o h).1 ≡ h
undefined_unless-frame none h = refl
undefined_unless-frame (some a) h = refl

check-frame : {F : Type 0} (b : Bool) (s : Status) (h : Heap F) → (check b s h).1 ≡ h
check-frame true s h = refl
check-frame false s h = refl

requires_grad-frame : {F : Type 0} (t : Tensor) (h : Heap F) → (requires_grad t h).1 ≡ h
unfolding requires_grad
requires_grad-frame t h = elim (Option-cases t.autograd_meta) [
  | inl plain ↦ ground (arith, plain)
  | inr (m, recorded) ↦ elim (Option-cases (get_elem? h.metas m)) [
    | inl gone ↦ ground (arith, recorded, gone)
    | inr (meta, found) ↦ ground (arith, recorded, found)
  ]
]

check_all-Stops :
    {F : Type 0} (topology : List ℕ) (h : Heap F)
    → ¬ All (λ v. IsNodeCurrent h (grad_fn_of h v)) topology
    → Stops h (check_all topology h)
unfolding check_all
check_all-Stops [] h stale = absurd (stale tt)
check_all-Stops (v ∷ rest) h stale =
    and_then-Stops h (check_grad_fn (grad_fn_of h v) h) (λ _. check_all rest)
      (check_grad_fn-frame (grad_fn_of h v) h)
      (λ _ passed. check_all-Stops rest h (λ others.
        stale (check_grad_fn-IsNodeCurrent (grad_fn_of h v) h (ground (arith, passed)), others)))

module _ {F : Type 0} ⦃fl : Float32 F⦄ where
  -- Where a tensor of the traversal has a parent whose version is not the one that was saved for it,
  -- Backward does not succeed, and the heap, with every gradient in it, is as it was before.
  pub backward-stale :
      (h : Heap F) (root : ℕ) (topology : List ℕ)
      → topology_of root h ≡ (Result.done topology, h)
      → ¬ All (λ v. IsNodeCurrent h (grad_fn_of h v)) topology
      → Stops h (backward root h)
  unfolding backward
  backward-stale h root topology listed stale =
      and_then-Stops h (load_tensor root h) _ (undefined_unless-frame (get_elem? h.tensors root) h)
        (λ t _.
          and_then-Stops h (check (t.shape.numel == 1) _ h) _ (check-frame (t.shape.numel == 1) _ h)
            (λ _ _. and_then-Stops h (requires_grad t h) _ (requires_grad-frame t h) (λ needs _.
              and_then-Stops h (check needs _ h) _ (check-frame needs _ h) (λ _ _.
                and_then-Stops h (topology_of root h) _ (ground (arith, listed)) (λ l found.
                  let same : topology ≡ l = ground (arith, listed, found) in
                  let stopped : Stops h (check_all l h) =
                    check_all-Stops l h
                      (subst (λ k. ¬ All (λ v. IsNodeCurrent h (grad_fn_of h v)) k) same stale) in
                  and_then-Stops h (check_all l h) _ stopped.0
                    (λ _ passed. ground (arith, stopped.1, passed)))))))
