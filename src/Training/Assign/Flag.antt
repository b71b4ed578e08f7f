-- ===== src/Training/Assign/Flag.antt =====
-- native/src/training/nn_v2_parameter_control.h: SetRequiresGrad, seen by RequiresGrad.
use tensora.Tensor.{Tensor}
use tensora.Heap.{Heap, AutogradMeta, guarded, bad_alloc, length_error}
use tensora.Steps.{Result}
use tensora.Autograd.Values.{requires_grad}
use tensora.Autograd.Aliases.{get_elem?-set}
use tensora.Training.Assign.{set_requires_grad}
use tensora.Prelude.{
  get_elem?-snoc, ℕ, ◌≡◌, refl, ap, subst, ◌∙◌, Bool, true, false, Option, none, some, get_elem?,
  set, length, Bool-cases, Option-cases, inl, inr, if◌then◌else◌,
}

-- The gradient that a tensor has in the heap.
abbrev pub meta_gradient : Option AutogradMeta → Option ℕ
meta_gradient none = none
meta_gradient (some meta) = meta.gradient

abbrev pub gradient_at : {F : Type 0} → Heap F → Option ℕ → Option ℕ
gradient_at h none = none
gradient_at h (some m) = meta_gradient (get_elem? h.metas m)

abbrev pub gradient_in : {F : Type 0} → Heap F → Tensor → Option ℕ
gradient_in h t = gradient_at h t.autograd_meta

-- A tensor of the heap requires a gradient or not, and has none where it does not.
pub record HasFlag {F : Type 0} (tensor : ℕ) (requires : Bool) (h : Heap F) : Type 0 where
  pub t : Tensor
  pub found : get_elem? h.tensors tensor ≡ some t
  pub flag : requires_grad t h ≡ (Result.done requires, h)
  pub cleared : (if requires then none else gradient_in h t) ≡ none

abbrev leaf_meta : AutogradMeta
leaf_meta = record { requires_grad = true; is_leaf = true; gradient = none; grad_fn = none }

cleared_or_kept :
    (requires : Bool) (g : Option ℕ)
    → (if requires then none else (if requires then g else none)) ≡ none
cleared_or_kept true g = refl
cleared_or_kept false g = refl

module _ {F : Type 0} where
  flag_of :
      (h : Heap F) (t : Tensor) (m : ℕ) (meta : AutogradMeta)
      → t.autograd_meta ≡ some m
      → get_elem? h.metas m ≡ some meta
      → requires_grad t h ≡ (Result.done meta.requires_grad, h)
  unfolding requires_grad
  flag_of h t m meta has at_m = rw (has, at_m)

  gradient_of :
      (h : Heap F) (t : Tensor) (m : ℕ) (meta : AutogradMeta)
      → t.autograd_meta ≡ some m
      → get_elem? h.metas m ≡ some meta
      → gradient_in h t ≡ meta.gradient
  gradient_of h t m meta has at_m = ap (gradient_at h) has ∙ ap meta_gradient at_m

  set_bare :
      (tensor : ℕ) (requires : Bool) (h h' : Heap F) (t : Tensor)
      → get_elem? h.tensors tensor ≡ some t
      → t.autograd_meta ≡ none
      → set_requires_grad tensor requires h ≡ (Result.done tt, h')
      → HasFlag tensor requires h'
  unfolding set_requires_grad requires_grad guarded
  set_bare tensor false h h' t found bare e =
      subst (HasFlag tensor false) (ap (λ r. r.1) (rw (found, bare) at e))
        (record { t = t; found = found; flag = rw bare refl; cleared = rw bare refl })
  set_bare tensor true h h' t found bare e = elim (Option-cases (h.allocator h.requests 0)) [
    | inr (bad_alloc, refused) ↦ cc (rw (found, bare, refused) at e)
    | inr (length_error, refused) ↦ cc (rw (found, bare, refused) at e)
    | inl granted ↦
        let t' = record t { autograd_meta = some (length h.metas) } in
        subst (HasFlag tensor true) (ap (λ r. r.1) (rw (found, bare, granted) at e)) (record {
          t = t';
          found = get_elem?-set h.tensors tensor t' t found;
          flag = flag_of _ t' (length h.metas) leaf_meta refl (get_elem?-snoc h.metas leaf_meta);
          cleared = refl;
        })
  ]

  set_meta :
      (tensor : ℕ) (requires : Bool) (h h' : Heap F) (t : Tensor) (m : ℕ) (meta : AutogradMeta)
      → get_elem? h.tensors tensor ≡ some t
      → t.autograd_meta ≡ some m
      → get_elem? h.metas m ≡ some meta
      → set_requires_grad tensor requires h ≡ (Result.done tt, h')
      → HasFlag tensor requires h'
  unfolding set_requires_grad requires_grad
  set_meta tensor requires h h' t m meta found has at_m e = elim (Bool-cases meta.is_leaf) [
    | inr inner ↦ cc (rw (found, has, at_m, inner) at e)
    | inl leaf ↦
        let meta' : AutogradMeta = record {
          requires_grad = requires;
          is_leaf = true;
          gradient = if requires then meta.gradient else none;
          grad_fn = meta.grad_fn;
        } in
        let g : Heap F = record h { metas = set h.metas m meta' } in
        let stored = get_elem?-set h.metas m meta' meta at_m in
        let step = rw (found, has, at_m, leaf) at e in
        let same : g ≡ h' = ap (λ r. r.1) step in
        subst (HasFlag tensor requires) same (record {
          t = t;
          found = found;
          flag = flag_of g t m meta' has stored;
          cleared =
              ap (λ g. if requires then none else g) (gradient_of g t m meta' has stored)
              ∙ cleared_or_kept requires meta.gradient;
        })
  ]

  -- After SetRequiresGrad succeeds, the tensor's RequiresGrad is what was asked for, and a tensor
  -- that was asked not to require a gradient has none.
  pub set_requires_grad-HasFlag :
      (tensor : ℕ) (requires : Bool) (h h' : Heap F)
      → set_requires_grad tensor requires h ≡ (Result.done tt, h')
      → HasFlag tensor requires h'
  unfolding set_requires_grad
  set_requires_grad-HasFlag tensor requires h h' e =
      elim (Option-cases (get_elem? h.tensors tensor)) [
        | inl gone ↦ cc (rw gone at e)
        | inr (t, found) ↦ elim (Option-cases t.autograd_meta) [
          | inl bare ↦ set_bare tensor requires h h' t found bare e
          | inr (m, has) ↦ elim (Option-cases (get_elem? h.metas m)) [
            | inl lost ↦ cc (rw (found, has, lost) at e)
            | inr (meta, at_m) ↦ set_meta tensor requires h h' t m meta found has at_m e
          ]
        ]
      ]
