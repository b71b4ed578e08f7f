-- ===== src/Autograd/Layout.antt =====
-- native/src/autograd/autograd.h: what RecordUnary leaves of the tensors. It gives its result metadata
-- of its own, and the tensors stay where they lie.
use tensora.Heap.{Heap, Operation, AutogradMeta, load_tensor, store_tensor, new_meta, version}
use tensora.Tensor.{Tensor}
use tensora.Steps.{◌>>=◌}
use tensora.Steps.Frame.{Frame, Keeps, load-Keeps, return-Keeps, bind-Keeps, if-Keeps, keeping}
use tensora.Autograd.Values.{requires_grad}
use tensora.Autograd.Graph.{any_requires_grad, saved_versions, attach, attach_node, record_unary}
use tensora.Prelude.{
  ℕ, zero, suc, ◌≡◌, Option, some, List, [], ◌∷◌, set, get_elem?, Option-cases, inl, inr,
}

-- The tensor is there, but for its metadata.
abbrev pub Lies : {F : Type 0} → Heap F → ℕ → Tensor → Type 0
Lies h a t = (m : Option ℕ) × (get_elem? h.tensors a ≡ some (record t { autograd_meta = m }))

-- Each tensor is as it was, but for its metadata.
abbrev pub layout_frame : (F : Type 0) → Frame (Heap F)
layout_frame F = record {
  Same = λ h h'. (a : ℕ) (t : Tensor) → Lies h a t → Lies h' a t;
  nothing = λ h a t e. e;
  further = λ h h' h'' f g a t e. g a t (f a t e);
}

-- A tensor of a list that has got new metadata.
set-lies :
    (ts : List Tensor) (r a : ℕ) (u t : Tensor) (m n : Option ℕ)
    → get_elem? ts r ≡ some u
    → get_elem? ts a ≡ some (record t { autograd_meta = m })
    → (k : Option ℕ) × (get_elem? (set ts r (record u { autograd_meta = n })) a
        ≡ some (record t { autograd_meta = k }))
set-lies [] r a u t m n e f = cc
set-lies (x ∷ ts) zero zero u t m n e f = (n, cc)
set-lies (x ∷ ts) zero (suc a) u t m n e f = (m, f)
set-lies (x ∷ ts) (suc r) zero u t m n e f = (m, f)
set-lies (x ∷ ts) (suc r) (suc a) u t m n e f = set-lies ts r a u t m n e f

module _ (F : Type 0) where
  mark-Keeps :
      (a : ℕ) (m : ℕ)
      → Keeps
          (layout_frame F)
          (load_tensor a >>= λ t. store_tensor a (record t { autograd_meta = some m }))
  unfolding Keeps
  mark-Keeps a m h = elim (Option-cases (get_elem? h.tensors a)) [
    | inl absent ↦ rw absent (λ b t e. e)
    | inr (u, found) ↦ rw found (λ b t (k, e). set-lies h.tensors a b u t k (some m) found e)
  ]

  new_meta-Keeps : (m : AutogradMeta) → Keeps (layout_frame F) (new_meta m)
  unfolding Keeps
  new_meta-Keeps m h = λ b t e. e

  load_tensor-Keeps : (a : ℕ) → Keeps (layout_frame F) (load_tensor a)
  load_tensor-Keeps a = load-Keeps (layout_frame F) (λ h. get_elem? h.tensors a)

  requires_grad-Keeps : (t : Tensor) → Keeps (layout_frame F) (requires_grad t)
  unfolding requires_grad
  requires_grad-Keeps t = elim (Option-cases t.autograd_meta) [
    | inl absent ↦ rw absent (return-Keeps (layout_frame F) _)
    | inr (m, found) ↦ rw found (
        bind-Keeps (layout_frame F) _ _ (load-Keeps (layout_frame F) (λ h. get_elem? h.metas m))
          (λ meta. return-Keeps (layout_frame F) meta.requires_grad))
  ]

  version-Keeps : (t : Tensor) → Keeps (layout_frame F) (version t)
  unfolding version
  version-Keeps t =
      search (keeping, load-Keeps (layout_frame F) (λ h. get_elem? h.counters t.version_counter))
        depth 20

  any_requires_grad-Keeps : (parents : List ℕ) → Keeps (layout_frame F) (any_requires_grad parents)
  unfolding any_requires_grad
  any_requires_grad-Keeps [] = return-Keeps (layout_frame F) _
  any_requires_grad-Keeps (parent ∷ rest) =
      search
        (keeping, if-Keeps, load_tensor-Keeps, requires_grad-Keeps, any_requires_grad-Keeps rest)
        depth 20

  saved_versions-Keeps : (parents : List ℕ) → Keeps (layout_frame F) (saved_versions parents)
  unfolding saved_versions
  saved_versions-Keeps [] = return-Keeps (layout_frame F) _
  saved_versions-Keeps (parent ∷ rest) =
      search (keeping, load_tensor-Keeps, version-Keeps, saved_versions-Keeps rest) depth 20

  attach-Keeps :
      (result : ℕ) (operation : Operation) (parents : List ℕ)
      → Keeps (layout_frame F) (attach result operation parents)
  unfolding attach
  attach-Keeps result operation parents =
      bind-Keeps (layout_frame F) _ _ (saved_versions-Keeps parents)
        (λ versions. bind-Keeps (layout_frame F) _ _ (new_meta-Keeps _) (λ m. mark-Keeps result m))

  attach_node-Keeps :
      (result : ℕ) (operation : Operation) (parents : List ℕ)
      → Keeps (layout_frame F) (attach_node result operation parents)
  unfolding attach_node
  attach_node-Keeps result operation parents =
      search (keeping, if-Keeps, any_requires_grad-Keeps, attach-Keeps) depth 20

  pub record_unary-Keeps :
      (operation : Operation) (input result : ℕ)
      → Keeps (layout_frame F) (record_unary operation input result)
  unfolding record_unary
  record_unary-Keeps operation input result =
      search (keeping, if-Keeps, load_tensor-Keeps, requires_grad-Keeps, attach_node-Keeps) depth 20
