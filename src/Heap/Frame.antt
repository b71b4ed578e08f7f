-- ===== src/Heap/Frame.antt =====
-- What the steps of native/src that look at the heap leave of it.
use Prim.Native.String.{String}
use tensora.Heap.{
  Heap, load_tensor, load_storage, load_counter, load_meta, store_storage, store_counter,
  store_meta, guarded, bad_alloc, length_error,
}
use tensora.Storage.{Storage}
use tensora.Heap.{VersionCounter, AutogradMeta}
use tensora.Steps.Frame.{Frame, Keeps, NeverFails, load-Keeps, load-NeverFails, done-NeverFails}
use tensora.Prelude.{ℕ, ◌≡◌, refl, ap, ◌∙◌, get_elem?, set, Option-cases, inl, inr}

-- The heap is as it was, but for the number of requests that the allocator has seen.
-- With another count of requests.
abbrev pub recounted : {F : Type 0} → ℕ → Heap F → Heap F
recounted n h = record h { requests = n }

abbrev pub heap_frame : (F : Type 0) → Frame (Heap F)
heap_frame F = record {
  Same = λ h h'. h' ≡ recounted h'.requests h;
  nothing = λ h. refl;
  further = λ h h' h'' a b. b ∙ ap (recounted h''.requests) a;
}

module _ (F : Type 0) where
  pub guarded-Keeps :
      (operation : String) (bytes : ℕ) → Keeps (heap_frame F) (guarded operation bytes)
  unfolding Keeps guarded
  guarded-Keeps operation bytes h = elim (Option-cases (h.allocator h.requests bytes)) [
    | inl fine ↦ rw fine refl
    | inr (bad_alloc, found) ↦ rw found refl
    | inr (length_error, found) ↦ rw found refl
  ]

  pub load_tensor-Keeps : (a : ℕ) → Keeps (heap_frame F) (load_tensor a)
  load_tensor-Keeps a = load-Keeps (heap_frame F) (λ h. get_elem? h.tensors a)

  pub load_tensor-NeverFails : (a : ℕ) → NeverFails (load_tensor {F = F} a)
  load_tensor-NeverFails a = load-NeverFails (λ h. get_elem? h.tensors a)

  pub load_storage-Keeps : (a : ℕ) → Keeps (heap_frame F) (load_storage a)
  load_storage-Keeps a = load-Keeps (heap_frame F) (λ h. get_elem? h.storages a)

  pub load_storage-NeverFails : (a : ℕ) → NeverFails (load_storage {F = F} a)
  load_storage-NeverFails a = load-NeverFails (λ h. get_elem? h.storages a)

  pub load_counter-Keeps : (a : ℕ) → Keeps (heap_frame F) (load_counter a)
  load_counter-Keeps a = load-Keeps (heap_frame F) (λ h. get_elem? h.counters a)

  pub load_counter-NeverFails : (a : ℕ) → NeverFails (load_counter {F = F} a)
  load_counter-NeverFails a = load-NeverFails (λ h. get_elem? h.counters a)

  pub load_meta-Keeps : (a : ℕ) → Keeps (heap_frame F) (load_meta a)
  load_meta-Keeps a = load-Keeps (heap_frame F) (λ h. get_elem? h.metas a)

  pub load_meta-NeverFails : (a : ℕ) → NeverFails (load_meta {F = F} a)
  load_meta-NeverFails a = load-NeverFails (λ h. get_elem? h.metas a)

  pub store_storage-NeverFails : (a : ℕ) (v : Storage F) → NeverFails (store_storage {F = F} a v)
  store_storage-NeverFails a v =
      done-NeverFails tt (λ h. record h { storages = set h.storages a v })

  pub store_counter-NeverFails :
      (a : ℕ) (v : VersionCounter) → NeverFails (store_counter {F = F} a v)
  store_counter-NeverFails a v =
      done-NeverFails tt (λ h. record h { counters = set h.counters a v })

  pub store_meta-NeverFails : (a : ℕ) (v : AutogradMeta) → NeverFails (store_meta {F = F} a v)
  store_meta-NeverFails a v = done-NeverFails tt (λ h. record h { metas = set h.metas a v })
