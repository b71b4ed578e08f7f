-- ===== src/Training/Assign/Atomic.antt =====
-- native/src/training/nn_v2_state.h: AssignMany when it fails.
use Prim.Native.String.{String}
use tensora.Core.Status.{Status, is_ok}
use tensora.Float.{Float32}
use tensora.Storage.{Copied, Storage, cpu_kind, torch_kind}
use tensora.Tensor.{Tensor}
use tensora.Memory.{read_logical, copied_values}
use tensora.Heap.{M, Heap, increment_version}
use tensora.Heap.Frame.{
  heap_frame, recounted, guarded-Keeps, load_tensor-Keeps, load_storage-Keeps, load_counter-Keeps,
  load_tensor-NeverFails, load_storage-NeverFails, load_counter-NeverFails, load_meta-NeverFails,
  store_storage-NeverFails, store_counter-NeverFails, store_meta-NeverFails,
}
use tensora.Steps.{Result, to_caller}
use tensora.Steps.Frame.{
  keeping, Frame, Keeps, KeepsOnFailure, NeverFails, bind-Keeps, Keeps-KeepsOnFailure,
  bind-KeepsOnFailure, check-Keeps, return-Keeps, fail-Keeps, undefined_unless-Keeps, if-Keeps,
  bind-NeverFails, NeverFails-KeepsOnFailure, from_status-Keeps, done-NeverFails,
}
use tensora.Autograd.Values.{
  ensure_cpu_float32, cpu_values_of, mutable_cpu_values, read_logical_cpu_values,
}
use tensora.Autograd.Backward.{clear_gradient}
use tensora.Registry.{lookup}
use tensora.Registry.Entries.{tensor_handle}
use tensora.Api.{World, on_heap, lookup_tensor}
use tensora.Training.Assign.{
  validate_pair, tensor_identity, Batch, admit_pair, admit_pairs, stage, commit_one, commit,
  handle_pairs, transact, assign_many,
}
use tensora.Prelude.{
  ℕ, ◌+◌, ◌%◌, ◌^◌, ◌*◌, ◌==◌, ◌≡◌, refl, ap, ◌∙◌, Option, none, List, [], ◌∷◌, Option-cases,
  Bool-cases, inl, inr,
}

module _ (F : Type 0) where
  cpu_values_of-Keeps :
      (operation : String) (s : Storage F) → Keeps (heap_frame F) (cpu_values_of operation s)
  cpu_values_of-Keeps operation (Storage.cpu values) = return-Keeps (heap_frame F) values
  cpu_values_of-Keeps operation (Storage.other k bytes copy) = fail-Keeps (heap_frame F) (List F) _

  copied_values-Keeps : (c : Copied F) → Keeps (heap_frame F) (copied_values c)
  copied_values-Keeps c =
      if-Keeps (heap_frame F) (is_ok c.status) _ _
        (undefined_unless-Keeps (heap_frame F) c.out_values)
        (fail-Keeps (heap_frame F) (List F) c.status)

  mutable_cpu_values-Keeps :
      (t : Tensor) (operation : String)
      → Keeps (heap_frame F) (mutable_cpu_values t operation to_caller)
  unfolding mutable_cpu_values ensure_cpu_float32
  mutable_cpu_values-Keeps t operation =
      search (keeping, load_storage-Keeps F, guarded-Keeps F, cpu_values_of-Keeps) depth 20

  read_logical_cpu_values-Keeps :
      ⦃fl : Float32 F⦄ (t : Tensor) (operation : String)
      → Keeps (heap_frame F) (read_logical_cpu_values t operation to_caller)
  unfolding read_logical_cpu_values ensure_cpu_float32 read_logical
  read_logical_cpu_values-Keeps t operation =
      search (keeping, load_storage-Keeps F, guarded-Keeps F, copied_values-Keeps) depth 20

  validate_pair-Keeps :
      (t s : Tensor) (operation : String) → Keeps (heap_frame F) (validate_pair t s operation)
  unfolding validate_pair
  validate_pair-Keeps t s operation =
      search (keeping, load_storage-Keeps F, guarded-Keeps F, load_tensor-Keeps F) depth 20

  tensor_identity-Keeps : (t : Tensor) → Keeps (heap_frame F) (tensor_identity t to_caller)
  unfolding tensor_identity
  tensor_identity-Keeps t =
      search (keeping, load_storage-Keeps F, guarded-Keeps F, load_counter-Keeps F) depth 20

  admit_pair-Keeps : (t s : Tensor) (b : Batch) → Keeps (heap_frame F) (admit_pair t s b)
  unfolding admit_pair
  admit_pair-Keeps t s b =
      search
        (keeping, load_storage-Keeps F, guarded-Keeps F, validate_pair-Keeps, tensor_identity-Keeps)
        depth 20

  clear_gradient-NeverFails : (t : Tensor) → NeverFails {S = Heap F} (clear_gradient t)
  unfolding clear_gradient
  clear_gradient-NeverFails t = elim (Option-cases t.autograd_meta) [
    | inl bare ↦ rw bare (done-NeverFails tt (λ h. h))
    | inr (m, found) ↦
        rw found
          (bind-NeverFails _ _ (load_meta-NeverFails F m) (λ meta. store_meta-NeverFails F m _))
  ]

  increment_version-NeverFails : (t : Tensor) → NeverFails {S = Heap F} (increment_version t)
  unfolding increment_version
  increment_version-NeverFails t =
      bind-NeverFails _ _ (load_counter-NeverFails F t.version_counter) (λ c.
        store_counter-NeverFails F t.version_counter (record c { value = (c.value + 1) % 2 ^ 64 }))

  commit_one-NeverFails : (t : Tensor) (values : List F) → NeverFails (commit_one t values)
  unfolding commit_one
  commit_one-NeverFails t values =
      bind-NeverFails _ _ (load_storage-NeverFails F t.storage) (λ storage.
        bind-NeverFails _ _ (store_storage-NeverFails F t.storage _) (λ u.
          bind-NeverFails _ _ (increment_version-NeverFails t) (λ u. clear_gradient-NeverFails t)))

  commit-NeverFails : (staged : List (ℕ × List F)) → NeverFails (commit staged)
  unfolding commit
  commit-NeverFails [] = done-NeverFails tt (λ h. h)
  commit-NeverFails ((target, values) ∷ rest) =
      bind-NeverFails _ _ (load_tensor-NeverFails F target)
        (λ t. bind-NeverFails _ _ (commit_one-NeverFails t values) (λ u. commit-NeverFails rest))

  stage-Keeps : ⦃fl : Float32 F⦄ (pairs : List (ℕ × ℕ)) → Keeps (heap_frame F) (stage pairs)
  unfolding stage
  stage-Keeps [] = return-Keeps (heap_frame F) []
  stage-Keeps ((target, source) ∷ rest) =
      search
        (
          keeping,
          stage-Keeps rest,
          load_tensor-Keeps F,
          read_logical_cpu_values-Keeps,
          mutable_cpu_values-Keeps,
        )
        depth 20

  transact-KeepsOnFailure :
      ⦃fl : Float32 F⦄ (count : ℕ) (b : Batch) → KeepsOnFailure (heap_frame F) (transact count b)
  unfolding transact
  transact-KeepsOnFailure count b = elim (Option-cases b.kind) [
    | inl empty ↦ rw empty (Keeps-KeepsOnFailure (heap_frame F) _ (return-Keeps (heap_frame F) tt))
    | inr (torch_kind, found) ↦
        rw found (Keeps-KeepsOnFailure (heap_frame F) _ (fail-Keeps (heap_frame F) (Unit {0}) _))
    | inr (cpu_kind, found) ↦ rw found (
        bind-KeepsOnFailure (heap_frame F) _ _ (guarded-Keeps F "tensor_assign_many" (count * 24))
          (λ u.
            bind-KeepsOnFailure (heap_frame F) _ _
              (guarded-Keeps F "tensor_assign_many" (count * 8))
              (λ u.
                bind-KeepsOnFailure (heap_frame F) _ _ (stage-Keeps b.pairs) (λ staged.
                  NeverFails-KeepsOnFailure (heap_frame F) _ (commit-NeverFails staged)))))
  ]

-- The process is as it was, but for the number of requests that the allocator has seen.
abbrev pub world_frame : (F : Type 0) → Frame (World F)
world_frame F = record {
  Same = λ w w'. w' ≡ record w { heap = recounted w'.heap.requests w.heap };
  nothing = λ w. refl;
  further = λ w w' w'' a b.
      b
      ∙ ap {B = World F} (λ (v : World F). record v { heap = recounted w''.heap.requests v.heap })
          a;
}

module _ (F : Type 0) where
  on_heap-Keeps :
      {A : Type 0} (m : M F A) → Keeps (heap_frame F) m → Keeps (world_frame F) (on_heap m)
  unfolding Keeps
  on_heap-Keeps m k w = ap {B = World F} (λ (h : Heap F). record w { heap = h }) (k w.heap)

  on_heap-KeepsOnFailure :
      {A : Type 0} (m : M F A)
      → KeepsOnFailure (heap_frame F) m
      → KeepsOnFailure (world_frame F) (on_heap m)
  unfolding KeepsOnFailure
  on_heap-KeepsOnFailure m k w e failed =
      ap {B = World F} (λ (h : Heap F). record w { heap = h }) (k w.heap e failed)

  lookup_tensor-Keeps : (handle : ℕ) → Keeps (world_frame F) (lookup_tensor handle)
  unfolding lookup_tensor Keeps
  lookup_tensor-Keeps handle w =
      from_status-Keeps (world_frame F) (lookup handle tensor_handle w.registry) w

  admit_pairs-Keeps :
      (pairs : List (ℕ × ℕ)) (b : Batch) → Keeps (world_frame F) (admit_pairs pairs b)
  unfolding admit_pairs
  admit_pairs-Keeps [] b = return-Keeps (world_frame F) b
  admit_pairs-Keeps ((target, source) ∷ rest) b =
      bind-Keeps (world_frame F) _ _ (lookup_tensor-Keeps target) (λ t_object.
        bind-Keeps (world_frame F) _ _ (lookup_tensor-Keeps source) (λ s_object.
          bind-Keeps (world_frame F) _ _ (on_heap-Keeps _ (load_tensor-Keeps F t_object)) (λ t.
            bind-Keeps (world_frame F) _ _ (on_heap-Keeps _ (load_tensor-Keeps F s_object)) (λ s.
              bind-Keeps (world_frame F) _ _ (on_heap-Keeps _ (admit_pair-Keeps F t s b))
                (λ r. admit_pairs-Keeps rest _)))))

  assign_many-KeepsOnFailure :
      ⦃fl : Float32 F⦄ (targets sources : Option (ℕ → ℕ)) (count : ℕ)
      → KeepsOnFailure (world_frame F) (assign_many targets sources count)
  unfolding assign_many
  assign_many-KeepsOnFailure targets sources count = elim (Bool-cases (count == 0)) [
    | inl none_given ↦
        rw none_given (Keeps-KeepsOnFailure (world_frame F) _ (return-Keeps (world_frame F) tt))
    | inr some_given ↦ rw some_given (
        bind-KeepsOnFailure (world_frame F) _ _ (check-Keeps (world_frame F) _ _) (λ u.
          bind-KeepsOnFailure (world_frame F) _ _
            (on_heap-Keeps _ (guarded-Keeps F "tensor_assign_many" (count * 16)))
            (λ u.
              bind-KeepsOnFailure (world_frame F) _ _
                (on_heap-Keeps _ (guarded-Keeps F "tensor_assign_many" (count * 16)))
                (λ u.
                  bind-KeepsOnFailure (world_frame F) _ _
                    (admit_pairs-Keeps (handle_pairs targets sources count)
                      (record { identities = []; kind = none; pairs = [] }))
                    (λ b. on_heap-KeepsOnFailure _ (transact-KeepsOnFailure F count b))))))
  ]

module _ {F : Type 0} ⦃fl : Float32 F⦄ where
  -- Where AssignMany returns a failure, for any of the tensors, no storage, version, gradient, tensor
  -- or handle has changed: the process is as it was, but for the requests the allocator has seen.
  pub assign_many-all_or_nothing :
      (targets sources : Option (ℕ → ℕ)) (count : ℕ) (w : World F) (e : Status)
      → (assign_many targets sources count w).0 ≡ Result.failed e
      → let w' = (assign_many targets sources count w).1 in
        w' ≡ record w { heap = record w.heap { requests = w'.heap.requests } }
  unfolding KeepsOnFailure
  assign_many-all_or_nothing targets sources count w e failed =
      assign_many-KeepsOnFailure F targets sources count w e failed
