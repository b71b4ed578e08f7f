-- ===== src/Torch/Assign/Rollback.antt =====
-- native/src/training/nn_v2_state.h: what a failed assignment of Torch tensors leaves in the memory.
use Prim.Native.String.{String}
use mathlib.Core.List.{append_assoc}
use tensora.Core.Status.{Status, fail_internal}
use tensora.Steps.{Result}
use tensora.Torch.Assign.{
  CopyAnswer, copied, copy_error, copy_no_memory, copy_unknown, CopyInto, CopyOperation, Assignment,
  rolled_further, rollback_torch, rolled_back, after_copy, commit_torch,
}
use tensora.Torch.Assign.Memory.{
  Memory, lies_in-element, covers, WritesTarget, CopiesElements, IsBacked, Backed, Untouched,
  is_covered-snoc, spare-apart, copy-Backed, Backed-snoc,
}
use tensora.Prelude.{
  ℕ, ◌≡◌, ◌≢◌, ◌⊎◌, refl, sym, ap, ◌∙◌, Bool, true, false, List, [], ◌∷◌, ◌++◌, length, Bool-cases,
  inl, inr,
}

module _ {X R V : Type 0} (memory : Memory X R V) (copy_into : CopyInto X R) (spare : ℕ → Bool)
    (writes : WritesTarget memory copy_into) (copies : CopiesElements memory copy_into) where
  open memory use {numel, element, content}

  module _ (old : ℕ → V) where
    -- One step of the rollback: the cells of the target have their old contents again.
    restored_target :
        (a : Assignment X) (rest : List (Assignment X)) (r r' : R)
        → IsBacked memory spare old r a
        → copy_into a.target a.backup r ≡ (copied, r')
        → (c : ℕ) → Untouched memory old r (a ∷ rest) c
        → Untouched memory old r' rest c
    restored_target a rest r r' b e c untouched other =
        elim (Bool-cases (covers memory a.target c)) [
          | inl hit ↦
              let (i, less, same) = lies_in-element (element a.target) (numel a.target) c hit in
              ap (λ k. content k r') (sym same)
              ∙ copies a.target a.backup r r' e b.as_many
                  (λ k below.
                    spare-apart memory spare old r a (element a.backup k) b (b.clone k below))
                  i less
              ∙ b.kept i less
              ∙ ap old same
          | inr miss ↦ writes a.target a.backup r r' copied e c miss ∙ untouched (rw miss other)
        ]

    rollback-step :
        (a : Assignment X) (rest : List (Assignment X)) (r r' : R) (c : ℕ) (x : CopyAnswer × R)
        → copy_into a.target a.backup r ≡ x
        → ((r1 : R)
            → Backed memory spare old r1 rest
            → Untouched memory old r1 rest c
            → rollback_torch copy_into rest r1 ≡ (true, r')
            → content c r' ≡ old c)
        → Backed memory spare old r (a ∷ rest)
        → Untouched memory old r (a ∷ rest) c
        → rolled_further copy_into x.0 (rollback_torch copy_into rest x.1) x.1 ≡ (true, r')
        → content c r' ≡ old c
    unfolding rolled_further
    rollback-step a rest r r' c (copied, r1) made ih (ready, b) untouched e =
        ih r1
          (copy-Backed memory spare old copy_into writes a a.backup r r1 copied rest ready made b)
          (restored_target a rest r r1 ready made c untouched) e
    rollback-step a rest r r' c (copy_error what, r1) made ih backed untouched e = cc
    rollback-step a rest r r' c (copy_no_memory, r1) made ih backed untouched e = cc
    rollback-step a rest r r' c (copy_unknown, r1) made ih backed untouched e = cc

    -- A rollback that works gives each cell of the targets its old content.
    rollback_torch-restores :
        (committed : List (Assignment X)) (r r' : R) (c : ℕ)
        → Backed memory spare old r committed
        → Untouched memory old r committed c
        → rollback_torch copy_into committed r ≡ (true, r')
        → content c r' ≡ old c
    unfolding rollback_torch
    rollback_torch-restores [] r r' c backed untouched e =
        ap (λ (x : Bool × R). content c x.1) (sym e) ∙ untouched refl
    rollback_torch-restores (a ∷ rest) r r' c backed untouched e =
        rollback-step a rest r r' c (copy_into a.target a.backup r) refl
          (λ r1. rollback_torch-restores rest r1 r' c) backed untouched e

    -- The cells outside a tensor have their old contents.
    abbrev KeptOutside : X → R → Type 0
    KeptOutside t r = (c : ℕ) → covers memory t c ≡ false → content c r ≡ old c

    rolled_back-keeps :
        (t : X) (e e' : Status) (message : String) (x : Bool × R) (r' : R)
        → (x.0 ≡ true → KeptOutside t x.1)
        → rolled_back copy_into e message x ≡ (Result.failed e', r')
        → (e' ≡ fail_internal message) ⊎ KeptOutside t r'
    unfolding rolled_back
    rolled_back-keeps t e e' message (true, r) r' restored h =
        inr
          (λ c out. ap (λ (x : Result (Unit {0}) × R). content c x.1) (sym h) ∙ restored refl c out)
    rolled_back-keeps t e e' message (false, r) r' restored h = inl (cc)

    module _ (copy_operation : CopyOperation X R)
        (operation_writes : (index : ℕ)
          → WritesTarget memory (λ target source. copy_operation target source index)) where
      -- How a failure leaves the cells, unless the rollback has failed: there is an assignment whose
      -- copy failed, and the cells outside its target are as they were.
      abbrev Ends : List (Assignment X) → Status → R → Type 0
      Ends items e r =
          (e ≡ fail_internal "tensor_assign_many: provider mutation failed and rollback failed")
          ⊎ ((e ≡ fail_internal "tensor_assign_many: allocation failed and rollback failed")
              ⊎ ((done : List (Assignment X)) × (a : Assignment X) × (rest : List (Assignment X))
                  × (during : R) × (done ++ a ∷ rest ≡ items)
                  × ((copy_operation a.target a.staged_source (length done) during).0 ≢ copied)
                  × KeptOutside a.target r))

      -- The rollback after a copy that has failed.
      undone :
          (a : Assignment X) (committed : List (Assignment X)) (r r1 r' : R) (e e' : Status)
          (message : String) (answer : CopyAnswer)
          → copy_operation a.target a.staged_source (length committed) r ≡ (answer, r1)
          → IsBacked memory spare old r a
          → Backed memory spare old r committed
          → ((c : ℕ) → Untouched memory old r committed c)
          → rolled_back copy_into e message (rollback_torch copy_into committed r1)
            ≡ (Result.failed e', r')
          → (e' ≡ fail_internal message) ⊎ KeptOutside a.target r'
      undone a committed r r1 r' e e' message answer made ready backed untouched =
          let index = length committed in
          rolled_back-keeps a.target e e' message (rollback_torch copy_into committed r1) r'
            (λ ok c out.
              rollback_torch-restores committed r1 _ c
                (copy-Backed memory spare old (λ target source. copy_operation target source index)
                  (operation_writes index) a a.staged_source r r1 answer committed ready made
                  backed)
                (λ other.
                  operation_writes index a.target a.staged_source r r1 answer made c out
                  ∙ untouched c other)
                (cc (ok)))

      after_copy-Ends :
          (a : Assignment X) (committed rest items : List (Assignment X)) (r r' : R) (e : Status)
          (x : CopyAnswer × R) (later : Result (Unit {0}) × R)
          → committed ++ a ∷ rest ≡ items
          → copy_operation a.target a.staged_source (length committed) r ≡ x
          → (x.0 ≡ copied → later ≡ (Result.failed e, r') → Ends items e r')
          → IsBacked memory spare old r a
          → Backed memory spare old r committed
          → ((c : ℕ) → Untouched memory old r committed c)
          → after_copy copy_into committed x.0 later x.1 ≡ (Result.failed e, r')
          → Ends items e r'
      unfolding after_copy
      after_copy-Ends a committed rest items r r' e (copied, r1) later all made ih ready backed
            untouched h =
          ih refl h
      after_copy-Ends a committed rest items r r' e (copy_error what, r1) later all made ih ready
            backed untouched h =
          elim (undone a committed r r1 r' _ e _ _ made ready backed untouched h) [
            | inl stuck ↦ inl stuck
            | inr kept ↦ inr (inr (committed, a, rest, r, all, (λ same. cc), kept))
          ]
      after_copy-Ends a committed rest items r r' e (copy_no_memory, r1) later all made ih ready
            backed untouched h =
          elim (undone a committed r r1 r' _ e _ _ made ready backed untouched h) [
            | inl stuck ↦ inr (inl stuck)
            | inr kept ↦ inr (inr (committed, a, rest, r, all, (λ same. cc), kept))
          ]
      after_copy-Ends a committed rest items r r' e (copy_unknown, r1) later all made ih ready
            backed untouched h =
          cc

      committed_one :
          (a : Assignment X) (committed : List (Assignment X)) (r r' : R)
          → copy_operation a.target a.staged_source (length committed) r ≡ (copied, r')
          → ((c : ℕ) → Untouched memory old r committed c)
          → (c : ℕ) → Untouched memory old r' (committed ++ a ∷ []) c
      committed_one a committed r r' e untouched c other =
          let (before, miss) = is_covered-snoc memory c committed a other in
          operation_writes (length committed) a.target a.staged_source r r' copied e c miss
          ∙ untouched c before

      commit_torch-Ends :
          (committed left items : List (Assignment X)) (r r' : R) (e : Status)
          → committed ++ left ≡ items
          → Backed memory spare old r committed
          → Backed memory spare old r left
          → ((c : ℕ) → Untouched memory old r committed c)
          → commit_torch copy_into copy_operation committed left r ≡ (Result.failed e, r')
          → Ends items e r'
      unfolding commit_torch
      commit_torch-Ends committed [] items r r' e all backed left untouched h = cc
      commit_torch-Ends committed (a ∷ rest) items r r' e all backed (ready, left) untouched h =
          let index = length committed in
          let copy : CopyInto X R = λ target source. copy_operation target source index in
          after_copy-Ends a committed rest items r r' e
            (copy_operation a.target a.staged_source index r) _ all refl
            (λ ok.
              commit_torch-Ends (committed ++ a ∷ []) rest items _ r' e
                (append_assoc committed (a ∷ []) rest ∙ all)
                (copy-Backed memory spare old copy (operation_writes index) a a.staged_source r _ _
                  (committed ++ a ∷ []) ready refl
                  (Backed-snoc memory spare old r committed a backed ready))
                (copy-Backed memory spare old copy (operation_writes index) a a.staged_source r _ _
                  rest ready refl left)
                (committed_one a committed r _ (cc (ok)) untouched))
            ready backed untouched h

  -- Let no copy, whether it returns or throws, write outside its target, let a copy_ that returns give each
  -- element of its target that of a source which lies apart, and let the backups have the contents of their
  -- targets and lie apart from all targets, which may overlap. When CommitTorchAssignments fails, there is an
  -- assignment whose copy failed, and every cell of the memory outside its target has the content that it had
  -- before, also in the targets already written, unless the failure is one of the two that report that the
  -- rollback has failed.
  pub commit_torch-keeps :
      (copy_operation : CopyOperation X R)
      (operation_writes : (index : ℕ)
        → WritesTarget memory (λ target source. copy_operation target source index))
      (items : List (Assignment X)) (r r' : R) (e : Status)
      → Backed memory spare (λ c. content c r) r items
      → commit_torch copy_into copy_operation [] items r ≡ (Result.failed e, r')
      → (e ≡ fail_internal "tensor_assign_many: provider mutation failed and rollback failed")
        ⊎ ((e ≡ fail_internal "tensor_assign_many: allocation failed and rollback failed")
            ⊎ ((done : List (Assignment X)) × (a : Assignment X) × (rest : List (Assignment X))
                × (during : R) × (done ++ a ∷ rest ≡ items)
                × ((copy_operation a.target a.staged_source (length done) during).0 ≢ copied)
                × ((c : ℕ) → covers memory a.target c ≡ false → content c r' ≡ content c r)))
  commit_torch-keeps copy_operation operation_writes items r r' e backed =
      commit_torch-Ends (λ c. content c r) copy_operation operation_writes [] items items r r' e
        refl tt backed (λ c other. refl)
