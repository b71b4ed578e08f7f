-- ===== src/Tests/Rollback.antt =====
-- Runs of the assignment of native/src/training/nn_v2_state.h, over numbered cells in place of libtorch's
-- tensors, which have two cells each: the tensors from 10 on are the clones, and the copy into tensor 2
-- throws after it has written one of its cells.
use tensora.Core.Status.{fail_internal}
use tensora.Steps.{Result}
use tensora.Torch.Library.{torch_failure}
use tensora.Torch.Assign.{
  CopyAnswer, copied, copy_error, CopyInto, CopyOperation, Assignment, commit_torch,
}
use tensora.Torch.Assign.Memory.{Memory, covers, WritesTarget, CopiesElements, IsBacked}
use tensora.Torch.Assign.Rollback.{commit_torch-keeps}
use tensora.Prelude.{
  ℕ, zero, suc, ◌+◌, ◌*◌, ◌==◌, ◌<◌, ◌≡◌, ◌≢◌, ◌⊎◌, refl, sym, ap, ◌∙◌, arith, Bool, false, List,
  [], ◌∷◌, ◌++◌, length, ltb, Bool-cases, inl, inr, if◌then◌else◌,
}

abbrev Cells : Type 0
Cells = ℕ → ℕ

abbrev places : Memory ℕ Cells ℕ
places = record { numel = λ x. 2; element = λ x i. x * 2 + i; content = λ c r. r c }

abbrev spare : ℕ → Bool
spare c = ltb 19 c

abbrev written : ℕ → ℕ → Cells → Cells
written t s r c = if c == t * 2 then r (s * 2) else if c == t * 2 + 1 then r (s * 2 + 1) else r c

abbrev partly_written : ℕ → ℕ → Cells → Cells
partly_written t s r c = if c == t * 2 then r (s * 2) else r c

abbrev copy_cells : CopyInto ℕ Cells
copy_cells t s r = (copied, written t s r)

-- The operation of the transaction, which may fail where a rollback works.
abbrev copy_operation : CopyOperation ℕ Cells
copy_operation t s index r =
    if index == 1 then (copy_error "no device", partly_written t s r) else copy_cells t s r

written-outside : (t s : ℕ) (r : Cells) (c : ℕ) → covers places t c ≡ false → written t s r c ≡ r c
written-outside t s r c out = ground arith

partly_written-outside :
    (t s : ℕ) (r : Cells) (c : ℕ) → covers places t c ≡ false → partly_written t s r c ≡ r c
partly_written-outside t s r c out = ground arith

writes : WritesTarget places copy_cells
writes t s r r' answer e c out =
    ap (λ (x : CopyAnswer × Cells). x.1 c) (sym e) ∙ written-outside t s r c out

operation_writes :
    (index : ℕ) → WritesTarget places (λ target source. copy_operation target source index)
operation_writes index t s r r' answer e c out = elim (Bool-cases (index == 1)) [
  | inl bad ↦
      ap (λ (x : CopyAnswer × Cells). x.1 c) (sym (rw bad at e))
      ∙ partly_written-outside t s r c out
  | inr fine ↦
      ap (λ (x : CopyAnswer × Cells). x.1 c) (sym (rw fine at e)) ∙ written-outside t s r c out
]

written-element : (t s : ℕ) (r : Cells) (i : ℕ) → i < 2 → written t s r (t * 2 + i) ≡ r (s * 2 + i)
written-element t s r zero less = ground arith
written-element t s r (suc zero) less = ground arith
written-element t s r (suc (suc i)) less = absurd (omega arith)

copies : CopiesElements places copy_cells
copies t s r r' e as_many apart i less =
    ap (λ (x : CopyAnswer × Cells). x.1 (t * 2 + i)) (sym e) ∙ written-element t s r i less

-- Two targets, 1 and 2, with their sources and their backups.
abbrev cells : Cells
cells c =
    if c == 2
    then 5
    else if c == 3
    then 6
    else if c == 4
    then 7
    else if c == 5
    then 8
    else if c == 20
    then 5
    else if c == 21
    then 6
    else if c == 22
    then 7
    else if c == 23
    then 8
    else 9

abbrev first_one : Assignment ℕ
first_one = record { target = 1; staged_source = 20; backup = 10 }

abbrev second_one : Assignment ℕ
second_one = record { target = 2; staged_source = 21; backup = 11 }

abbrev items : List (Assignment ℕ)
items = first_one ∷ second_one ∷ []

kept_of :
    (t b : ℕ) (i : ℕ)
    → cells (b * 2 + 0) ≡ cells (t * 2 + 0)
    → cells (b * 2 + 1) ≡ cells (t * 2 + 1)
    → i < 2
    → cells (b * 2 + i) ≡ cells (t * 2 + i)
kept_of t b zero e f less = e
kept_of t b (suc zero) e f less = f
kept_of t b (suc (suc i)) e f less = absurd (omega arith)

first-IsBacked : IsBacked places spare cells cells first_one
first-IsBacked = record {
  as_many = refl;
  proper = λ i less. ground arith;
  clone = λ i less. ground arith;
  kept = λ i less. kept_of 1 10 i refl refl less;
}

second-IsBacked : IsBacked places spare cells cells second_one
second-IsBacked = record {
  as_many = refl;
  proper = λ i less. ground arith;
  clone = λ i less. ground arith;
  kept = λ i less. kept_of 2 11 i refl refl less;
}

abbrev rolled_back_cells : Cells
rolled_back_cells = (commit_torch copy_cells copy_operation [] items cells).1

fails_in_time :
    commit_torch copy_cells copy_operation [] items cells
    ≡ (Result.failed (fail_internal "tensor_assign_many: no device"), rolled_back_cells)
unfolding commit_torch torch_failure
fails_in_time = refl

-- The first target is as it was, the second one is not.
rolled_back-first : rolled_back_cells 2 ∷ rolled_back_cells 4 ∷ [] ≡ 5 ∷ 9 ∷ []
unfolding commit_torch
rolled_back-first = refl

commit_torch-keeps_example :
    (fail_internal "tensor_assign_many: no device"
      ≡ fail_internal "tensor_assign_many: provider mutation failed and rollback failed")
    ⊎ ((fail_internal "tensor_assign_many: no device"
          ≡ fail_internal "tensor_assign_many: allocation failed and rollback failed")
        ⊎ ((done : List (Assignment ℕ)) × (a : Assignment ℕ) × (rest : List (Assignment ℕ))
            × (during : Cells) × (done ++ a ∷ rest ≡ items)
            × ((copy_operation a.target a.staged_source (length done) during).0 ≢ copied)
            × ((c : ℕ) → covers places a.target c ≡ false → rolled_back_cells c ≡ cells c)))
commit_torch-keeps_example =
    commit_torch-keeps places copy_cells spare writes copies copy_operation operation_writes items
      cells rolled_back_cells (fail_internal "tensor_assign_many: no device")
      (first-IsBacked, (second-IsBacked, tt)) fails_in_time
