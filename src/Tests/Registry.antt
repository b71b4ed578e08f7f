-- ===== src/Tests/Registry.antt =====
-- Runs of the model of native/src/runtime/handle_registry.cc.
use tensora.Core.Status.{ok, invalid_handle}
use tensora.Registry.Entries.{HandleType, tensor_handle, module_handle, Entry, find}
use tensora.Registry.{Registry, empty, insert, retain, release, lookup}
use tensora.Registry.Invariant.{
  IsValid, Action, inserts, retains, releases, step, run, run-empty-IsValid,
}
use tensora.Registry.Lifetime.{insert-lookup, release-retain, released-dead}
use tensora.Registry.Refinement.{view, calls, run-calls}
use tensora.Registry.Draining.{AllSucceed, release-drained}
use tensora.Registry.Balance.{refs_of, total_gained, total_lost, run-empty-balance}
use tensora.Prelude.{ℕ, ◌+◌, ◌≡◌, ◌≢◌, refl, none, some, List, [], ◌∷◌, replicate, arith}

abbrev history : List (Action ℕ)
history = inserts tensor_handle (some 7) ∷ retains 1 tensor_handle ∷ releases 1 tensor_handle ∷ []

abbrev held : Entry ℕ
held = record { type = tensor_handle; refs = 1; object = 7 }

abbrev one_tensor : Registry ℕ
one_tensor = record { entries = (1, held) ∷ []; next_handle = 2 }

one_tensor-IsValid : IsValid one_tensor
unfolding find
one_tensor-IsValid = record {
  entries = ((omega arith, omega arith, omega arith, omega arith, refl), tt);
  started = omega arith;
  bounded = omega arith;
}

found : find 1 one_tensor.entries ≡ some held
unfolding find
found = refl

run-empty-IsValid_example : IsValid (run history empty)
run-empty-IsValid_example = run-empty-IsValid history

insert-lookup_example :
    let (s, out, after) = insert module_handle (some 9) (some 5) one_tensor in
    (s ≡ ok)
    × (out ≡ some 2)
    × (◌≢◌ {A = ℕ} 2 0)
    × (find 2 one_tensor.entries ≡ none)
    × (lookup 2 module_handle after ≡ (ok, some 9))
    × ((h : ℕ) (expected : HandleType)
        → h ≢ 2
        → lookup h expected after ≡ lookup h expected one_tensor)
insert-lookup_example = insert-lookup module_handle 9 5 one_tensor one_tensor-IsValid (omega arith)

release-retain_example :
    let (s, twice) = retain 1 tensor_handle one_tensor in
    (s ≡ ok) × (release 1 tensor_handle twice ≡ (ok, one_tensor))
release-retain_example = release-retain 1 held one_tensor one_tensor-IsValid found (omega arith)

released-dead_example :
    let later = run history (step (releases 1 tensor_handle) one_tensor) in
    ((lookup 1 tensor_handle later).0.code ≡ invalid_handle)
    × ((lookup 1 tensor_handle later).1 ≡ none)
released-dead_example =
    released-dead history 1 held tensor_handle one_tensor one_tensor-IsValid found refl

run-empty-balance_example :
    refs_of 1 (run history empty) + total_lost 1 history empty ≡ total_gained 1 history empty
run-empty-balance_example = run-empty-balance history 1

run-calls_example : view (run history one_tensor) ≡ calls history (view one_tensor)
run-calls_example = run-calls history one_tensor one_tensor-IsValid

release-drained_example :
    AllSucceed 1 1 tensor_handle one_tensor
    × (find 1 (run (replicate 1 (releases 1 tensor_handle)) one_tensor).entries ≡ none)
release-drained_example = release-drained 1 1 held one_tensor one_tensor-IsValid found refl
