-- ===== src/Tests/Parameters.antt =====
-- Runs of the model of native/src/training/nn_v2_optimizer.h.
use tensora.Storage.{cpu_kind, kind}
use tensora.Registry.{lookup}
use tensora.Registry.Entries.{find, same_type}
use tensora.Steps.{Result}
use tensora.Autograd.Values
use tensora.Training.State.{Process}
use tensora.Training.ParameterOptimizers.{collect_parameters}
use tensora.Training.ParameterOptimizers.Gathered.{Distinct, IsTrainable}
use tensora.Training.ParameterOptimizers.Accepted.{collect_parameters-IsTrainable}
use tensora.Tests.Training.{weight, bias, parameters_heap, tensors}
use tensora.Prelude.{ℕ, ◌+◌, ◌≡◌, ◌≢◌, refl, true, none, some, [], ◌∷◌, All, List}

-- The weight requires a gradient, the bias does not.
abbrev partly_trainable : Process ℕ ℕ ℕ
partly_trainable = record {
  world = record {
    heap = record (parameters_heap (1 ∷ 2 ∷ []) (3 ∷ 4 ∷ [])) {
      tensors = record weight { autograd_meta = some 0 } ∷ bias ∷ [];
      metas = record { requires_grad = true; is_leaf = true; gradient = none; grad_fn = none } ∷ [];
    };
    registry = tensors;
  };
  modules = [];
  optimizers = [];
  parameter_optimizers = [];
  rng = 0;
  files = λ name. none;
  disk = λ name. none;
}

collects :
    collect_parameters (some (λ i. i + 1)) 2 "sgd_create" partly_trainable
    ≡ (Result.done (0 ∷ [], cpu_kind), partly_trainable)
unfolding collect_parameters lookup find same_type kind Values.requires_grad
collects = refl

collect_parameters-IsTrainable_example :
    (partly_trainable ≡ partly_trainable)
    × Distinct (0 ∷ [])
    × (All (IsTrainable ℕ partly_trainable.world.heap cpu_kind) (0 ∷ [])
        × (◌≢◌ {A = List ℕ} (0 ∷ []) []))
collect_parameters-IsTrainable_example =
    collect_parameters-IsTrainable (some (λ i. i + 1)) 2 "sgd_create" (0 ∷ []) cpu_kind
      partly_trainable partly_trainable collects
