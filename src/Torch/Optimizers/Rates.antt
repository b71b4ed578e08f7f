-- ===== src/Torch/Optimizers/Rates.antt =====
-- native/src/training/training_bridge_torch.cc and training_bridge_stub.cc: the numbers that the two
-- builds accept for an optimizer.
use Prim.Native.String.{String}
use tensora.Float.{Float64}
use tensora.Steps.{Result}
use tensora.Training.State.{sgd, adam, adamw, Rates}
use tensora.Training.Optimizer.{admit_rates}
use tensora.Torch.Optimizers.{admit_sgd, admit_adam}
use tensora.Prelude.{◌≡◌, ◌↔◌, arith}

module _ (F : Type 0) {D S : Type 0} ⦃fd : Float64 F D⦄ where
  -- For each of SGD, Adam and AdamW the build with libtorch accepts the same numbers as the one
  -- without, though it tests them in another order; a call whose numbers are accepted has changed
  -- nothing yet.
  pub admit_rates_iff :
      (r : Rates D) (operation : String) (s : S)
      → ((admit_sgd F r.learning_rate r.momentum r.weight_decay s ≡ (Result.done tt, s))
          ↔ (admit_rates F sgd r s ≡ (Result.done tt, s)))
        × ((admit_adam F r.learning_rate r.beta1 r.beta2 r.epsilon r.weight_decay operation s
              ≡ (Result.done tt, s))
            ↔ (admit_rates F adam r s ≡ (Result.done tt, s)))
        × ((admit_adam F r.learning_rate r.beta1 r.beta2 r.epsilon r.weight_decay operation s
              ≡ (Result.done tt, s))
            ↔ (admit_rates F adamw r s ≡ (Result.done tt, s)))
  unfolding admit_rates admit_sgd admit_adam
  admit_rates_iff r operation s = (ground arith, ground arith, ground arith)
