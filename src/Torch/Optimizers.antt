-- ===== src/Torch/Optimizers.antt =====
-- native/src/training/training_bridge_torch.cc: the optimizers of a module.
pub mod Rates
use Prim.Native.String.{String, ◌++◌}
use tensora.Core.Status.{fail_argument}
use tensora.Float.{Float64}
use tensora.Registry.Entries.{optimizer_handle}
use tensora.Steps.{Steps, ◌>>=◌, ◌>>◌, check, Output, need}
use tensora.Training.State.{OptimizerKind, sgd, adam, adamw}
use tensora.Training.Optimizer.{kind_operation}
use tensora.Torch.Library.{TorchCall, TorchHost, ask_torch, read_torch, guard_allocation}
use tensora.Torch.Nn.{
  TorchNn, TorchTrain, TorchObject, optimizer_state, on_host, lookup_torch_module,
  lookup_torch_optimizer, torch_register, torch_release,
}
use tensora.Prelude.{ℕ, not, ◌&&◌, List}

module _ (F : Type 0) {D S : Type 0} ⦃fd : Float64 F D⦄ where
  open fd use {zero_d, one_d, lt_d, le_d, is_finite}

  -- `ValidateLearningRate`
  unfoldable pub torch_validate_learning_rate : D → String → Steps S (Unit {0})
  torch_validate_learning_rate learning_rate operation =
      check (is_finite learning_rate && not (le_d learning_rate zero_d))
        (fail_argument (operation ++ ": learning rate must be finite and positive"))

  -- `ValidateWeightDecay`
  unfoldable pub torch_validate_weight_decay : D → String → Steps S (Unit {0})
  torch_validate_weight_decay weight_decay operation =
      check (is_finite weight_decay && not (lt_d weight_decay zero_d))
        (fail_argument (operation ++ ": weight decay must be finite and non-negative"))

  -- `ValidateBetas`
  unfoldable pub torch_validate_betas : D → D → String → Steps S (Unit {0})
  torch_validate_betas beta1 beta2 operation =
      check
        (is_finite beta1
          && is_finite beta2
          && not (lt_d beta1 zero_d)
          && not (le_d one_d beta1)
          && not (lt_d beta2 zero_d)
          && not (le_d one_d beta2))
        (fail_argument (operation ++ ": beta values must be finite in [0, 1)"))

  -- `ValidateEpsilon`
  unfoldable pub torch_validate_epsilon : D → String → Steps S (Unit {0})
  torch_validate_epsilon epsilon operation =
      check (is_finite epsilon && not (le_d epsilon zero_d))
        (fail_argument (operation ++ ": epsilon must be finite and positive"))

  -- The tests of `SgdCreate`.
  unfoldable pub admit_sgd : D → D → D → Steps S (Unit {0})
  unfolding torch_validate_learning_rate torch_validate_weight_decay
  admit_sgd learning_rate momentum weight_decay = do
    torch_validate_learning_rate learning_rate "sgd_create"
    torch_validate_weight_decay weight_decay "sgd_create"
    check (is_finite momentum && not (lt_d momentum zero_d))
        (fail_argument "sgd_create: momentum must be finite and non-negative")

  -- The tests of `AdamCreate` and `AdamWCreate`.
  unfoldable pub admit_adam : D → D → D → D → D → String → Steps S (Unit {0})
  unfolding torch_validate_learning_rate torch_validate_betas torch_validate_epsilon
      torch_validate_weight_decay
  admit_adam learning_rate beta1 beta2 epsilon weight_decay operation = do
    torch_validate_learning_rate learning_rate operation
    torch_validate_betas beta1 beta2 operation
    torch_validate_epsilon epsilon operation
    torch_validate_weight_decay weight_decay operation

module _ {F D X R N O A : Type 0} ⦃fd : Float64 F D⦄ (nn : TorchNn D X R N O A) where
  -- The body of the functions that create an optimizer, with `CreateOptimizerState`.
  create_torch_optimizer : ℕ → String → (List X → R → TorchCall O × R) → TorchTrain F X R N O ℕ
  unfolding lookup_torch_module guard_allocation
  create_torch_optimizer module_id operation make = do
    state ← lookup_torch_module module_id
    parameters ← on_host (read_torch (nn.parameters state))
    on_host (guard_allocation operation)
    optimizer ← on_host (ask_torch operation (make parameters))
    on_host (guard_allocation "optimizer")
    torch_register optimizer_handle (optimizer_state state optimizer)

  -- `SgdCreate` of training_bridge_torch.cc.
  unfoldable pub torch_sgd_create : ℕ → D → D → D → Output → TorchTrain F X R N O ℕ
  unfolding admit_sgd create_torch_optimizer
  torch_sgd_create module_id learning_rate momentum weight_decay out = do
    need out "sgd_create: output handle pointer is null"
    admit_sgd F learning_rate momentum weight_decay
    create_torch_optimizer module_id "sgd_create"
        (λ xs. nn.new_sgd xs learning_rate momentum weight_decay)

  -- `AdamCreate` of training_bridge_torch.cc.
  unfoldable pub torch_adam_create : ℕ → D → D → D → D → D → Output → TorchTrain F X R N O ℕ
  unfolding admit_adam create_torch_optimizer
  torch_adam_create module_id learning_rate beta1 beta2 epsilon weight_decay out = do
    need out "adam_create: output handle pointer is null"
    admit_adam F learning_rate beta1 beta2 epsilon weight_decay "adam_create"
    create_torch_optimizer module_id "adam_create"
        (λ xs. nn.new_adam xs learning_rate beta1 beta2 epsilon weight_decay)

  -- `AdamWCreate` of training_bridge_torch.cc.
  unfoldable pub torch_adamw_create : ℕ → D → D → D → D → D → Output → TorchTrain F X R N O ℕ
  unfolding admit_adam create_torch_optimizer
  torch_adamw_create module_id learning_rate beta1 beta2 epsilon weight_decay out = do
    need out "adamw_create: output handle pointer is null"
    admit_adam F learning_rate beta1 beta2 epsilon weight_decay "adamw_create"
    create_torch_optimizer module_id "adamw_create"
        (λ xs. nn.new_adamw xs learning_rate beta1 beta2 epsilon weight_decay)

module _ {F D X R N O A : Type 0} (nn : TorchNn D X R N O A) where
  -- `OptimizerZeroGrad` of training_bridge_torch.cc.
  unfoldable pub torch_optimizer_zero_grad : ℕ → TorchTrain F X R N O (Unit {0})
  unfolding lookup_torch_optimizer
  torch_optimizer_zero_grad optimizer = do
    state ← lookup_torch_optimizer optimizer
    on_host (ask_torch "optimizer_zero_grad" (nn.zero_grad state))

  -- `OptimizerStep` of training_bridge_torch.cc.
  unfoldable pub torch_optimizer_step : ℕ → TorchTrain F X R N O (Unit {0})
  unfolding lookup_torch_optimizer
  torch_optimizer_step optimizer = do
    state ← lookup_torch_optimizer optimizer
    on_host (ask_torch "optimizer_step" (nn.step state))

-- `OptimizerRelease` of training_bridge_torch.cc.
unfoldable pub torch_optimizer_release : {F X R N O : Type 0} → ℕ → TorchTrain F X R N O (Unit {0})
torch_optimizer_release = torch_release optimizer_handle

-- `LiveStorageBytes` of training_bridge_torch.cc, with `TorchStorage::LiveBytes`.
unfoldable pub torch_live_storage_bytes : {F X R : Type 0} → TorchHost F X R → ℕ
torch_live_storage_bytes s = s.live_bytes
