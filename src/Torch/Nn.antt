-- ===== src/Torch/Nn.antt =====
-- native/src/training/training_bridge_torch.cc: what it uses of libtorch, which is a parameter, and
-- the process that it works on.
use tensora.Core.Guard.{std_exception}
use tensora.Core.Status.{Status}
use tensora.Registry.Entries.{HandleType, module_handle, optimizer_handle}
use tensora.Registry.{Registry, insert, lookup, release}
use tensora.Steps.{Result, Steps, ◌>>=◌, from_status}
use tensora.Torch.Devices.{
  TorchType, torch_cpu, torch_cuda, torch_mps, torch_xpu, torch_hip, other_type, TorchDevice,
}
use tensora.Torch.Library.{TorchCall, computed, torch_error, TorchHost, Torched}
use tensora.Prelude.{ℕ, ◌+◌, ◌==◌, ◌&&◌, Bool, Option, some, List, ℤ, eq_ℤ}

-- The operations on tensors, modules and optimizers: `N` are its linear modules, `O` its optimizers,
-- `A` its archives, `D` the doubles. `modules_of` and the other queries read its state.
pub record TorchNn (D X R N O A : Type 0) : Type 0 where
  pub manual_seed : ℤ → R → TorchCall (Unit {0}) × R
  pub to_device : X → TorchDevice → R → TorchCall X × R
  pub clone : X → R → TorchCall X × R
  pub detach : X → R → TorchCall X × R
  pub requires_grad : X → R → Bool
  pub set_requires_grad : X → Bool → R → TorchCall (Unit {0}) × R
  pub backward : X → R → TorchCall (Unit {0}) × R
  pub grad : X → R → X
  pub relu : X → R → TorchCall X × R
  pub sigmoid : X → R → TorchCall X × R
  pub tanh : X → R → TorchCall X × R
  pub mse_loss : X → X → R → TorchCall X × R
  pub log_softmax : X → ℤ → R → TorchCall X × R
  pub sum_over : X → ℤ → R → TorchCall X × R
  pub mean : X → R → TorchCall X × R
  pub negated : X → R → TorchCall X × R
  pub new_linear : ℤ → ℤ → Bool → R → TorchCall N × R
  pub forward : N → X → R → TorchCall X × R
  pub train : N → Bool → R → TorchCall (Unit {0}) × R
  pub module_to : N → TorchDevice → R → TorchCall (Unit {0}) × R
  pub parameters : N → R → List X
  pub buffers : N → R → List X
  pub save : N → R → TorchCall A × R
  pub save_to : A → List ℕ → R → TorchCall (Unit {0}) × R
  pub load_from : List ℕ → R → TorchCall A × R
  pub load : N → A → R → TorchCall (Unit {0}) × R
  pub new_sgd : List X → D → D → D → R → TorchCall O × R
  pub new_adam : List X → D → D → D → D → D → R → TorchCall O × R
  pub new_adamw : List X → D → D → D → D → D → R → TorchCall O × R
  pub zero_grad : O → R → TorchCall (Unit {0}) × R
  pub step : O → R → TorchCall (Unit {0}) × R

abbrev type_number : TorchType → ℕ
type_number torch_cpu = 0
type_number torch_cuda = 1
type_number torch_mps = 2
type_number torch_xpu = 3
type_number torch_hip = 4
type_number (other_type n) = n + 5

-- `a == b` of `torch::Device`.
unfoldable pub same_torch_device : TorchDevice → TorchDevice → Bool
same_torch_device a b = type_number a.type == type_number b.type && eq_ℤ a.index b.index

-- What the handle registry owns: the number of a tensor of the heap; `LinearState`, which is a module of
-- libtorch; `OptimizerState`, with the module and the optimizer.
pub data TorchObject (N O : Type 0) : Type 0 where
  tensor_object : ℕ → TorchObject N O
  linear_state : N → TorchObject N O
  optimizer_state : N → O → TorchObject N O

pub record TorchProcess (F X R N O : Type 0) : Type 0 where
  pub host : TorchHost F X R
  pub registry : Registry (TorchObject N O)

abbrev pub TorchTrain : Type 0 → Type 0 → Type 0 → Type 0 → Type 0 → Type 0 → Type 0
TorchTrain F X R N O A = Steps (TorchProcess F X R N O) A

abbrev unguarded_call : {A : Type 0} → TorchCall A → Result A
unguarded_call (computed a) = Result.done a
unguarded_call (torch_error what) = Result.threw (std_exception what)

-- A call of libtorch outside a `GuardTorch`: a `c10::Error` is a `std::exception`.
abbrev pub call_torch : {F X R A : Type 0} → (R → TorchCall A × R) → Torched F X R A
call_torch call s = let (c, r) = call s.runtime in (unguarded_call c, record s { runtime = r })

abbrev as_module : {N O : Type 0} → TorchObject N O → Result N
as_module (linear_state n) = Result.done n
as_module _ = Result.undefined

abbrev as_optimizer : {N O : Type 0} → TorchObject N O → Result O
as_optimizer (optimizer_state n o) = Result.done o
as_optimizer _ = Result.undefined

module _ {F X R N O : Type 0} where
  abbrev pub on_host : {A : Type 0} → Torched F X R A → TorchTrain F X R N O A
  on_host m p = let (r, h) = m p.host in (r, record p { host = h })

  -- `LookupModule` of training_bridge_torch.cc.
  unfoldable pub lookup_torch_module : ℕ → TorchTrain F X R N O N
  lookup_torch_module handle = do
    object ← λ p. from_status (lookup handle module_handle p.registry) p
    λ p. (as_module object, p)

  -- `LookupOptimizer` of training_bridge_torch.cc.
  unfoldable pub lookup_torch_optimizer : ℕ → TorchTrain F X R N O O
  lookup_torch_optimizer handle = do
    object ← λ p. from_status (lookup handle optimizer_handle p.registry) p
    λ p. (as_optimizer object, p)

  abbrev registered :
      TorchProcess F X R N O
      → Status × Option ℕ × Registry (TorchObject N O)
      → Result ℕ × TorchProcess F X R N O
  registered p (s, out, r) = from_status (s, out) (record p { registry = r })

  abbrev pub torch_register : HandleType → TorchObject N O → TorchTrain F X R N O ℕ
  torch_register type object p = registered p (insert type (some object) (some 0) p.registry)

  abbrev pub torch_release : HandleType → ℕ → TorchTrain F X R N O (Unit {0})
  torch_release type handle p =
      let (s, r) = release handle type p.registry in
      from_status (s, some tt) (record p { registry = r })
