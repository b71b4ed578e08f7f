-- ===== src/Training/Optimizer.antt =====
-- native/src/training/training_bridge_stub.cc: the optimizers of a module.
use Prim.Native.String.{String, ◌++◌}
use tensora.Core.Status.{fail_argument}
use tensora.Float.{Float32, Float64}
use tensora.Tensor.{Tensor}
use tensora.Registry.Entries.{optimizer_handle}
use tensora.Registry.{release}
use tensora.Heap.{M, load_tensor, guarded}
use tensora.Steps.{
  Steps, check, return, from_status, undefined_unless, Output, to_caller, ◌>>=◌, ◌>>◌, need,
}
use tensora.Autograd.Values.{cpu_values}
use tensora.Training.State.{
  OptimizerKind, sgd, adam, adamw, Rates, OptimizerState, Train, on_tensors, lookup_module,
  lookup_optimizer, register, new_optimizer, parameters,
}
use tensora.Training.Step.{StepState, step_all, clear_gradients}
use tensora.Prelude.{
  ℕ, ◌*◌, not, ◌&&◌, Bool, true, false, some, List, [], ◌∷◌, get_elem?, set, replicate,
  if◌then◌else◌,
}

abbrev pub kind_operation : OptimizerKind → String
kind_operation sgd = "sgd_create"
kind_operation adam = "adam_create"
kind_operation adamw = "adamw_create"

module _ (F : Type 0) {D : Type 0} ⦃fd : Float64 F D⦄ where
  open fd use {zero_d, one_d, lt_d, le_d, is_finite}

  -- `ValidatePositiveFinite`
  unfoldable pub validate_positive_finite : {S : Type 0} → D → String → String → Steps S (Unit {0})
  validate_positive_finite value name operation =
      check (is_finite value && not (le_d value zero_d))
        (fail_argument ((operation ++ ": ") ++ (name ++ " must be finite and positive")))

  -- `ValidateNonNegativeFinite`
  unfoldable pub validate_non_negative_finite :
      {S : Type 0} → D → String → String → Steps S (Unit {0})
  validate_non_negative_finite value name operation =
      check (is_finite value && not (lt_d value zero_d))
        (fail_argument ((operation ++ ": ") ++ (name ++ " must be finite and non-negative")))

  -- `ValidateBeta`
  unfoldable pub validate_beta : {S : Type 0} → D → String → String → Steps S (Unit {0})
  validate_beta value name operation =
      check (is_finite value && (not (lt_d value zero_d) && not (le_d one_d value)))
        (fail_argument ((operation ++ ": ") ++ (name ++ " must be finite in [0, 1)")))

  -- The tests of the numbers that the kind of optimizer uses.
  unfoldable pub validate_kind :
      {S : Type 0} → OptimizerKind → Rates D → String → Steps S (Unit {0})
  unfolding validate_non_negative_finite validate_beta validate_positive_finite
  validate_kind sgd r operation = validate_non_negative_finite r.momentum "momentum" operation
  validate_kind kind r operation = do
    validate_beta r.beta1 "beta1" operation
    validate_beta r.beta2 "beta2" operation
    validate_positive_finite r.epsilon "epsilon" operation

  -- The tests of `CreateOptimizer`.
  unfoldable pub admit_rates : {S : Type 0} → OptimizerKind → Rates D → Steps S (Unit {0})
  unfolding validate_positive_finite validate_non_negative_finite validate_kind
  admit_rates kind r = do
    let operation = kind_operation kind
    validate_positive_finite r.learning_rate "learning_rate" operation
    validate_non_negative_finite r.weight_decay "weight_decay" operation
    validate_kind kind r operation

abbrev is_sgd : OptimizerKind → Bool
is_sgd sgd = true
is_sgd kind = false

module _ {F : Type 0} ⦃fl : Float32 F⦄ where
  open fl use {zero_f}

  -- How `OptimizerStep` reads a gradient.
  unfoldable pub read_direct : Tensor → M F (List F)
  unfolding cpu_values
  read_direct t = cpu_values t "optimizer_step" to_caller

  -- The moments of `CreateOptimizer`: SGD has no second ones.
  make_moments : String → Bool → List ℕ → M F (List (List F) × List (List F))
  unfolding guarded
  make_moments operation no_second [] = return ([], [])
  make_moments operation no_second (parameter ∷ rest) = do
    t ← load_tensor parameter
    guarded operation (t.shape.numel * 4)
    if no_second then return tt else guarded operation (t.shape.numel * 4)
    (firsts, seconds) ← make_moments operation no_second rest
    let zeros = replicate t.shape.numel zero_f
    return (zeros ∷ firsts, if no_second then seconds else zeros ∷ seconds)

module _ {F D G : Type 0} ⦃fl : Float32 F⦄ ⦃fd : Float64 F D⦄ where
  open fd use {zero_d}

  -- `CreateOptimizer`
  unfoldable pub create_optimizer : ℕ → OptimizerKind → Rates D → Output → Train F D G ℕ
  unfolding admit_rates lookup_module make_moments parameters
  create_optimizer module_id kind r out = do
    need out "optimizer_create: output handle pointer is null"
    let operation = kind_operation kind
    admit_rates F kind r
    (a, s) ← lookup_module module_id
    (firsts, seconds) ← on_tensors (make_moments operation (is_sgd kind) (parameters s))
    state ← new_optimizer (record {
      module_state = a;
      moments = record {
        kind = kind;
        rates = r;
        step = 0;
        first_moment = firsts;
        second_moment = seconds;
      };
    })
    register optimizer_handle state

  -- `SgdCreate`
  unfoldable pub sgd_create : ℕ → D → D → D → Output → Train F D G ℕ
  unfolding create_optimizer
  sgd_create module_id learning_rate momentum weight_decay out =
      create_optimizer module_id sgd
        (record {
          learning_rate = learning_rate;
          momentum = momentum;
          beta1 = zero_d;
          beta2 = zero_d;
          epsilon = zero_d;
          weight_decay = weight_decay;
        })
        out

  -- `AdamCreate` and `AdamWCreate`.
  unfoldable pub adam_create : OptimizerKind → ℕ → D → D → D → D → D → Output → Train F D G ℕ
  unfolding create_optimizer
  adam_create kind module_id learning_rate beta1 beta2 epsilon weight_decay out =
      create_optimizer module_id kind
        (record {
          learning_rate = learning_rate;
          momentum = zero_d;
          beta1 = beta1;
          beta2 = beta2;
          epsilon = epsilon;
          weight_decay = weight_decay;
        })
        out

  -- A step on the moments of an optimizer. What a step that fails has changed stays changed.
  unfoldable pub on_moments :
      ℕ → OptimizerState F D → Steps (StepState F D) (Unit {0}) → Train F D G (Unit {0})
  on_moments a s m p =
      let (r, (o, h)) = m (s.moments, p.world.heap) in
      (
        r,
        record p {
          world = record p.world { heap = h };
          optimizers = set p.optimizers a (record s { moments = o });
        },
      )

  module_parameters : ℕ → Train F D G (List ℕ)
  unfolding parameters
  module_parameters a p = (do s ← undefined_unless (get_elem? p.modules a); return (parameters s)) p

  -- `OptimizerZeroGrad`
  unfoldable pub optimizer_zero_grad : ℕ → Train F D G (Unit {0})
  unfolding lookup_optimizer module_parameters clear_gradients
  optimizer_zero_grad optimizer = do
    (a, s) ← lookup_optimizer optimizer
    ps ← module_parameters s.module_state
    on_tensors (clear_gradients ps)

  -- `OptimizerStep`
  unfoldable pub optimizer_step : ℕ → Train F D G (Unit {0})
  unfolding lookup_optimizer module_parameters on_moments step_all read_direct
  optimizer_step optimizer = do
    (a, s) ← lookup_optimizer optimizer
    ps ← module_parameters s.module_state
    on_moments a s (step_all "optimizer_step" read_direct ps)

  -- `OptimizerRelease`
  unfoldable pub optimizer_release : ℕ → Train F D G (Unit {0})
  optimizer_release optimizer p =
      let (s, r) = release optimizer optimizer_handle p.world.registry in
      from_status (s, some tt) (record p { world = record p.world { registry = r } })
