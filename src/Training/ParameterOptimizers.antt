-- ===== src/Training/ParameterOptimizers.antt =====
-- native/src/training/nn_v2_optimizer.h: optimizers over tensors that the caller collects.
pub mod Gathered
pub mod Accepted
use Prim.Native.String.{String, ◌++◌ as joined}
use tensora.Core.Status.{fail_argument, fail_unsupported}
use tensora.Float.{Float32, Float64}
use tensora.Storage.{StorageKind, cpu_kind, torch_kind, kind, is_null}
use tensora.Tensor.{Tensor}
use tensora.Registry.Entries.{tensor_handle, parameter_optimizer}
use tensora.Registry.{release}
use tensora.Heap.{M, load_tensor, load_storage, guarded}
use tensora.Steps.{Steps, check, return, fail, from_status, Output, to_caller, ◌>>=◌, ◌>>◌, need}
use tensora.Autograd.Values.{mutable_cpu_values, read_logical_cpu_values}
use tensora.Autograd.Graph.{contains}
use tensora.Training.Transfer.{requires_grad_flag}
use tensora.Training.State.{
  OptimizerKind, sgd, Rates, ParameterOptimizer, Train, on_tensors, find_object,
  lookup_parameter_optimizer, register, new_parameter_optimizer,
}
use tensora.Training.Step.{StepState, step_all, clear_gradients}
use tensora.Prelude.{
  ℕ, ◌*◌, ◌==◌, not, ◌&&◌, ◌||◌, Bool, true, false, Option, none, some, List, [], ◌∷◌, ◌++◌, length,
  set, replicate, entries, if◌then◌else◌,
}

module _ (F : Type 0) {D : Type 0} ⦃fd : Float64 F D⦄ where
  open fd use {zero_d, one_d, lt_d, le_d, is_finite}

  -- The numbers that are not finite in [0, 1).
  abbrev beta_refused : D → Bool
  beta_refused beta = not (is_finite beta) || (lt_d beta zero_d || le_d one_d beta)

  -- `ValidateLearningRate`
  unfoldable pub validate_learning_rate : {S : Type 0} → D → String → Steps S (Unit {0})
  validate_learning_rate value operation =
      check (is_finite value && not (le_d value zero_d))
        (fail_argument (joined operation ": learning rate must be finite and positive"))

  -- `ValidateWeightDecay`
  unfoldable pub validate_weight_decay : {S : Type 0} → D → String → Steps S (Unit {0})
  validate_weight_decay value operation =
      check (is_finite value && not (lt_d value zero_d))
        (fail_argument (joined operation ": weight decay must be finite and non-negative"))

  -- `ValidateMomentum`
  unfoldable pub validate_momentum : {S : Type 0} → D → String → Steps S (Unit {0})
  validate_momentum value operation =
      check (is_finite value && not (lt_d value zero_d))
        (fail_argument (joined operation ": momentum must be finite and non-negative"))

  -- `ValidateBetas`
  unfoldable pub validate_betas : {S : Type 0} → D → D → String → Steps S (Unit {0})
  validate_betas beta1 beta2 operation =
      check (not (beta_refused beta1 || beta_refused beta2))
        (fail_argument (joined operation ": beta values must be finite in [0, 1)"))

  -- `ValidateEpsilon`
  unfoldable pub validate_epsilon : {S : Type 0} → D → String → Steps S (Unit {0})
  validate_epsilon value operation =
      check (is_finite value && not (le_d value zero_d))
        (fail_argument (joined operation ": epsilon must be finite and positive"))

  -- The tests of `Create`.
  validate_rates : {S : Type 0} → OptimizerKind → Rates D → String → Steps S (Unit {0})
  unfolding validate_momentum validate_betas validate_epsilon
  validate_rates sgd r operation = validate_momentum r.momentum operation
  validate_rates other r operation = do
    validate_betas r.beta1 r.beta2 operation
    validate_epsilon r.epsilon operation

abbrev pub same_kind : StorageKind → StorageKind → Bool
same_kind cpu_kind cpu_kind = true
same_kind torch_kind torch_kind = true
same_kind _ _ = false

-- What the loop of `CollectParameters` has gathered: the tensors seen, the kind of storage of the
-- trainable ones, and these.
pub record Collected : Type 0 where
  pub seen : List ℕ
  pub kind : Option StorageKind
  pub parameters : List ℕ

abbrev pub fits : Option StorageKind → StorageKind → Bool
fits none k = true
fits (some batch) k = same_kind k batch

abbrev pub read_handles : Option (ℕ → ℕ) → ℕ → List ℕ
read_handles none count = []
read_handles (some read) count = entries read 0 count

module _ {F D G : Type 0} where
  -- The kind of storage of a trainable tensor is looked at, and the tensor is kept.
  unfoldable pub keep_trainable : String → Tensor → ℕ → Collected → Train F D G Collected
  keep_trainable operation t parameter c = do
    storage ← on_tensors (load_storage t.storage)
    let k = kind storage
    check (fits c.kind k)
        (fail_argument (joined operation ": all trainable parameters must use one backend"))
    return (record c {
      kind = elim c.kind [ none ↦ some k | some batch ↦ some batch ];
      parameters = c.parameters ++ parameter ∷ [];
    })

  -- One round of the loop of `CollectParameters`.
  unfoldable pub collect_parameter : String → ℕ → Collected → Train F D G Collected
  unfolding keep_trainable requires_grad_flag
  collect_parameter operation handle c = do
    parameter ← find_object handle tensor_handle
    check (not (contains parameter c.seen))
        (fail_argument (joined operation ": duplicate parameter tensor"))
    t ← on_tensors (load_tensor parameter)
    flag ← on_tensors (requires_grad_flag t to_caller)
    if flag == 0
        then return (record c { seen = parameter ∷ c.seen })
        else keep_trainable operation t parameter (record c { seen = parameter ∷ c.seen })

  unfoldable pub collect_loop : String → List ℕ → Collected → Train F D G Collected
  unfolding collect_parameter
  collect_loop operation [] c = return c
  collect_loop operation (handle ∷ rest) c = do
    c' ← collect_parameter operation handle c
    collect_loop operation rest c'

  unfoldable pub collected_kind : String → Collected → Train F D G (List ℕ × StorageKind)
  collected_kind operation c = elim c.kind [
    | none ↦
        fail (fail_argument (joined operation ": no trainable parameters remain after filtering"))
    | some k ↦ return (c.parameters, k)
  ]

  -- `CollectParameters`, with its output pointers given. The kind is set when the first trainable
  -- tensor is kept.
  unfoldable pub collect_parameters :
      Option (ℕ → ℕ) → ℕ → String → Train F D G (List ℕ × StorageKind)
  unfolding collect_loop collected_kind
  collect_parameters handles count operation = do
    check (not (is_null handles || count == 0))
        (fail_argument (joined operation ": parameter collection must not be empty"))
    c ←
        collect_loop operation (read_handles handles count)
          (record { seen = []; kind = none; parameters = [] })
    collected_kind operation c

module _ {F : Type 0} ⦃fl : Float32 F⦄ where
  open fl use {zero_f}

  -- `InitializeCpuMoments`: both moments of each parameter are zeros.
  unfoldable pub initialize_cpu_moments : String → List ℕ → M F (List (List F))
  unfolding mutable_cpu_values guarded
  initialize_cpu_moments operation [] = return []
  initialize_cpu_moments operation (parameter ∷ rest) = do
    t ← load_tensor parameter
    values ← mutable_cpu_values t operation to_caller
    guarded operation (length values * 4)
    guarded operation (length values * 4)
    moments ← initialize_cpu_moments operation rest
    return (replicate (length values) zero_f ∷ moments)

  initialize_moments : StorageKind → String → List ℕ → M F (List (List F))
  unfolding initialize_cpu_moments
  initialize_moments cpu_kind operation ps = initialize_cpu_moments operation ps
  initialize_moments torch_kind operation ps =
      fail (fail_unsupported (joined operation ": parameter storage backend is unsupported"))

  -- How `CpuStep` reads a gradient.
  unfoldable pub read_strided : Tensor → M F (List F)
  unfolding read_logical_cpu_values
  read_strided t = read_logical_cpu_values t "parameter_optimizer_step" to_caller

module _ {F D G : Type 0} ⦃fl : Float32 F⦄ ⦃fd : Float64 F D⦄ where
  open fd use {zero_d}

  -- `Create`
  unfoldable pub create :
      Option (ℕ → ℕ) → ℕ → OptimizerKind → Rates D → Output → String → Train F D G ℕ
  unfolding validate_learning_rate validate_weight_decay validate_rates collect_parameters
      initialize_moments guarded
  create handles count kind r out operation = do
    need out (joined operation ": output handle pointer is null")
    validate_learning_rate F r.learning_rate operation
    validate_weight_decay F r.weight_decay operation
    validate_rates F kind r operation
    (ps, storage_kind) ← collect_parameters handles count operation
    on_tensors (guarded operation 0)
    moments ← on_tensors (initialize_moments storage_kind operation ps)
    state ← new_parameter_optimizer (record {
      parameters = ps;
      storage_kind = storage_kind;
      moments = record {
        kind = kind;
        rates = r;
        step = 0;
        first_moment = moments;
        second_moment = moments;
      };
    })
    register parameter_optimizer state

  -- `SgdCreate`
  unfoldable pub sgd_create_for_tensors : Option (ℕ → ℕ) → ℕ → D → D → D → Output → Train F D G ℕ
  unfolding create
  sgd_create_for_tensors handles count learning_rate momentum weight_decay out =
      create handles count sgd
        (record {
          learning_rate = learning_rate;
          momentum = momentum;
          beta1 = zero_d;
          beta2 = zero_d;
          epsilon = zero_d;
          weight_decay = weight_decay;
        })
        out "sgd_create_for_tensors"

  -- `AdamCreate`, and `AdamWCreate` with its kind and name.
  unfoldable pub adam_create_for_tensors :
      OptimizerKind → String → Option (ℕ → ℕ) → ℕ → D → D → D → D → D → Output → Train F D G ℕ
  unfolding create
  adam_create_for_tensors kind name handles count learning_rate beta1 beta2 epsilon weight_decay
        out =
      create handles count kind
        (record {
          learning_rate = learning_rate;
          momentum = zero_d;
          beta1 = beta1;
          beta2 = beta2;
          epsilon = epsilon;
          weight_decay = weight_decay;
        })
        out name

  -- What a step changes in the optimizer of that number stays changed when the step fails.
  unfoldable pub on_parameter_moments :
      ℕ → ParameterOptimizer F D → Steps (StepState F D) (Unit {0}) → Train F D G (Unit {0})
  on_parameter_moments a s m p =
      let (r, (o, h)) = m (s.moments, p.world.heap) in
      (
        r,
        record p {
          world = record p.world { heap = h };
          parameter_optimizers = set p.parameter_optimizers a (record s { moments = o });
        },
      )

  -- `Step`, which is `CpuStep` in this build.
  unfoldable pub parameter_step : ℕ → Train F D G (Unit {0})
  unfolding lookup_parameter_optimizer on_parameter_moments step_all read_strided
  parameter_step optimizer = do
    (a, s) ← lookup_parameter_optimizer optimizer
    on_parameter_moments a s (step_all "parameter_optimizer_step" read_strided s.parameters)

module _ {F D G : Type 0} where
  -- `ZeroGrad`
  unfoldable pub zero_grad : ℕ → Train F D G (Unit {0})
  unfolding lookup_parameter_optimizer clear_gradients
  zero_grad optimizer = do
    (a, s) ← lookup_parameter_optimizer optimizer
    on_tensors (clear_gradients s.parameters)

  -- `Release`
  unfoldable pub parameter_release : ℕ → Train F D G (Unit {0})
  parameter_release optimizer p =
      let (s, r) = release optimizer parameter_optimizer p.world.registry in
      from_status (s, some tt) (record p { world = record p.world { registry = r } })
