-- ===== src/Training/State.antt =====
-- The objects of native/src/training/training_bridge_stub.cc and nn_v2_optimizer.h, and the process
-- that holds them. An object is named by its number in the list of its kind; the handle registry
-- keeps that number under the handle type of the kind.
use tensora.Core.Status.{Status}
use tensora.Registry.Entries.{HandleType, module_handle, optimizer_handle, parameter_optimizer}
use tensora.Registry.{Registry, insert, lookup}
use tensora.Storage.{StorageKind}
use tensora.Heap.{M, load_tensor}
use tensora.Tensor.{Tensor}
use tensora.Steps.{Result, Steps, ◌>>=◌, return, from_status, undefined_unless}
use tensora.Api.{World, Api}
use tensora.Prelude.{
  ℕ, Bool, Option, none, some, List, [], ◌∷◌, ◌++◌, ℤ, length, get_elem?, set, if◌then◌else◌,
}

-- `LinearState`, without its mutex.
pub record LinearState : Type 0 where
  pub in_features : ℤ
  pub out_features : ℤ
  pub use_bias : Bool
  pub training : Bool
  pub weight : ℕ
  pub bias : Option ℕ

-- `OptimizerKind`, and `Kind` of nn_v2_optimizer.h.
pub data OptimizerKind : Type 0 where
  sgd adam adamw : OptimizerKind

-- The numbers that an optimizer is created with.
pub record Rates (D : Type 0) : Type 0 where
  pub learning_rate : D
  pub momentum : D
  pub beta1 : D
  pub beta2 : D
  pub epsilon : D
  pub weight_decay : D

-- The fields that `OptimizerState` and `State` of nn_v2_optimizer.h have in common.
pub record Moments (F D : Type 0) : Type 0 where
  pub kind : OptimizerKind
  pub rates : Rates D
  pub step : ℕ
  pub first_moment : List (List F)
  pub second_moment : List (List F)

-- `OptimizerState`
pub record OptimizerState (F D : Type 0) : Type 0 where
  pub module_state : ℕ
  pub moments : Moments F D

-- `State` of nn_v2_optimizer.h, without its mutex.
pub record ParameterOptimizer (F D : Type 0) : Type 0 where
  pub parameters : List ℕ
  pub storage_kind : StorageKind
  pub moments : Moments F D

-- A string of C++ as its bytes: the name of a file.
abbrev pub FileName : Type 0
FileName = List ℕ

-- What a file opened for writing takes: that many bytes, and whether a flush succeeds.
pub record Disk : Type 0 where
  pub room : ℕ
  pub flushes : Bool

-- The random engine is `rng`. `files` has the bytes of the files that can be opened for reading, and
-- `disk` answers for a file that is opened for writing, `none` where it cannot be.
pub record Process (F D G : Type 0) : Type 0 where
  pub world : World F
  pub modules : List LinearState
  pub optimizers : List (OptimizerState F D)
  pub parameter_optimizers : List (ParameterOptimizer F D)
  pub rng : G
  pub files : FileName → Option (List ℕ)
  pub disk : FileName → Option Disk

abbrev pub Train : Type 0 → Type 0 → Type 0 → Type 0 → Type 0
Train F D G A = Steps (Process F D G) A

module _ {F D G : Type 0} where
  -- A step of the code below.
  abbrev pub on_world : {A : Type 0} → Api F A → Train F D G A
  on_world m p = let (r, w) = m p.world in (r, record p { world = w })

  abbrev pub on_tensors : {A : Type 0} → M F A → Train F D G A
  on_tensors m p =
      let (r, h) = m p.world.heap in (r, record p { world = record p.world { heap = h } })

  abbrev pub find_object : ℕ → HandleType → Train F D G ℕ
  find_object handle type p = from_status (lookup handle type p.world.registry) p

  abbrev registered : Process F D G → Status × Option ℕ × Registry ℕ → Result ℕ × Process F D G
  registered p (s, out, r) =
      from_status (s, out) (record p { world = record p.world { registry = r } })

  abbrev pub register : HandleType → ℕ → Train F D G ℕ
  register type object p = registered p (insert type (some object) (some 0) p.world.registry)

  -- `LookupModule`: the number of the state, and the state.
  unfoldable pub lookup_module : ℕ → Train F D G (ℕ × LinearState)
  lookup_module handle = do
    a ← find_object handle module_handle
    λ p. (do state ← undefined_unless (get_elem? p.modules a); return (a, state)) p

  -- `LookupOptimizer`
  unfoldable pub lookup_optimizer : ℕ → Train F D G (ℕ × OptimizerState F D)
  lookup_optimizer handle = do
    a ← find_object handle optimizer_handle
    λ p. (do state ← undefined_unless (get_elem? p.optimizers a); return (a, state)) p

  -- `Lookup` of nn_v2_optimizer.h.
  unfoldable pub lookup_parameter_optimizer : ℕ → Train F D G (ℕ × ParameterOptimizer F D)
  lookup_parameter_optimizer handle = do
    a ← find_object handle parameter_optimizer
    λ p. (do state ← undefined_unless (get_elem? p.parameter_optimizers a); return (a, state)) p

  abbrev pub new_module : LinearState → Train F D G ℕ
  new_module s p = (Result.done (length p.modules), record p { modules = p.modules ++ s ∷ [] })

  abbrev pub new_optimizer : OptimizerState F D → Train F D G ℕ
  new_optimizer s p =
      (Result.done (length p.optimizers), record p { optimizers = p.optimizers ++ s ∷ [] })

  abbrev pub new_parameter_optimizer : ParameterOptimizer F D → Train F D G ℕ
  new_parameter_optimizer s p = (
    Result.done (length p.parameter_optimizers),
    record p { parameter_optimizers = p.parameter_optimizers ++ s ∷ [] },
  )

  abbrev pub store_module : ℕ → LinearState → Train F D G (Unit {0})
  store_module a s p = (Result.done tt, record p { modules = set p.modules a s })

  abbrev pub store_optimizer : ℕ → OptimizerState F D → Train F D G (Unit {0})
  store_optimizer a s p = (Result.done tt, record p { optimizers = set p.optimizers a s })

  abbrev pub store_parameter_optimizer : ℕ → ParameterOptimizer F D → Train F D G (Unit {0})
  store_parameter_optimizer a s p =
      (Result.done tt, record p { parameter_optimizers = set p.parameter_optimizers a s })

  abbrev pub train_load : ℕ → Train F D G Tensor
  train_load a = on_tensors (load_tensor a)

-- What the code uses of the random engine: a number drawn uniformly between a bound's negative and the
-- bound, and a new engine for a seed.
pub record Random (F G : Type 0) : Type 0 where
  pub draw : F → G → F × G
  pub seeded : ℕ → G

unfoldable pub bias_list : Bool → Option ℕ → List ℕ
bias_list use_bias none = []
bias_list use_bias (some b) = if use_bias then b ∷ [] else []

-- `Parameters`. A module that uses a bias has one.
unfoldable pub parameters : LinearState → List ℕ
unfolding bias_list
parameters s = s.weight ∷ bias_list s.use_bias s.bias
