-- ===== src/Training/Step.antt =====
-- The step of an optimizer over its parameters: the loops of OptimizerStep in
-- native/src/training/training_bridge_stub.cc and of CpuStep in native/src/training/nn_v2_optimizer.h,
-- which differ in how they read a gradient.
use Prim.Native.String.{String, ◌++◌}
use tensora.Core.Status.{fail_internal}
use tensora.Float.{Float32, Float64}
use tensora.Storage.{Storage}
use tensora.Tensor.{Tensor}
use tensora.Heap.{M, Heap, load_tensor, load_meta, store_storage, increment_version}
use tensora.Steps.{Result, Steps, check, return, to_caller, ◌>>=◌, ◌>>◌}
use tensora.Autograd.Values.{mutable_cpu_values}
use tensora.Autograd.Backward.{clear_gradient}
use tensora.Training.State.{Moments}
use tensora.Training.Update.{update}
use tensora.Prelude.{
  ℕ, suc, ◌+◌, ◌%◌, ◌^◌, ◌==◌, Option, none, some, List, [], ◌∷◌, length, get_or, set,
}

-- What a step works on: the moments of the optimizer, and the heap.
abbrev pub StepState : Type 0 → Type 0 → Type 0
StepState F D = Moments F D × Heap F

module _ {F D : Type 0} where
  abbrev pub in_heap : {A : Type 0} → M F A → Steps (StepState F D) A
  in_heap m (o, h) = let (r, h') = m h in (r, (o, h'))

  abbrev load_moments : Steps (StepState F D) (Moments F D)
  load_moments (o, h) = (Result.done o, (o, h))

  abbrev pub store_moments : Moments F D → Steps (StepState F D) (Unit {0})
  store_moments o (_, h) = (Result.done tt, (o, h))

module _ {F : Type 0} where
  -- `ClearGradient` on each parameter.
  unfoldable pub clear_gradients : List ℕ → M F (Unit {0})
  unfolding clear_gradient
  clear_gradients [] = return tt
  clear_gradients (parameter ∷ rest) = do
    t ← load_tensor parameter
    clear_gradient t
    clear_gradients rest

module _ {F D : Type 0} ⦃fl : Float32 F⦄ ⦃fd : Float64 F D⦄ where
  -- The update of the parameter of that index, with its gradient at hand. The gradient's values are
  -- read as the optimizer does.
  unfoldable pub step_gradient :
      String → (Tensor → M F (List F)) → ℕ → Tensor → ℕ → Steps (StepState F D) (Unit {0})
  unfolding mutable_cpu_values update increment_version
  step_gradient name read_gradient index t g = do
    values ← in_heap (mutable_cpu_values t name to_caller)
    gradient ← in_heap (load_tensor g)
    gradient_values ← in_heap (read_gradient gradient)
    check (length values == length gradient_values)
        (fail_internal (name ++ ": gradient size mismatch"))
    o ← load_moments
    let slots = update F o.kind o.rates o.step gradient_values (record {
      values = values;
      first = get_or o.first_moment index [];
      second = get_or o.second_moment index [];
    })
    store_moments (record o {
      first_moment = set o.first_moment index slots.first;
      second_moment = set o.second_moment index slots.second;
    })
    in_heap (store_storage t.storage (Storage.cpu slots.values))
    in_heap (increment_version t)

  step_meta :
      String → (Tensor → M F (List F)) → ℕ → Tensor → Option ℕ → Steps (StepState F D) (Unit {0})
  unfolding step_gradient
  step_meta name read_gradient index t none = return tt
  step_meta name read_gradient index t (some g) = step_gradient name read_gradient index t g

  -- One round of the loop over the parameters.
  unfoldable pub step_parameter :
      String → (Tensor → M F (List F)) → ℕ → ℕ → Steps (StepState F D) (Unit {0})
  unfolding step_meta
  step_parameter name read_gradient index parameter = do
    t ← in_heap (load_tensor parameter)
    elim t.autograd_meta [
      | none ↦ return tt
      | some m ↦ do meta ← in_heap (load_meta m); step_meta name read_gradient index t meta.gradient
    ]

  -- The loop over the parameters, from the index on.
  unfoldable pub step_parameters :
      String → (Tensor → M F (List F)) → ℕ → List ℕ → Steps (StepState F D) (Unit {0})
  unfolding step_parameter
  step_parameters name read_gradient index [] = return tt
  step_parameters name read_gradient index (parameter ∷ rest) = do
    step_parameter name read_gradient index parameter
    step_parameters name read_gradient (suc index) rest

  -- `++state->step;`, then the loop.
  unfoldable pub step_all :
      String → (Tensor → M F (List F)) → List ℕ → Steps (StepState F D) (Unit {0})
  unfolding step_parameters
  step_all name read_gradient ps = do
    o ← load_moments
    store_moments (record o { step = (o.step + 1) % 2 ^ 64 })
    step_parameters name read_gradient 0 ps
