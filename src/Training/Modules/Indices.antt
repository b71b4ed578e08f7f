-- ===== src/Training/Modules/Indices.antt =====
-- native/src/training/training_bridge_stub.cc: ModuleParameterCount and ModuleParameterAt.
use tensora.Core.Status.{Status, fail_argument}
use tensora.Steps.{Result, to_caller, return, fail, undefined_unless}
use tensora.Training.State.{LinearState, Process, lookup_module, bias_list, parameters}
use tensora.Training.Modules.{module_parameter_count, module_parameter_at}
use tensora.Prelude.{
  ℕ, zero, suc, ◌≡◌, refl, Bool, true, false, Option, none, some, [], ◌∷◌, length, get_elem?, ap,
  ◌==◌, ◌&&◌, if◌then◌else◌, arith,
}

-- What ModuleParameterAt answers at an index, from the list of the parameters.
abbrev pub answer : Option ℕ → Result ℕ
answer none = Result.failed (fail_argument "module_parameter_at: parameter index is out of range")
answer (some a) = Result.done a

counted :
    (w b : ℕ) (use_bias : Bool)
    → (if use_bias then 2 else 1) ≡ length (w ∷ (if use_bias then b ∷ [] else []))
counted w b true = refl
counted w b false = refl

abbrev out_of_range : Status
out_of_range = fail_argument "module_parameter_at: parameter index is out of range"

listed :
    {S : Type 0} (w b index : ℕ) (use_bias : Bool) (p : S)
    → (if index == 0
          then return w
          else if index == 1 && use_bias
          then undefined_unless (some b)
          else fail out_of_range)
        p
      ≡ (answer (get_elem? (w ∷ (if use_bias then b ∷ [] else [])) index), p)
listed w b zero use_bias p = refl
listed w b (suc zero) true p = refl
listed w b (suc zero) false p = refl
listed w b (suc (suc n)) true p = ground arith
listed w b (suc (suc n)) false p = ground arith

parameters-listed :
    (s : LinearState) (b : ℕ)
    → s.bias ≡ some b
    → parameters s ≡ s.weight ∷ (if s.use_bias then b ∷ [] else [])
unfolding parameters
parameters-listed s b has = ap (λ o. s.weight ∷ bias_list s.use_bias o) has

module _ {F D G : Type 0} where
  -- For a module whose state has a bias, used or not, ModuleParameterCount is the number of its
  -- parameters, and ModuleParameterAt gives each parameter at its index and refuses every other
  -- index. Neither changes anything.
  pub module_parameter_at-parameters :
      (module_id a b index : ℕ) (p : Process F D G) (s : LinearState)
      → lookup_module module_id p ≡ (Result.done (a, s), p)
      → s.bias ≡ some b
      → (module_parameter_count module_id to_caller p ≡ (Result.done (length (parameters s)), p))
        × (module_parameter_at module_id index to_caller p
            ≡ (answer (get_elem? (parameters s) index), p))
  unfolding module_parameter_count module_parameter_at
  module_parameter_at-parameters module_id a b index p s found has =
      rw (parameters-listed s b has, found, has)
        (
          ap (λ n. (Result.done n, p)) (counted s.weight b s.use_bias),
          listed s.weight b index s.use_bias p,
        )
