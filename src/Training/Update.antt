-- ===== src/Training/Update.antt =====
-- The loops of OptimizerStep in native/src/training/training_bridge_stub.cc and of CpuStep in
-- native/src/training/nn_v2_optimizer.h, which are the same: one round for each element.
use tensora.Float.{Float32, Float64}
use tensora.Training.State.{OptimizerKind, sgd, adam, Rates}
use tensora.Prelude.{ℕ, List, length, get_or, set, for_range, if◌then◌else◌}

-- The three vectors that a step changes.
pub record Slots (F : Type 0) : Type 0 where
  pub values : List F
  pub first : List F
  pub second : List F

module _ (F : Type 0) {D : Type 0} ⦃fl : Float32 F⦄ ⦃fd : Float64 F D⦄ where
  open fl use {zero_f}
  open fd use {
    zero_d, one_d, of_float, to_float, of_count, add_d, sub_d, mul_d, div_d, sqrt_d, pow_d, lt_d,
  }

  abbrev double_at : List F → ℕ → D
  double_at xs i = of_float (get_or xs i zero_f)

  -- SGD: the gradient with its weight decay, and the first moment with momentum.
  sgd_gradient : Rates D → D → D → D
  sgd_gradient r value grad = add_d grad (mul_d r.weight_decay value)

  sgd_moment : Rates D → D → D → F
  sgd_moment r first grad = to_float (add_d (mul_d r.momentum first) grad)

  unfoldable pub sgd_element : Rates D → List F → ℕ → Slots F → Slots F
  unfolding sgd_gradient sgd_moment
  sgd_element r gradient i s =
      let value = double_at s.values i in
      let grad = sgd_gradient r value (double_at gradient i) in
      let moment = sgd_moment r (double_at s.first i) grad in
      if lt_d zero_d r.momentum
      then record s {
        first = set s.first i moment;
        values = set s.values i (to_float (sub_d value (mul_d r.learning_rate (of_float moment))));
      }
      else record s {
        values = set s.values i (to_float (sub_d value (mul_d r.learning_rate grad)));
      }

  -- Adam adds the weight decay to the gradient, AdamW takes it off the parameter.
  adam_gradient : OptimizerKind → Rates D → D → D → D
  adam_gradient adam r value grad = add_d grad (mul_d r.weight_decay value)
  adam_gradient kind r value grad = grad

  adam_decayed : OptimizerKind → Rates D → D → D
  adam_decayed adam r value = value
  adam_decayed kind r value =
      if lt_d zero_d r.weight_decay
      then mul_d value (sub_d one_d (mul_d r.learning_rate r.weight_decay))
      else value

  first_value : Rates D → D → D → D
  first_value r first grad = add_d (mul_d r.beta1 first) (mul_d (sub_d one_d r.beta1) grad)

  second_value : Rates D → D → D → D
  second_value r second grad =
      add_d (mul_d r.beta2 second) (mul_d (mul_d (sub_d one_d r.beta2) grad) grad)

  adam_moved : Rates D → D → D → D → D
  adam_moved r value first_hat second_hat =
      sub_d value (div_d (mul_d r.learning_rate first_hat) (add_d (sqrt_d second_hat) r.epsilon))

  -- One element, where `step` counts this step too.
  unfoldable pub adam_element : OptimizerKind → Rates D → ℕ → List F → ℕ → Slots F → Slots F
  unfolding adam_gradient adam_decayed first_value second_value adam_moved
  adam_element kind r step gradient i s =
      let value = double_at s.values i in
      let grad = adam_gradient kind r value (double_at gradient i) in
      let first = first_value r (double_at s.first i) grad in
      let second = second_value r (double_at s.second i) grad in
      let first_hat = div_d first (sub_d one_d (pow_d r.beta1 (of_count step))) in
      let second_hat = div_d second (sub_d one_d (pow_d r.beta2 (of_count step))) in
      record {
        first = set s.first i (to_float first);
        second = set s.second i (to_float second);
        values =
            set s.values i
              (to_float (adam_moved r (adam_decayed kind r value) first_hat second_hat));
      }

  -- The loop over the elements.
  unfoldable pub update : OptimizerKind → Rates D → ℕ → List F → Slots F → Slots F
  unfolding sgd_element adam_element
  update sgd r step gradient s = for_range (length s.values) 0 (sgd_element r gradient) s
  update kind r step gradient s =
      for_range (length s.values) 0 (adam_element kind r step gradient) s
