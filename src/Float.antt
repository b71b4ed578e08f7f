-- ===== src/Float.antt =====
-- The float32 type and what the code uses of it. The hardware and libm implement these, so they are
-- arguments of the model, and no law of theirs is assumed anywhere.
use tensora.Prelude.{ℕ, Bool, if◌then◌else◌}

pub record Float32 (F : Type 0) : Type 0 where
  pub zero_f : F
  pub one_f : F
  pub two_f : F
  pub half_f : F
  pub inv_sqrt2 : F
  pub inv_sqrt2_pi : F
  pub add_f : F → F → F
  pub sub_f : F → F → F
  pub mul_f : F → F → F
  pub div_f : F → F → F
  pub neg_f : F → F
  pub exp_f : F → F
  pub log_f : F → F
  pub tanh_f : F → F
  pub erf_f : F → F
  pub sqrt_f : F → F
  pub lt_f : F → F → Bool
  pub le_f : F → F → Bool
  pub of_size : ℕ → F

-- `std::max`
abbrev pub max_f : {F : Type 0} ⦃fl : Float32 F⦄ → F → F → F
max_f ⦃fl⦄ a b = if fl.lt_f a b then b else a

-- The double type, with its conversions from and to float32 and from integers.
pub record Float64 (F D : Type 0) : Type 0 where
  pub zero_d : D
  pub one_d : D
  pub of_float : F → D
  pub to_float : D → F
  pub of_count : ℕ → D
  pub add_d : D → D → D
  pub sub_d : D → D → D
  pub mul_d : D → D → D
  pub div_d : D → D → D
  pub sqrt_d : D → D
  pub exp_d : D → D
  pub log_d : D → D
  pub pow_d : D → D → D
  pub lt_d : D → D → Bool
  pub le_d : D → D → Bool
  pub is_finite : D → Bool
