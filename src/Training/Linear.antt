-- ===== src/Training/Linear.antt =====
-- native/src/training/training_bridge_stub.cc: the linear module.
use tensora.Core.Status.{fail_argument, fail_shape, fail_internal}
use tensora.Float.{Float32}
use tensora.Shape.{ShapeInfo}
use tensora.Tensor.{Tensor, cpu}
use tensora.Registry.Entries.{module_handle}
use tensora.Runtime.{backend_for}
use tensora.Heap.{M, load_tensor, store_tensor, new_meta, guarded}
use tensora.Steps.{
  Result, Steps, check, return, from_status, undefined_unless, Output, to_caller, ◌>>=◌, ◌>>◌, need,
}
use tensora.Memory.{pointer_to, validated}
use tensora.Autograd.Values.{ensure_cpu_float32, cpu_values, make_cpu_tensor}
use tensora.Autograd.Graph.{record_bias_add}
use tensora.Autograd.Gradients.{at}
use tensora.Backend.Cpu.{rounds, dimension, matmul}
use tensora.Training.State.{
  LinearState, Train, Random, on_tensors, lookup_module, register, new_module, train_load,
}
use tensora.Prelude.{
  ℕ, zero, suc, ◌+◌, ◌-◌, ◌*◌, ◌/◌, ◌%◌, ◌^◌, ◌==◌, not, ◌&&◌, ◌||◌, Bool, true, Option, none, some,
  List, [], ◌∷◌, ℤ, pos, is_nonpos, eq_ℤ, to_u64, ltb, length, set, for_range, if◌then◌else◌,
}

-- `ValidateModuleDimensions`
unfoldable pub validate_module_dimensions : {S : Type 0} → ℤ → ℤ → Steps S (Unit {0})
validate_module_dimensions in_features out_features = do
  check (not (is_nonpos in_features || is_nonpos out_features))
      (fail_argument "linear_create: feature dimensions must be positive")
  check (not (ltb ((2 ^ 64 - 1) / to_u64 out_features) (to_u64 in_features)))
      (fail_argument "linear_create: parameter element count overflows")
  check (not (ltb ((2 ^ 64 - 1) / 4) (to_u64 in_features * to_u64 out_features % 2 ^ 64)))
      (fail_argument "linear_create: parameter allocation is too large")

module _ {F : Type 0} ⦃fl : Float32 F⦄ where
  open fl use {zero_f, one_f, add_f, div_f, sqrt_f, of_size}

  -- `MakeParameter`
  unfoldable pub make_parameter : ShapeInfo → List F → M F ℕ
  unfolding make_cpu_tensor
  make_parameter shape values = do
    result ← make_cpu_tensor shape values to_caller
    m ← new_meta (record { requires_grad = true; is_leaf = true; gradient = none; grad_fn = none })
    t ← load_tensor result
    store_tensor result (record t { autograd_meta = some m })
    return result

  -- The loop of `AddBias`.
  unfoldable pub add_bias_values : ℕ → ℕ → List F → List F → List F
  add_bias_values rows cols matrix bias =
      for_range rows 0
        (λ row.
          for_range cols 0 (λ col out.
            set out (row * cols + col) (add_f (at out (row * cols + col)) (at bias col))))
        matrix

  -- `AddBias`
  unfoldable pub add_bias : ℕ → ℕ → Output → M F ℕ
  unfolding cpu_values add_bias_values make_cpu_tensor record_bias_add
  add_bias matrix bias out = do
    need out "linear_forward: output tensor pointer is null"
    m ← load_tensor matrix
    b ← load_tensor bias
    check (length m.shape.dimensions == 2 && length b.shape.dimensions == 1)
        (fail_internal "linear_forward: invalid internal bias shapes")
    let rows = rounds (dimension m 0)
    let cols = rounds (dimension m 1)
    check (eq_ℤ (dimension b 0) (dimension m 1))
        (fail_internal "linear_forward: bias width mismatch")
    matrix_values ← cpu_values m "linear_forward" to_caller
    bias_values ← cpu_values b "linear_forward" to_caller
    result ← make_cpu_tensor m.shape (add_bias_values rows cols matrix_values bias_values) out
    record_bias_add matrix bias result
    return result

  -- `ValidateModuleInput`
  unfoldable pub validate_module_input : LinearState → Tensor → M F (Unit {0})
  unfolding ensure_cpu_float32
  validate_module_input s input = do
    ensure_cpu_float32 input "module_forward"
    check (length input.shape.dimensions == 2)
        (fail_shape "module_forward: Linear currently requires rank-2 input")
    check (eq_ℤ (dimension input 1) s.in_features)
        (fail_shape "module_forward: input feature dimension does not match Linear")

  forward_bias : LinearState → ℕ → Output → M F ℕ
  unfolding add_bias
  forward_bias s linear out =
      if s.use_bias
      then (do bias ← undefined_unless s.bias; add_bias linear bias out)
      else return linear

-- `for (float& value : values) value = distribution(Rng());`
unfoldable pub draws : {F G : Type 0} ⦃rg : Random F G⦄ → ℕ → F → G → List F × G
draws zero bound g = ([], g)
draws ⦃rg⦄ (suc n) bound g =
    let (x, g₁) = rg.draw bound g in let (xs, g₂) = draws n bound g₁ in (x ∷ xs, g₂)

module _ {F D G : Type 0} ⦃fl : Float32 F⦄ ⦃rg : Random F G⦄ where
  open fl use {one_f, div_f, sqrt_f, of_size}

  draw_values : ℕ → F → Train F D G (List F)
  unfolding draws
  draw_values n bound p =
      let (values, g) = draws n bound p.rng in (Result.done values, record p { rng = g })

  -- `ManualSeed`
  unfoldable pub manual_seed : ℕ → Train F D G (Unit {0})
  manual_seed seed p = (Result.done tt, record p { rng = rg.seeded seed })

  draw_bias : Bool → ℕ → F → Train F D G (List F)
  unfolding draw_values guarded
  draw_bias use_bias n bound =
      if use_bias
      then (do on_tensors (guarded "linear_create" (n * 4)); draw_values n bound)
      else return []

  make_bias : Bool → ℤ → List F → Train F D G (Option ℕ)
  unfolding make_parameter
  make_bias use_bias out_features values =
      if use_bias
      then (do
        shape ← on_tensors (validated (pointer_to (pos 0) (out_features ∷ [])) 1)
        bias ← on_tensors (make_parameter shape values)
        return (some bias))
      else return none

  -- `LinearCreate`. The body is under an `AllocationGuard`; its own vectors are the guarded requests.
  unfoldable pub linear_create : ℤ → ℤ → Bool → Output → Train F D G ℕ
  unfolding validate_module_dimensions draw_values draw_bias make_parameter make_bias guarded
  linear_create in_features out_features use_bias out = do
    need out "linear_create: output handle pointer is null"
    validate_module_dimensions in_features out_features
    shape ← on_tensors (validated (pointer_to (pos 0) (in_features ∷ out_features ∷ [])) 2)
    let bound = div_f one_f (sqrt_f (of_size (rounds in_features)))
    on_tensors (guarded "linear_create" (shape.numel * 4))
    weight_values ← draw_values shape.numel bound
    bias_values ← draw_bias use_bias (rounds out_features) bound
    weight ← on_tensors (make_parameter shape weight_values)
    bias ← make_bias use_bias out_features bias_values
    state ← new_module (record {
      in_features = in_features;
      out_features = out_features;
      use_bias = use_bias;
      training = true;
      weight = weight;
      bias = bias;
    })
    register module_handle state

module _ {F D G : Type 0} ⦃fl : Float32 F⦄ where
  -- `ModuleForward`
  unfoldable pub module_forward : ℕ → ℕ → Output → Train F D G ℕ
  unfolding lookup_module validate_module_input backend_for matmul forward_bias
  module_forward module_id input out = do
    need out "module_forward: output tensor pointer is null"
    (a, s) ← lookup_module module_id
    t ← train_load input
    on_tensors (validate_module_input s t)
    backend ← from_status (backend_for cpu to_caller)
    linear ← on_tensors (matmul input s.weight to_caller)
    on_tensors (forward_bias s linear out)
