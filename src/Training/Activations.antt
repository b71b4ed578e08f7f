-- ===== src/Training/Activations.antt =====
-- The activations: MakeActivation of native/src/training/training_bridge_stub.cc, and the unary
-- operations of native/src/training/nn_v2_runtime.h on CPU tensors.
use Prim.Native.String.{String, ◌++◌}
use tensora.Core.Status.{fail_shape, fail_internal}
use tensora.Float.{Float32, max_f}
use tensora.Heap.{
  M, Operation, op_relu, op_sigmoid, op_tanh, op_gelu, op_silu, op_swiglu, load_tensor, guarded,
}
use tensora.Steps.{check, fail, return, Output, to_caller, ◌>>=◌, ◌>>◌, need}
use tensora.Memory.{pointer_to, validated}
use tensora.Autograd.Values.{
  ensure_cpu_float32, cpu_values, read_logical_cpu_values, make_cpu_tensor,
}
use tensora.Autograd.Graph.{record_unary}
use tensora.Autograd.Gradients.{at, sigmoid}
use tensora.Backend.Cpu.{rounds}
use tensora.Prelude.{
  ℕ, ◌+◌, ◌-◌, ◌*◌, ◌/◌, ◌%◌, ◌==◌, not, ◌&&◌, Option, none, some, List, [], ◌∷◌, pos, is_nonpos,
  length, get_or, set, replicate, entries, for_range, if◌then◌else◌,
}

module _ {F : Type 0} ⦃fl : Float32 F⦄ where
  open fl use {
    zero_f, one_f, half_f, inv_sqrt2, add_f, mul_f, div_f, neg_f, exp_f, tanh_f, erf_f, le_f,
  }

  -- The sigmoid that does not overflow, by the sign of its argument.
  stable_sigmoid : F → F
  stable_sigmoid x =
      if le_f zero_f x
      then div_f one_f (add_f one_f (exp_f (neg_f x)))
      else div_f (exp_f x) (add_f one_f (exp_f x))

  -- One round of the loop of `MakeActivation`; `none` is its error.
  unfoldable pub activation_value : Operation → F → Option F
  unfolding stable_sigmoid
  activation_value op_relu x = some (max_f zero_f x)
  activation_value op_sigmoid x = some (stable_sigmoid x)
  activation_value op_tanh x = some (tanh_f x)
  activation_value operation x = none

  -- The loop of `MakeActivation`.
  unfoldable pub activation_values : Operation → List F → Option (List F)
  activation_values operation [] = some []
  activation_values operation (x ∷ xs) = elim (activation_value operation x) [
    | none ↦ none
    | some y ↦ elim (activation_values operation xs) [ none ↦ none | some ys ↦ some (y ∷ ys) ]
  ]

  activated : Option (List F) → M F (List F)
  activated none = fail (fail_internal "activation: unsupported operation")
  activated (some values) = return values

  -- `MakeActivation`
  unfoldable pub make_activation : ℕ → Operation → Output → M F ℕ
  unfolding cpu_values activated activation_values make_cpu_tensor record_unary
  make_activation tensor operation out = do
    need out "activation: output tensor pointer is null"
    t ← load_tensor tensor
    input ← cpu_values t "activation" to_caller
    values ← activated (activation_values operation input)
    result ← make_cpu_tensor t.shape values out
    record_unary operation tensor result
    return result

  -- `Relu`, `Sigmoid` and `Tanh`.
  unfoldable pub relu : ℕ → Output → M F ℕ
  unfolding make_activation
  relu tensor out = make_activation tensor op_relu out

  unfoldable pub sigmoid_of : ℕ → Output → M F ℕ
  unfolding make_activation
  sigmoid_of tensor out = make_activation tensor op_sigmoid out

  unfoldable pub tanh_of : ℕ → Output → M F ℕ
  unfolding make_activation
  tanh_of tensor out = make_activation tensor op_tanh out

  -- `CpuUnary`
  unfoldable pub cpu_unary : ℕ → Operation → String → (F → F) → Output → M F ℕ
  unfolding ensure_cpu_float32 read_logical_cpu_values guarded make_cpu_tensor record_unary
  cpu_unary tensor operation name forward out = do
    need out (name ++ ": output tensor pointer is null")
    t ← load_tensor tensor
    ensure_cpu_float32 t name
    input ← read_logical_cpu_values t name to_caller
    guarded name (length input * 4)
    result ← make_cpu_tensor t.shape (entries (λ i. forward (at input i)) 0 (length input)) out
    record_unary operation tensor result
    return result

  -- `GeluForward`
  unfoldable pub gelu_forward : F → F
  gelu_forward x = mul_f (mul_f half_f x) (add_f one_f (erf_f (mul_f x inv_sqrt2)))

  -- `SiluForward`
  unfoldable pub silu_forward : F → F
  unfolding sigmoid
  silu_forward x = mul_f x (sigmoid x)

  -- `Gelu`
  unfoldable pub gelu : ℕ → Output → M F ℕ
  unfolding cpu_unary gelu_forward
  gelu tensor out = cpu_unary tensor op_gelu "tensor_gelu" gelu_forward out

  -- `Silu`
  unfoldable pub silu : ℕ → Output → M F ℕ
  unfolding cpu_unary silu_forward
  silu tensor out = cpu_unary tensor op_silu "tensor_silu" silu_forward out

  -- The loop of `CpuSwiGlu`.
  unfoldable pub swiglu_values : ℕ → ℕ → ℕ → ℕ → List F → List F
  unfolding silu_forward
  swiglu_values rows width half numel input =
      for_range rows 0
        (λ row. for_range half 0 (λ col out. set out (row * half + col) (
          mul_f (silu_forward (at input (row * width + col)))
            (at input (row * width + (half + col))))))
        (replicate numel zero_f)

  -- `CpuSwiGlu`, and `SwiGlu`, which calls it.
  unfoldable pub swiglu : ℕ → Output → M F ℕ
  unfolding ensure_cpu_float32 read_logical_cpu_values guarded swiglu_values make_cpu_tensor
      record_unary
  swiglu tensor out = do
    need out ("tensor_swiglu" ++ ": output tensor pointer is null")
    t ← load_tensor tensor
    ensure_cpu_float32 t "tensor_swiglu"
    let rank = length t.shape.dimensions
    check (not (rank == 0)) (fail_shape "tensor_swiglu: input must have rank at least one")
    let last = get_or t.shape.dimensions (rank - 1) (pos 0)
    let width = rounds last
    check (not (is_nonpos last) && width % 2 == 0)
        (fail_shape "tensor_swiglu: final dimension must be positive and even")
    let half = width / 2
    shape ← validated (pointer_to (pos 0) (set t.shape.dimensions (rank - 1) (pos half))) rank
    input ← read_logical_cpu_values t "tensor_swiglu" to_caller
    guarded "tensor_swiglu" (shape.numel * 4)
    result ←
        make_cpu_tensor shape (swiglu_values (t.shape.numel / width) width half shape.numel input)
          out
    record_unary op_swiglu tensor result
    return result
