-- ===== src/Autograd/Gradients.antt =====
-- native/src/autograd/autograd.h: the arithmetic of `ApplyNode`, over elements in logical order.
use tensora.Float.{Float32, max_f}
use tensora.Heap.{Operation, op_relu, op_sigmoid, op_tanh, op_gelu}
use tensora.Prelude.{
  ℕ, ◌+◌, ◌-◌, ◌*◌, List, length, get_or, set, replicate, entries, for_range, if◌then◌else◌,
}

module _ {F : Type 0} ⦃fl : Float32 F⦄ where
  open fl use {
    zero_f, one_f, two_f, half_f, inv_sqrt2, inv_sqrt2_pi, add_f, sub_f, mul_f, div_f, neg_f, exp_f,
    log_f, tanh_f, erf_f, lt_f, of_size,
  }

  abbrev pub at : List F → ℕ → F
  at xs i = get_or xs i zero_f

  -- `1.0f / (1.0f + std::exp(-x))`
  unfoldable pub sigmoid : F → F
  sigmoid x = div_f one_f (add_f one_f (exp_f (neg_f x)))

  -- The local derivative of each activation.
  pub activation_local : Operation → F → F
  unfolding sigmoid
  activation_local op_relu x = if lt_f zero_f x then one_f else zero_f
  activation_local op_sigmoid x = mul_f (sigmoid x) (sub_f one_f (sigmoid x))
  activation_local op_tanh x = sub_f one_f (mul_f (tanh_f x) (tanh_f x))
  activation_local op_gelu x =
      add_f (mul_f half_f (add_f one_f (erf_f (mul_f x inv_sqrt2))))
        (mul_f (mul_f x (exp_f (mul_f (mul_f (neg_f half_f) x) x))) inv_sqrt2_pi)
  activation_local op x = mul_f (sigmoid x) (add_f one_f (mul_f x (sub_f one_f (sigmoid x))))

  -- A loop that sets each element of a new vector.
  unfoldable pub activation_gradient : Operation → List F → List F → List F
  unfolding activation_local
  activation_gradient operation input grad =
      entries (λ i. mul_f (at grad i) (activation_local operation (at input i))) 0 (length grad)

  unfoldable pub product_gradient : List F → List F → List F
  product_gradient grad factor = entries (λ i. mul_f (at grad i) (at factor i)) 0 (length grad)

  -- `output[col * rows + row] = input[row * cols + col]`
  unfoldable pub transpose_values : ℕ → ℕ → List F → List F → List F
  transpose_values rows cols input output =
      for_range rows 0
        (λ row.
          for_range cols 0 (λ col out. set out (col * rows + row) (at input (row * cols + col))))
        output

  -- The gradient of the left matrix: each cell sums over the columns.
  unfoldable pub matmul_left_gradient : ℕ → ℕ → ℕ → List F → List F → List F
  matmul_left_gradient m k n grad right =
      for_range m 0
        (λ row. for_range k 0 (λ inner out. set out (row * k + inner) (
          for_range n 0
            (λ col value.
              add_f value (mul_f (at grad (row * n + col)) (at right (inner * n + col))))
            zero_f)))
        (replicate (m * k) zero_f)

  -- The gradient of the right matrix: each cell sums over the rows.
  unfoldable pub matmul_right_gradient : ℕ → ℕ → ℕ → List F → List F → List F
  matmul_right_gradient m k n left grad =
      for_range k 0
        (λ inner. for_range n 0 (λ col out. set out (inner * n + col) (
          for_range m 0
            (λ row value. add_f value (mul_f (at left (row * k + inner)) (at grad (row * n + col))))
            zero_f)))
        (replicate (k * n) zero_f)

  -- The two writes for one column of SwiGLU.
  swiglu_cell : ℕ → ℕ → List F → List F → ℕ → ℕ → List F → List F
  unfolding sigmoid
  swiglu_cell width half input grad row col out =
      let left_index = row * width + col in
      let right_index = row * width + (half + col) in
      let a = at input left_index in
      let b = at input right_index in
      let s = sigmoid a in
      let silu = mul_f a s in
      let silu_prime = mul_f s (add_f one_f (mul_f a (sub_f one_f s))) in
      let upstream = at grad (row * half + col) in
      set (set out left_index (mul_f (mul_f upstream b) silu_prime)) right_index
        (mul_f upstream silu)

  unfoldable pub swiglu_gradient : ℕ → ℕ → ℕ → List F → List F → List F
  unfolding swiglu_cell
  swiglu_gradient rows width half input grad =
      for_range rows 0
        (λ row. for_range half 0 (λ col out. swiglu_cell width half input grad row col out))
        (replicate (length input) zero_f)

  -- `2.0f * grad[0] / size`, and the two gradients of the mean squared error.
  unfoldable pub mse_scale : List F → List F → F
  mse_scale grad prediction = div_f (mul_f two_f (at grad 0)) (of_size (length prediction))

  unfoldable pub mse_gradient : F → ℕ → List F → List F → List F
  mse_gradient scale count prediction target =
      entries (λ i. mul_f scale (sub_f (at prediction i) (at target i))) 0 count

  -- The largest logit of a row, and the sum of the exponentials of the distances to it.
  unfoldable pub max_logit : ℕ → List F → ℕ → F
  max_logit classes logits row =
      for_range (classes - 1) 1 (λ col m. max_f m (at logits (row * classes + col)))
        (at logits (row * classes))

  denominator : ℕ → List F → ℕ → F
  unfolding max_logit
  denominator classes logits row =
      for_range classes 0
        (λ col total.
          add_f total
            (exp_f (sub_f (at logits (row * classes + col)) (max_logit classes logits row))))
        zero_f

  unfoldable pub cross_entropy_logits_gradient : F → ℕ → ℕ → List F → List F → List F
  unfolding max_logit denominator
  cross_entropy_logits_gradient scale batch classes logits target =
      for_range batch 0
        (λ row. for_range classes 0 (λ col out.
          let index = row * classes + col in
          let probability =
            div_f (exp_f (sub_f (at logits index) (max_logit classes logits row)))
              (denominator classes logits row) in
          set out index (mul_f scale (sub_f probability (at target index)))))
        (replicate (length logits) zero_f)

  unfoldable pub cross_entropy_target_gradient : F → ℕ → ℕ → List F → List F → List F
  unfolding max_logit denominator
  cross_entropy_target_gradient scale batch classes logits target =
      for_range batch 0
        (λ row.
          let log_denominator =
            add_f (log_f (denominator classes logits row)) (max_logit classes logits row) in
          for_range classes 0 (λ col out.
            let index = row * classes + col in
            set out index (mul_f (neg_f scale) (sub_f (at logits index) log_denominator))))
        (replicate (length target) zero_f)

  -- The gradient of a bias: each column summed over the rows.
  unfoldable pub bias_gradient : ℕ → ℕ → List F → List F
  bias_gradient rows cols grad =
      for_range rows 0
        (λ row.
          for_range cols 0
            (λ col out. set out col (add_f (at out col) (at grad (row * cols + col)))))
        (replicate cols zero_f)
