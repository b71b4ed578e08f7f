-- ===== src/Backend/Kernels.antt =====
-- The arithmetic loops of native/src/backends/cpu/cpu_backend.cc, over the elements in logical order.
pub mod Elementwise
pub mod Matmul
use tensora.Float.{Float32}
use tensora.Prelude.{ℕ, ◌+◌, ◌*◌, List, [], ◌∷◌, length, get_or, set, replicate, for_range, foldl}

module _ {F : Type 0} ⦃fl : Float32 F⦄ where
  open fl use {zero_f, add_f, mul_f}

  -- `for (index …) result[index] = op(left_values[index], right_values[index]);`
  pub elementwise_loop : (F → F → F) → List F → List F → List F → List F
  elementwise_loop op left right result =
      for_range (length result) 0
        (λ index out. set out index (op (get_or left index zero_f) (get_or right index zero_f)))
        result

  -- The loop of `Add`, into storage filled with zeros.
  unfoldable pub add_values : ℕ → List F → List F → List F
  unfolding elementwise_loop
  add_values numel left right = elementwise_loop add_f left right (replicate numel zero_f)

  -- The loop of `Multiply`.
  unfoldable pub multiply_values : ℕ → List F → List F → List F
  unfolding elementwise_loop
  multiply_values numel left right = elementwise_loop mul_f left right (replicate numel zero_f)

  -- The loop of `Sum`.
  unfoldable pub sum_values : List F → F
  sum_values input = foldl add_f zero_f input

  -- The innermost loop of `Matmul`.
  pub matmul_cols : ℕ → F → ℕ → ℕ → List F → List F → List F
  matmul_cols n left_value row inner right output =
      for_range n 0
        (λ col out. set out (row * n + col) (
          add_f (get_or out (row * n + col) zero_f)
            (mul_f left_value (get_or right (inner * n + col) zero_f))))
        output

  pub matmul_row : ℕ → ℕ → List F → List F → ℕ → List F → List F
  matmul_row k n left right row output =
      for_range k 0
        (λ inner out. matmul_cols n (get_or left (row * k + inner) zero_f) row inner right out)
        output

  -- The three loops of `Matmul`.
  unfoldable pub matmul_loop : ℕ → ℕ → ℕ → List F → List F → List F → List F
  unfolding matmul_row matmul_cols
  matmul_loop m k n left right output =
      for_range m 0 (λ row out. matmul_row k n left right row out) output
