-- ===== src/Tests/Kernels.antt =====
-- Runs of the arithmetic loops, over counting numbers in place of floats.
use tensora.Float.{Float32}
use tensora.Backend.Kernels.{matmul_loop}
use tensora.Backend.Kernels.Matmul.{dot_product, matmul_loop-cell}
use tensora.Autograd.Gradients.{matmul_left_gradient, matmul_right_gradient}
use tensora.Autograd.Matmul.{float_dot, matmul_left_gradient-cell, matmul_right_gradient-cell}
use tensora.Prelude.{List, ℕ, ◌+◌, ◌-◌, ltb, leb, ◌*◌, ◌≡◌, [], ◌∷◌, get_or, arith, replicate}

instance abbrev pub counting : Float32 ℕ
counting = record {
  zero_f = 0;
  one_f = 1;
  two_f = 2;
  half_f = 0;
  inv_sqrt2 = 0;
  inv_sqrt2_pi = 0;
  add_f = λ a b. a + b;
  sub_f = λ a b. a - b;
  mul_f = λ a b. a * b;
  div_f = λ a b. a;
  neg_f = λ a. a;
  exp_f = λ a. a;
  log_f = λ a. a;
  tanh_f = λ a. a;
  erf_f = λ a. a;
  sqrt_f = λ a. a;
  lt_f = ltb;
  le_f = leb;
  of_size = λ a. a;
}

matmul_loop-cell_example :
    ◌≡◌ {A = ℕ}
      (get_or
        (matmul_loop 2 2 2 (1 ∷ 2 ∷ 3 ∷ 4 ∷ []) (5 ∷ 6 ∷ 7 ∷ 8 ∷ []) (replicate (2 * 2) 0))
        (1 * 2 + 0)
        0)
      (dot_product 2 (5 ∷ 6 ∷ 7 ∷ 8 ∷ []) 2 (1 ∷ 2 ∷ 3 ∷ 4 ∷ []) 1 0 2)
matmul_loop-cell_example =
    matmul_loop-cell 2 (5 ∷ 6 ∷ 7 ∷ 8 ∷ []) 2 2 (1 ∷ 2 ∷ 3 ∷ 4 ∷ []) 1 0 (omega arith) (omega arith)

abbrev operand : List ℕ
operand = 1 ∷ 2 ∷ 3 ∷ 4 ∷ []

abbrev upstream : List ℕ
upstream = 5 ∷ 6 ∷ 7 ∷ 8 ∷ []

matmul_left_gradient-cell_example :
    get_or (matmul_left_gradient 2 2 2 upstream operand) (1 * 2 + 0) 0
    ≡ float_dot 2 (λ j. get_or upstream (1 * 2 + j) 0) (λ j. get_or operand (0 * 2 + j) 0)
matmul_left_gradient-cell_example =
    matmul_left_gradient-cell 2 2 2 operand upstream 1 0 (omega arith) (omega arith)

matmul_right_gradient-cell_example :
    get_or (matmul_right_gradient 2 2 2 operand upstream) (1 * 2 + 0) 0
    ≡ float_dot 2 (λ i. get_or operand (i * 2 + 1) 0) (λ i. get_or upstream (i * 2 + 0) 0)
matmul_right_gradient-cell_example =
    matmul_right_gradient-cell 2 2 2 operand upstream 1 0 (omega arith) (omega arith)
