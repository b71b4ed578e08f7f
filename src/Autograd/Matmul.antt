-- ===== src/Autograd/Matmul.antt =====
-- native/src/autograd/autograd.h: the cells of the gradients of a matrix product.
use native.Mathlib.Decide.{ℕ_discrete}
use tensora.Float.{Float32}
use tensora.Autograd.Gradients.{matmul_left_gradient, matmul_right_gradient}
use tensora.Backend.Kernels.Matmul.{place-row, place-col, place-lt}
use tensora.Prelude.{
  ℕ, suc, ◌+◌, ◌*◌, ◌<◌, ◌≡◌, ◌∙◌, sym, List, length, get_or, set, replicate, for_range,
  for_range_inv, arith, length-set, length-replicate, get_or-set_self, get_or-set_ne, subst,
}

module _ {F : Type 0} (zero_value : F) (rows cols : ℕ) (f : ℕ → ℕ → F) where
  -- The cells of the rows before `row`, and those of `row` before `col`, are set.
  IsFilled : ℕ → ℕ → List F → Type 0
  IsFilled row col out =
      (length out ≡ rows * cols)
      × ((r c : ℕ) → c < cols → r < row → get_or out (r * cols + c) zero_value ≡ f r c)
      × ((c : ℕ) → c < cols → c < col → get_or out (row * cols + c) zero_value ≡ f row c)

  set-IsFilled :
      (row col : ℕ) (out : List F)
      → row < rows
      → col < cols
      → IsFilled row col out
      → IsFilled row (suc col) (set out (row * cols + col) (f row col))
  unfolding IsFilled
  set-IsFilled row col out r<m c<n filled = (
    length-set out (row * cols + col) (f row col) ∙ filled.0,
    (λ r c c<n' r<row.
        get_or-set_ne out (row * cols + col) (r * cols + c) (f row col) zero_value
          (λ e. ground (arith, r<row, place-row cols row col r c c<n c<n' e))
        ∙ filled.1 r c c<n' r<row),
    (λ c c<n' c<s. elim (ℕ_discrete c col) [
      | yes e ↦
          subst
            (λ k.
              get_or (set out (row * cols + col) (f row col)) (row * cols + k) zero_value ≡ f row k)
            (sym e)
            (get_or-set_self out (row * cols + col) (f row col) zero_value (
              subst (λ k. row * cols + col < k) (sym filled.0)
                (place-lt rows cols row col r<m c<n)))
      | no ne ↦
          get_or-set_ne out (row * cols + col) (row * cols + c) (f row col) zero_value
            (λ e. ne (sym (place-col cols row col row c c<n c<n' e)))
          ∙ filled.2 c c<n' (ground (arith, c<s, ne))
    ]),
  )

  row-IsFilled :
      (row : ℕ) (out : List F)
      → row < rows
      → IsFilled row 0 out
      → IsFilled (suc row) 0 (for_range cols 0 (λ col o. set o (row * cols + col) (f row col)) out)
  unfolding IsFilled
  row-IsFilled row out r<m filled =
      let done =
        for_range_inv (IsFilled row) (λ col o. set o (row * cols + col) (f row col)) cols 0 out
          (λ j t _ j<n. set-IsFilled row j t r<m (omega arith)) filled in
      (
        done.0,
        (λ r c c<n r<s. elim (ℕ_discrete r row) [
          | yes e ↦
              subst
                (λ k.
                  get_or (for_range cols 0 (λ col o. set o (row * cols + col) (f row col)) out)
                    (k * cols + c) zero_value
                  ≡ f k c)
                (sym e) (done.2 c c<n (omega arith))
          | no ne ↦ done.1 r c c<n (ground (arith, r<s, ne))
        ]),
        (λ c c<n none. ground (arith, none)),
      )

  -- Two nested loops that set each cell of a matrix leave the value of each.
  grid-cell :
      (out : List F)
      → length out ≡ rows * cols
      → (r c : ℕ) → r < rows
      → c < cols
      → get_or
          (for_range rows 0
            (λ row. for_range cols 0 (λ col o. set o (row * cols + col) (f row col)))
            out)
          (r * cols + c)
          zero_value
        ≡ f r c
  unfolding IsFilled
  grid-cell out sized r c r<m c<n =
      (for_range_inv (λ row o. IsFilled row 0 o)
          (λ row. for_range cols 0 (λ col o. set o (row * cols + col) (f row col))) rows 0 out
          (λ j t _ j<m. row-IsFilled j t (omega arith))
          (sized, (λ r c _ none. ground (arith, none)), (λ c _ none. ground (arith, none)))).1
        r c c<n (omega arith)

module _ {F : Type 0} ⦃fl : Float32 F⦄ where
  open fl use {zero_f, add_f, mul_f}

  -- The specification: the products over `i < n` of two sequences, added to zero in order.
  abbrev pub float_dot : ℕ → (ℕ → F) → (ℕ → F) → F
  float_dot n a b = for_range n 0 (λ i total. add_f total (mul_f (a i) (b i))) zero_f

  -- For a left matrix of m rows and k columns and a right one of n columns, each cell of the gradient
  -- of the left matrix is the dot product of the upstream gradient's row and the right matrix's row.
  pub matmul_left_gradient-cell :
      (m k n : ℕ) (right grad : List F) (i p : ℕ)
      → i < m
      → p < k
      → get_or (matmul_left_gradient m k n grad right) (i * k + p) zero_f
        ≡ float_dot n (λ j. get_or grad (i * n + j) zero_f) (λ j. get_or right (p * n + j) zero_f)
  unfolding matmul_left_gradient
  matmul_left_gradient-cell m k n right grad i p i<m p<k =
      grid-cell zero_f m k _ (replicate (m * k) zero_f) (length-replicate (m * k) zero_f) i p i<m
        p<k

  -- For a left matrix of m rows and k columns and a right one of n columns, each cell of the gradient
  -- of the right matrix is the dot product of the left matrix's column and the upstream gradient's
  -- column.
  pub matmul_right_gradient-cell :
      (m k n : ℕ) (left grad : List F) (p j : ℕ)
      → p < k
      → j < n
      → get_or (matmul_right_gradient m k n left grad) (p * n + j) zero_f
        ≡ float_dot m (λ i. get_or left (i * k + p) zero_f) (λ i. get_or grad (i * n + j) zero_f)
  unfolding matmul_right_gradient
  matmul_right_gradient-cell m k n left grad p j p<k j<n =
      grid-cell zero_f k n _ (replicate (k * n) zero_f) (length-replicate (k * n) zero_f) p j p<k
        j<n
