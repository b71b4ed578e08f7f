-- ===== src/Backend/Kernels/Matmul.antt =====
-- native/src/backends/cpu/cpu_backend.cc: the cells that the three loops of Matmul compute.
use native.Mathlib.Decide.{ℕ_discrete, dec_lt}
use native.Mathlib.Nat.{mul-le-mul_right}
use tensora.Float.{Float32}
use tensora.Backend.Kernels.{matmul_cols, matmul_row, matmul_loop}
use tensora.Prelude.{
  ℕ, zero, suc, ◌+◌, ◌*◌, ◌<◌, ◌≡◌, ◌≢◌, ◌∙◌, ap, refl, sym, List, length, get_or, set, replicate,
  for_range_inv, arith, length-set, length-replicate, get_or-set_self, get_or-set_ne,
  get_or-replicate, ltb, if◌then◌else◌, lt→ltb, le→ltb, subst,
}

-- A cell's place determines its row and its column.
below-row : (n r c q d : ℕ) → c < n → r < q → r * n + c < q * n + d
below-row n r c q d h k = omega (arith, mul-le-mul_right {m = suc r} {n = q} n k)

pub place-row : (n r c q d : ℕ) → c < n → d < n → r * n + c ≡ q * n + d → r ≡ q
place-row n r c q d h k e = elim (dec_lt r q) [
  | yes l ↦ absurd (omega (arith, below-row n r c q d h l))
  | no l ↦ elim (dec_lt q r) [
    | yes m ↦ absurd (omega (arith, below-row n q d r c k m))
    | no m ↦ omega arith
  ]
]

pub place-col : (n r c q d : ℕ) → c < n → d < n → r * n + c ≡ q * n + d → c ≡ d
place-col n r c q d h k e = omega (arith, ap (λ (t : ℕ). t * n) (place-row n r c q d h k e))

pub place-lt : (m n r c : ℕ) → r < m → c < n → r * n + c < m * n
place-lt m n r c h k = omega (arith, below-row n r c m 0 k h)

module _ {F : Type 0} ⦃fl : Float32 F⦄ (n : ℕ) (right : List F) where
  open fl use {zero_f, add_f, mul_f}

  cell : List F → ℕ → ℕ → F
  cell out r c = get_or out (r * n + c) zero_f

  -- One pass of the innermost loop over row `row`.
  Cols : ℕ → F → ℕ → ℕ → List F → ℕ → List F → Type 0
  Cols m left_value row inner before done out =
      (length out ≡ m * n)
      × ((c : ℕ)
          → c < n
          → cell out row c ≡ (
              if ltb c done
              then add_f (cell before row c)
                  (mul_f left_value (get_or right (inner * n + c) zero_f))
              else cell before row c))
      × ((r c : ℕ) → c < n → r ≢ row → cell out r c ≡ cell before r c)

  set-Cols :
      (m : ℕ) (left_value : F) (row inner : ℕ) (before : List F) (j : ℕ) (out : List F)
      → row < m
      → j < n
      → Cols m left_value row inner before j out
      → Cols m left_value row inner before (suc j) (
          set out (row * n + j) (
            add_f
              (get_or out (row * n + j) zero_f)
              (mul_f left_value (get_or right (inner * n + j) zero_f))))
  unfolding Cols cell
  set-Cols m left_value row inner before j out hr hj (l, same, others) = (
    length-set out (row * n + j) _ ∙ l,
    λ c hc. elim (ℕ_discrete c j) [
      | yes e ↦ rw e (
          ground (
            arith,
            get_or-set_self out (row * n + j)
                (add_f (get_or out (row * n + j) zero_f)
                  (mul_f left_value (get_or right (inner * n + j) zero_f)))
                zero_f (rw l (place-lt m n row j hr hj)),
            same j hj,
          ))
      | no ne ↦
          get_or-set_ne out (row * n + j) (row * n + c) _ zero_f (λ e. ne (omega arith))
          ∙ ground (arith, same c hc)
    ],
    λ r c hc ne.
        get_or-set_ne out (row * n + j) (r * n + c) _ zero_f
          (λ e. ne (sym (place-row n row j r c hj hc e)))
        ∙ others r c hc ne,
  )

  matmul_cols-Cols :
      (m : ℕ) (left_value : F) (row inner : ℕ) (before : List F)
      → row < m
      → length before ≡ m * n
      → Cols m left_value row inner before n (matmul_cols n left_value row inner right before)
  unfolding Cols matmul_cols
  matmul_cols-Cols m left_value row inner before h l =
      subst
        (λ k.
          Cols m left_value row inner before k (matmul_cols n left_value row inner right before))
        (omega arith)
        (for_range_inv (Cols m left_value row inner before)
          (λ col out. set out (row * n + col) (
            add_f (get_or out (row * n + col) zero_f)
              (mul_f left_value (get_or right (inner * n + col) zero_f))))
          n 0 before (λ j out a b p. set-Cols m left_value row inner before j out h (omega arith) p)
          (l, λ c hc. ground arith, λ r c hc ne. refl))

  -- What a cell of the result is meant to be: the products over the inner dimension, added from
  -- zero in its order.
  unfoldable pub dot_product : ℕ → List F → ℕ → ℕ → ℕ → F
  dot_product k left row col zero = zero_f
  dot_product k left row col (suc inner) =
      add_f (dot_product k left row col inner)
        (mul_f (get_or left (row * k + inner) zero_f) (get_or right (inner * n + col) zero_f))

  Row : ℕ → ℕ → List F → ℕ → List F → ℕ → List F → Type 0
  Row m k left row before done out =
      (length out ≡ m * n)
      × ((c : ℕ) → c < n → cell out row c ≡ dot_product k left row c done)
      × ((r c : ℕ) → c < n → r ≢ row → cell out r c ≡ cell before r c)

  cols-Row :
      (m k : ℕ) (left : List F) (row : ℕ) (before : List F) (inner : ℕ) (out : List F)
      → row < m
      → Row m k left row before inner out
      → Row m k left row before
          (suc inner)
          (matmul_cols n (get_or left (row * k + inner) zero_f) row inner right out)
  unfolding Row dot_product Cols
  cols-Row m k left row before inner out h (l, same, others) =
      let (l', same', others') =
        matmul_cols-Cols m (get_or left (row * k + inner) zero_f) row inner out h l in
      (
        l',
        λ c hc.
            same' c hc
            ∙ rw (lt→ltb c n hc) (
                ap
                  (λ v. add_f v (
                    mul_f (get_or left (row * k + inner) zero_f)
                      (get_or right (inner * n + c) zero_f)))
                  (same c hc)),
        λ r c hc ne. others' r c hc ne ∙ others r c hc ne,
      )

  matmul_row-Row :
      (m k : ℕ) (left : List F) (row : ℕ) (before : List F)
      → row < m
      → length before ≡ m * n
      → ((c : ℕ) → c < n → cell before row c ≡ zero_f)
      → Row m k left row before k (matmul_row k n left right row before)
  unfolding Row matmul_row dot_product
  matmul_row-Row m k left row before h l z =
      subst (λ j. Row m k left row before j (matmul_row k n left right row before)) (omega arith)
        (for_range_inv (Row m k left row before)
          (λ inner out. matmul_cols n (get_or left (row * k + inner) zero_f) row inner right out) k
          0 before (λ j out a b p. cols-Row m k left row before j out h p)
          (l, z, λ r c hc ne. refl))

  Rows : ℕ → ℕ → List F → ℕ → List F → Type 0
  Rows m k left done out =
      (length out ≡ m * n)
      × ((r c : ℕ)
          → c < n
          → cell out r c ≡ (if ltb r done then dot_product k left r c k else zero_f))

  row-Rows :
      (m k : ℕ) (left : List F) (row : ℕ) (out : List F)
      → row < m
      → Rows m k left row out
      → Rows m k left (suc row) (matmul_row k n left right row out)
  unfolding Rows Row
  row-Rows m k left row out h (l, cells) =
      let (l', same, others) =
        matmul_row-Row m k left row out h l
          (λ c hc. cells row c hc ∙ rw (le→ltb row row (omega arith))) in
      (
        l',
        λ r c hc. elim (ℕ_discrete r row) [
          | yes e ↦ rw (e, lt→ltb row (suc row) (omega arith)) (same c hc)
          | no ne ↦ others r c hc ne ∙ ground (arith, cells r c hc)
        ],
      )

  matmul_loop-Rows :
      (m k : ℕ) (left : List F)
      → Rows m k left (0 + m) (matmul_loop m k n left right (replicate (m * n) zero_f))
  unfolding matmul_loop Rows cell
  matmul_loop-Rows m k left =
      for_range_inv (Rows m k left) (λ row out. matmul_row k n left right row out) m 0
        (replicate (m * n) zero_f) (λ j out a b p. row-Rows m k left j out (omega arith) p)
        (
          length-replicate (m * n) zero_f,
          λ r c hc. get_or-replicate (m * n) (r * n + c) zero_f ∙ rw (le→ltb r 0 (omega arith)),
        )

  -- After the three loops of Matmul over a result filled with zeros, each cell of the result holds the dot
  -- product of its row of the left matrix and its column of the right one, summed from zero in the order
  -- of the inner dimension.
  pub matmul_loop-cell :
      (m k : ℕ) (left : List F) (row col : ℕ)
      → row < m
      → col < n
      → get_or (matmul_loop m k n left right (replicate (m * n) zero_f)) (row * n + col) zero_f
        ≡ dot_product k left row col k
  unfolding Rows cell
  matmul_loop-cell m k left row col hr hc =
      (matmul_loop-Rows m k left).1 row col hc ∙ rw (lt→ltb row (0 + m) (omega arith))
