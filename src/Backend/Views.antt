-- ===== src/Backend/Views.antt =====
-- native/src/backends/cpu/cpu_backend.cc: the views that Transpose2D makes.
use native.Mathlib.Nat.{
  mod-eq_of_lt, div-eq_of_lt, div-one, mul-one, mul-add-div_right, mul-add-mod_self_right,
}
use tensora.Float.{Float32}
use tensora.Shape.{ShapeInfo}
use tensora.Shape.Product.{product, sizes}
use tensora.Tensor.{Tensor, logical_storage_index}
use tensora.Tensor.Layout.{dot, logical_storage_index_lem}
use tensora.Steps.{Result, to_caller, check, return, ◌>>=◌, ◌>>◌}
use tensora.Steps.Frame.{Keeps, Yields, then-Yields, and_then-done}
use tensora.Heap.{Heap, new_tensor, op_transpose2d}
use tensora.Autograd.Graph.{record_unary}
use tensora.Autograd.Layout.{Lies, record_unary-Keeps}
use tensora.Backend.Cpu.{transposed_shape, swapped, ensure_cpu_float32, make_view, transpose2d}
use tensora.Prelude.{
  ℕ, ◌+◌, ◌*◌, ◌/◌, ◌%◌, ◌^◌, ◌<◌, ◌≡◌, ◌∙◌, ap, sym, refl, subst, Option, none, some, [], ◌∷◌, pos,
  arith, get_elem?, get_elem?-snoc, length, ◌==◌,
}

row-quotient : (cols i j : ℕ) → j < cols → (i * cols + j) / cols ≡ i
row-quotient cols i j j<c = mul-add-div_right (omega arith) i j ∙ ground (arith, div-eq_of_lt j<c)

row-remainder : (cols i j : ℕ) → j < cols → (i * cols + j) % cols ≡ j
row-remainder cols i j j<c = mul-add-mod_self_right i cols j ∙ mod-eq_of_lt j<c

-- Where the element in row `i` and column `j` of a matrix lies.
matrix-dot :
    (rows cols s₀ s₁ i j : ℕ)
    → i < rows
    → j < cols
    → dot (rows ∷ cols ∷ []) (s₀ ∷ s₁ ∷ []) (i * cols + j) ≡ i * s₀ + j * s₁
unfolding dot product
matrix-dot rows cols s₀ s₁ i j i<r j<c =
    rw
      (
        mul-one cols,
        div-one (i * cols + j),
        row-quotient cols i j j<c,
        row-remainder cols i j j<c,
        mod-eq_of_lt i<r,
      )
      (omega arith)

-- A tensor that lies as another one does, with the transposed shape.
abbrev transposed : Tensor → Tensor
transposed t = record t { shape = transposed_shape t.shape }

transposed-index :
    (t : Tensor) (rows cols s₀ s₁ i j : ℕ)
    → t.shape.dimensions ≡ pos rows ∷ pos cols ∷ []
    → t.shape.strides ≡ s₀ ∷ s₁ ∷ []
    → t.storage_offset < 2 ^ 64
    → i < rows
    → j < cols
    → logical_storage_index (transposed t) (j * rows + i) ≡ logical_storage_index t (i * cols + j)
transposed-index t rows cols s₀ s₁ i j dims strides offset i<r j<c =
    logical_storage_index_lem (transposed t) (j * rows + i) (ground (arith, strides, dims)) offset
    ∙ ap (λ k. (t.storage_offset + k) % 2 ^ 64) same
    ∙ sym (logical_storage_index_lem t (i * cols + j) (ground (arith, strides, dims)) offset)
  where
    same :
        dot (sizes (swapped t.shape.dimensions)) (swapped t.shape.strides) (j * rows + i)
        ≡ dot (sizes t.shape.dimensions) t.shape.strides (i * cols + j)
    same =
        rw
          (
            dims,
            strides,
            matrix-dot rows cols s₀ s₁ i j i<r j<c,
            matrix-dot cols rows s₁ s₀ j i j<c i<r,
          )
          (omega arith)

-- The metadata of a tensor has no part in where its elements lie.
marked-index :
    (t : Tensor) (m : Option ℕ) (k : ℕ)
    → logical_storage_index (record t { autograd_meta = m }) k ≡ logical_storage_index t k
unfolding logical_storage_index
marked-index t m k = refl

module _ (F : Type 0) where
  -- What a step has made lies in the heap.
  abbrev Made : Tensor → Result ℕ × Heap F → Type 0
  Made t (Result.done n, h) = Lies h n t
  Made t (_, h) = Unit {0}

  made :
      (t : Tensor) (x : Result ℕ × Heap F) (a : ℕ) (h : Heap F)
      → x ≡ (Result.done a, h)
      → Made t x
      → Lies h a t
  made t x a h e = subst (Made t) e

  new_view-Lies :
      (shape : ShapeInfo) (t : Tensor)
      → Yields {S = Heap F}
          (new_tensor shape t.storage t.dtype t.device t.device_index t.storage_offset
            (some t.version_counter))
          (λ a h. Lies h a (record t { shape = shape }))
  unfolding Yields new_tensor
  new_view-Lies shape t s a h e =
      made (record t { shape = shape }) _ a h e (none, get_elem?-snoc s.tensors _)

  -- What MakeView makes lies in the storage of its source, from the same offset on.
  make_view-Lies :
      (shape : ShapeInfo) (t : Tensor)
      → Yields {S = Heap F}
          (make_view shape t to_caller)
          (λ a h. Lies h a (record t { shape = shape }))
  unfolding make_view
  make_view-Lies shape t = search (new_view-Lies shape t, then-Yields) depth 20

  -- RecordUnary leaves the view where it lies.
  recorded_view-Lies :
      (t : Tensor) (tensor : ℕ)
      → Yields {S = Heap F}
          (do
            result ← make_view (transposed_shape t.shape) t to_caller
            record_unary op_transpose2d tensor result
            return result)
          (λ a h. Lies h a (transposed t))
  unfolding Yields Keeps
  recorded_view-Lies t tensor s a h e =
      let (result, u, viewed, rest) =
        and_then-done (make_view (transposed_shape t.shape) t to_caller s) _ a h e in
      let (one, v, recorded, last) =
        and_then-done (record_unary op_transpose2d tensor result u) _ a h rest in
      made (transposed t) (return result v) a h last (
        subst (λ (r : Result (Unit {0}) × Heap F). Lies r.1 result (transposed t)) recorded
          (record_unary-Keeps F op_transpose2d tensor result u result (transposed t)
            (make_view-Lies (transposed_shape t.shape) t s result u viewed)))

  transpose2d-Lies :
      ⦃fl : Float32 F⦄ (tensor : ℕ) (t : Tensor) (h h' : Heap F) (a : ℕ)
      → get_elem? h.tensors tensor ≡ some t
      → transpose2d tensor to_caller h ≡ (Result.done a, h')
      → Lies h' a (transposed t)
  unfolding transpose2d Yields
  transpose2d-Lies tensor t h h' a found e =
      then-Yields (ensure_cpu_float32 t "transpose") _ (λ n g. Lies g n (transposed t))
        (then-Yields (check (length t.shape.dimensions == 2) _) _ _ (recorded_view-Lies t tensor)) h
        a h' (rw found at e)

-- For a matrix with two strides and an offset of 64 bits: when Transpose2D succeeds, the tensor that it
-- returns shares the storage and the version counter of the matrix and has its dimensions in the other
-- order, and the element of this tensor in a column and a row of the matrix lies in the storage where the
-- element of the matrix in this row and column lies.
pub transpose2d-index :
    {F : Type 0} ⦃fl : Float32 F⦄ (tensor : ℕ) (t : Tensor) (h h' : Heap F)
    (a rows cols s₀ s₁ i j : ℕ)
    → get_elem? h.tensors tensor ≡ some t
    → t.shape.dimensions ≡ pos rows ∷ pos cols ∷ []
    → t.shape.strides ≡ s₀ ∷ s₁ ∷ []
    → t.storage_offset < 2 ^ 64
    → transpose2d tensor to_caller h ≡ (Result.done a, h')
    → i < rows
    → j < cols
    → (view : Tensor) × (get_elem? h'.tensors a ≡ some view)
      × (view.storage ≡ t.storage)
      × (view.version_counter ≡ t.version_counter)
      × (view.shape.dimensions ≡ pos cols ∷ pos rows ∷ [])
      × (logical_storage_index view (j * rows + i) ≡ logical_storage_index t (i * cols + j))
transpose2d-index tensor t h h' a rows cols s₀ s₁ i j found dims strides offset e i<r j<c =
    let (m, lies) = transpose2d-Lies _ tensor t h h' a found e in
    (
      record (transposed t) { autograd_meta = m },
      lies,
      refl,
      refl,
      ap swapped dims,
      marked-index (transposed t) m (j * rows + i)
          ∙ transposed-index t rows cols s₀ s₁ i j dims strides offset i<r j<c,
    )
