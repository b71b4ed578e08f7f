-- ===== src/Tensor/Copy.antt =====
-- native/src/tensor/tensor.cc: the two ways of `Tensor::CopyToHostF32`.
use mathlib.Core.List.{append_assoc}
use tensora.Core.Status.{ok}
use tensora.Storage.{Storage, overwrite, copy_storage, as_cpu, byte_size}
use tensora.Tensor.{
  Tensor, float32, cpu, logical_storage_index, is_contiguous, copy_loop, copy_to_host,
}
use tensora.Tensor.Contiguous.{IsSound, contiguous-in_order}
use tensora.Prelude.{
  ℕ, zero, suc, ◌+◌, ◌*◌, ◌%◌, ◌^◌, ◌<◌, ◌≤◌, ◌≡◌, ◌∙◌, ap, refl, Bool, some, List, [], ◌∷◌, ◌++◌,
  pos, arith, length, get_or, get_elem?, set, drop, drop-get_or, take, take-append-drop, entries-eq,
  entries, length-set, true, false, ◌&&◌,
}

and_false : (b : Bool) → (b && false) ≡ false
and_false true = refl
and_false false = refl

module _ {A : Type 0} (d : A) where
  -- The specification: the elements of a view in logical order.
  unfoldable pub logical_values : Tensor → List A → List A
  logical_values t values =
      entries (λ i. get_or values (logical_storage_index t i) d) 0 t.shape.numel

  -- Every element of the view lies in the storage.
  abbrev pub IsWithin : Tensor → List A → Type 0
  IsWithin t values = (i : ℕ) → i < t.shape.numel → logical_storage_index t i < length values

  get_elem?-of_lt : (xs : List A) (i : ℕ) → i < length xs → get_elem? xs i ≡ some (get_or xs i d)
  get_elem?-of_lt [] i h = absurd (omega arith)
  get_elem?-of_lt (x ∷ xs) zero h = refl
  get_elem?-of_lt (x ∷ xs) (suc i) h = get_elem?-of_lt xs i (omega arith)

  -- The buffer after the first `i` elements are written over it, and `n` more.
  abbrev wrote : Tensor → List A → ℕ → ℕ → List A → List A
  wrote t values i n buffer =
      take i buffer
      ++ overwrite (entries (λ k. get_or values (logical_storage_index t k) d) i n) (drop i buffer)

  take-set : (xs : List A) (i : ℕ) (v : A) → take i (set xs i v) ≡ take i xs
  take-set [] zero v = refl
  take-set [] (suc i) v = refl
  take-set (x ∷ xs) zero v = refl
  take-set (x ∷ xs) (suc i) v = ap (◌∷◌ x) (take-set xs i v)

  take-set_next :
      (xs : List A) (i : ℕ) (v : A)
      → i < length xs
      → take (suc i) (set xs i v) ≡ take i xs ++ v ∷ []
  take-set_next [] i v h = absurd (omega arith)
  take-set_next (x ∷ xs) zero v h = refl
  take-set_next (x ∷ xs) (suc i) v h = ap (◌∷◌ x) (take-set_next xs i v (omega arith))

  drop-set_next : (xs : List A) (i : ℕ) (v : A) → drop (suc i) (set xs i v) ≡ drop (suc i) xs
  drop-set_next [] i v = refl
  drop-set_next (x ∷ xs) zero v = refl
  drop-set_next (x ∷ xs) (suc i) v = drop-set_next xs i v

  wrote-suc :
      (t : Tensor) (values : List A) (i n : ℕ) (buffer : List A)
      → i < length buffer
      → wrote t values (suc i) n (set buffer i (get_or values (logical_storage_index t i) d))
        ≡ wrote t values i (suc n) buffer
  unfolding overwrite
  wrote-suc t values i n buffer h = rw (
    take-set_next buffer i (get_or values (logical_storage_index t i) d) h,
    drop-set_next buffer i (get_or values (logical_storage_index t i) d),
    append_assoc,
    drop-get_or buffer i d h,
    overwrite,
  )

  copy_loop-wrote :
      (t : Tensor) (values : List A) (n i : ℕ) (buffer : List A)
      → ((k : ℕ) → k < i + n → logical_storage_index t k < length values)
      → i + n ≤ length buffer
      → copy_loop t values n i buffer ≡ record {
        status = ok;
        out_values = some (wrote t values i n buffer);
        out_written = some t.shape.numel;
      }
  unfolding copy_loop overwrite
  copy_loop-wrote t values zero i buffer w h = rw (take-append-drop i buffer)
  copy_loop-wrote t values (suc n) i buffer w h =
      rw (get_elem?-of_lt values (logical_storage_index t i) (w i (omega arith)), copy_loop)
        (copy_loop-wrote t values n (suc i)
            (set buffer i (get_or values (logical_storage_index t i) d)) (λ k b. w k (omega arith))
            (omega (arith, length-set buffer i (get_or values (logical_storage_index t i) d)))
          ∙ ap (λ b. record { status = ok; out_values = some b; out_written = some t.shape.numel })
              (wrote-suc t values i n buffer (omega arith)))

  -- A contiguous tensor over the whole of its storage: its logical values are the stored ones.
  pub contiguous-logical_values :
      (t : Tensor) (values : List A)
      → IsSound t.shape
      → is_contiguous t ≡ true
      → t.storage_offset ≡ 0
      → length values ≡ t.shape.numel
      → logical_values t values ≡ values
  unfolding logical_values
  contiguous-logical_values t values v c o l =
      entries-eq d (λ i. get_or values (logical_storage_index t i) d) values 0 t.shape.numel l
        (λ k b.
          ap (λ j. get_or values j d)
            (contiguous-in_order t (0 + k) v c (omega arith) (omega arith) ∙ omega arith))

  walked :
      (t : Tensor) (values buffer : List A)
      → IsWithin t values
      → t.shape.numel ≤ length buffer
      → copy_loop t values t.shape.numel 0 buffer ≡ record {
        status = ok;
        out_values = some (overwrite (logical_values t values) buffer);
        out_written = some t.shape.numel;
      }
  unfolding logical_values
  walked t values buffer b room =
      copy_loop-wrote t values t.shape.numel 0 buffer (λ k h. b k (omega arith)) (omega arith)

  direct :
      (t : Tensor) (values : List A)
      → IsSound t.shape
      → length values * 4 < 2 ^ 64
      → is_contiguous t ≡ true
      → t.storage_offset ≡ 0
      → length values * 4 % 2 ^ 64 ≡ t.shape.byte_size
      → (logical_values t values ≡ values) × (length values ≡ t.shape.numel)
  direct t values v small c o e =
      let whole : length values ≡ t.shape.numel = omega arith in
      (contiguous-logical_values t values v c o whole, whole)

  -- Reading a CPU tensor whose view lies within its storage, into a buffer with room, succeeds: the
  -- buffer starts with the elements in logical order and is unchanged behind them, and the count is
  -- the tensor's. It is the same whether the storage is copied at once or the view is walked.
  pub copy_to_host-logical :
      (t : Tensor) (values buffer : List A) (capacity w : ℕ)
      → IsSound t.shape
      → t.dtype ≡ float32
      → t.device ≡ cpu
      → t.device_index ≡ pos 0
      → IsWithin t values
      → length values * 4 < 2 ^ 64
      → t.shape.numel ≤ capacity
      → capacity ≤ length buffer
      → copy_to_host t (Storage.cpu values) (some buffer) capacity (some w) ≡ record {
        status = ok;
        out_values = some (overwrite (logical_values t values) buffer);
        out_written = some t.shape.numel;
      }
  unfolding copy_to_host copy_storage byte_size as_cpu
  copy_to_host-logical t values buffer capacity w v f dev idx b small fits room =
      ground (arith, walked t values buffer b (omega arith), direct t values v small)
