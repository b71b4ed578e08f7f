-- ===== src/Inference/Inputs.antt =====
-- native/src/inference/inference_bridge_onnx.cc: TensorToHost, against the elements of the tensor.
use tensora.Core.Status.{ok}
use tensora.Float.{Float32}
use tensora.Heap.{Heap}
use tensora.Storage.{Storage, overwrite, copy_storage, copy_cpu}
use tensora.Tensor.{Tensor, float32, is_contiguous}
use tensora.Tensor.Contiguous.{IsSound}
use tensora.Tensor.Copy.{logical_values, contiguous-logical_values}
use tensora.Steps.{Result, to_caller}
use tensora.Steps.Frame.{done-value}
use tensora.Inference.Running.{tensor_to_host}
use tensora.Prelude.{
  ℕ, zero, suc, ◌≡◌, ◌↔◌, refl, sym, ap, ◌∙◌, some, List, [], ◌∷◌, length, replicate, get_elem?,
  arith, true, ≡→==,
}

overwrite-replicate :
    {A : Type 0} (values : List A) (n : ℕ) (a : A)
    → length values ≡ n
    → overwrite values (replicate n a) ≡ values
unfolding overwrite
overwrite-replicate [] zero a e = refl
overwrite-replicate [] (suc n) a e = absurd (omega arith)
overwrite-replicate (v ∷ vs) zero a e = absurd (omega arith)
overwrite-replicate (v ∷ vs) (suc n) a e =
    ap (λ xs. v ∷ xs) (overwrite-replicate vs n a (omega arith))

-- A copy of a CPU storage into a buffer of its own length.
copy_storage-whole :
    {A : Type 0} (values : List A) (n : ℕ) (a : A)
    → length values ≡ n
    → copy_storage (Storage.cpu values) (some (replicate n a)) n (some 0)
      ≡ record { status = ok; out_values = some values; out_written = some (length values) }
unfolding copy_storage copy_cpu
copy_storage-whole values n a e = ground (arith, overwrite-replicate values n a e)

module _ {F : Type 0} ⦃fl : Float32 F⦄ where
  -- The values of the storage, in their order there.
  tensor_to_host-storage :
      (t : Tensor) (values : List F) (h : Heap F)
      → get_elem? h.storages t.storage ≡ some (Storage.cpu values)
      → t.dtype ≡ float32
      → length values ≡ t.shape.numel
      → tensor_to_host t to_caller to_caller h ≡ (Result.done (values, t.shape.dimensions), h)
  unfolding tensor_to_host
  tensor_to_host-storage t values h stored kind whole =
      rw (kind, stored, copy_storage-whole values t.shape.numel fl.zero_f whole, ≡→== _ _ whole)
        refl

  -- For a float32 tensor with a CPU storage of as many values as it has elements, TensorToHost
  -- succeeds with the tensor's elements in their logical order exactly when the storage has them in
  -- that order: it does not look at the strides.
  pub tensor_to_host_iff :
      (t : Tensor) (values : List F) (h : Heap F)
      → get_elem? h.storages t.storage ≡ some (Storage.cpu values)
      → t.dtype ≡ float32
      → length values ≡ t.shape.numel
      → (tensor_to_host t to_caller to_caller h
          ≡ (Result.done (logical_values fl.zero_f t values, t.shape.dimensions), h))
        ↔ (values ≡ logical_values fl.zero_f t values)
  tensor_to_host_iff t values h stored kind whole =
      let given = tensor_to_host-storage t values h stored kind whole in
      (
        λ e. ap (λ x. x.0) (done-value _ _ _ _ (sym given ∙ e)),
        λ e. given ∙ ap (λ xs. (Result.done (xs, t.shape.dimensions), h)) e,
      )

  -- TensorToHost gives the elements of a contiguous float32 tensor at offset 0 whose CPU storage has
  -- as many values, in their logical order, with the shape, and changes nothing.
  pub tensor_to_host-contiguous :
      (t : Tensor) (values : List F) (h : Heap F)
      → get_elem? h.storages t.storage ≡ some (Storage.cpu values)
      → t.dtype ≡ float32
      → length values ≡ t.shape.numel
      → IsSound t.shape
      → is_contiguous t ≡ true
      → t.storage_offset ≡ 0
      → tensor_to_host t to_caller to_caller h
        ≡ (Result.done (logical_values fl.zero_f t values, t.shape.dimensions), h)
  tensor_to_host-contiguous t values h stored kind whole sound in_order start =
      (tensor_to_host_iff t values h stored kind whole).1
        (sym (contiguous-logical_values fl.zero_f t values sound in_order start whole))
