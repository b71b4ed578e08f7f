-- ===== src/Torch/Wrapping.antt =====
-- native/src/training/torch_backend.cc: a tensor of libtorch that is wrapped comes back as it was.
use Prim.Native.String.{String}
use tensora.Float.{Float32}
use tensora.Heap.{new_tensor}
use tensora.Shape.{ShapeInfo}
use tensora.Storage.{Storage, Copied, torch_kind, kind}
use tensora.Tensor.{Tensor, Device, float32}
use tensora.Steps.{Result, to_caller, ◌>>=◌, ◌>>◌}
use tensora.Steps.Frame.{Yields, bind-Yields, then-Yields, and_then-done}
use tensora.Torch.Library.{Torch, TorchHost, on_heap_of, guard_allocation}
use tensora.Torch.Storage.{new_torch_storage, from_tensor}
use tensora.Torch.Backend.{owned_tensor, tensor_to_torch, wrap_torch_tensor}
use tensora.Prelude.{
  Option-cases, inl, inr, ap, ℕ, ◌≡◌, refl, subst, Option, none, some, List, ℤ, get_elem?, length,
  get_elem?-snoc, ≡→==,
}

module _ {F X R : Type 0} where
  -- The storage of that number is a Torch storage.
  abbrev pub HoldsTorch : ℕ → TorchHost F X R → Type 0
  HoldsTorch number s =
      (bytes : ℕ) × (copy : Option (List F) → ℕ → Option ℕ → Copied F) × (get_elem? s.heap.storages
          number
        ≡ some (Storage.other torch_kind bytes copy))

  -- It owns the tensor too.
  abbrev Owns : X → ℕ → TorchHost F X R → Type 0
  Owns x number s = HoldsTorch number s × (owned_tensor number s.owned ≡ some x)

module _ {F X R : Type 0} (torch : Torch F X R) where
  new_torch_storage-Owns : (x : X) → Yields (new_torch_storage torch x) (Owns x)
  unfolding new_torch_storage Yields owned_tensor
  new_torch_storage-Owns x s a t e =
      subst
        (λ (r : Result ℕ × TorchHost F X R). elim r.0 [
          | Result.done n ↦ Owns x n r.1
          | _ ↦ Unit {0}
        ])
        e ((_, _, get_elem?-snoc s.heap.storages _), rw (≡→== (length s.heap.storages) _ refl) refl)

  from_tensor-Owns : (x : X) → Yields (from_tensor torch x to_caller) (Owns x)
  unfolding from_tensor
  from_tensor-Owns x = search (new_torch_storage-Owns x, bind-Yields, then-Yields) depth 20

  -- A tensor of the heap, over a Torch storage, that goes to libtorch as `x`.
  abbrev pub GoesTo : ⦃fl : Float32 F⦄ → X → ℕ → TorchHost F X R → Type 0
  GoesTo x a s =
      (t : Tensor) × (get_elem? s.heap.tensors a ≡ some t)
      × (tensor_to_torch torch t to_caller s ≡ (Result.done x, s))
      × HoldsTorch t.storage s

  made-GoesTo :
      ⦃fl : Float32 F⦄ (x : X) (shape : ShapeInfo) (place : Device) (index : ℤ) (number : ℕ)
      (s : TorchHost F X R)
      → Owns x number s
      → (a : ℕ) (t : TorchHost F X R)
      → on_heap_of (new_tensor shape number float32 place index 0 none) s ≡ (Result.done a, t)
      → GoesTo x a t
  unfolding new_tensor tensor_to_torch kind
  made-GoesTo x shape place index number s ((bytes, copy, stored), owned) a t e =
      subst
        (λ (r : Result ℕ × TorchHost F X R). elim r.0 [
          | Result.done n ↦ GoesTo x n r.1
          | _ ↦ Unit {0}
        ])
        e (_, get_elem?-snoc s.heap.tensors _, rw (stored, owned) refl, (bytes, copy, stored))

  -- An allocation that succeeds leaves the storages, and what they own.
  guard_allocation-Owns :
      (operation : String) (x : X) (number : ℕ) (s t : TorchHost F X R) (done : Unit {0})
      → Owns x number s
      → guard_allocation operation s ≡ (Result.done done, t)
      → Owns x number t
  unfolding guard_allocation
  guard_allocation-Owns operation x number s t done owns e =
      elim (Option-cases (s.heap.allocator s.heap.requests 0)) [
        | inl granted ↦ subst (Owns x number) (ap (λ r. r.1) (rw granted at e)) owns
        | inr (refusal, refused) ↦ cc (rw refused at e)
      ]

  kept-GoesTo :
      ⦃fl : Float32 F⦄ (x : X) (shape : ShapeInfo) (place : Device) (index : ℤ)
      → Yields
          (do
            storage ← from_tensor torch x to_caller
            guard_allocation "wrap torch tensor"
            on_heap_of (new_tensor shape storage float32 place index 0 none))
          (GoesTo x)
  unfolding Yields
  kept-GoesTo x shape place index s a t e =
      let (number, u, first, rest) = and_then-done (from_tensor torch x to_caller s) _ a t e in
      let (one, v, granted, last) =
        and_then-done (guard_allocation "wrap torch tensor" u) _ a t rest in
      made-GoesTo x shape place index number v
        (guard_allocation-Owns _ x number u v one (from_tensor-Owns x s number u first) granted) a t
        last

  pub wrap_torch_tensor-GoesTo :
      ⦃fl : Float32 F⦄ (x : X) → Yields (wrap_torch_tensor torch x to_caller) (GoesTo x)
  unfolding wrap_torch_tensor
  wrap_torch_tensor-GoesTo x = search (kept-GoesTo x, bind-Yields, then-Yields) depth 20

  -- When WrapTorchTensor makes a tensor of one of libtorch, TensorToTorch gives this one back for it,
  -- without a copy, and changes nothing.
  pub tensor_to_torch-wrap_torch_tensor :
      ⦃fl : Float32 F⦄ (x : X) (s : TorchHost F X R) (a : ℕ) (s' : TorchHost F X R)
      → wrap_torch_tensor torch x to_caller s ≡ (Result.done a, s')
      → (t : Tensor) × (get_elem? s'.heap.tensors a ≡ some t)
        × (tensor_to_torch torch t to_caller s' ≡ (Result.done x, s'))
  unfolding Yields
  tensor_to_torch-wrap_torch_tensor x s a s' e =
      let (t, made, back, holds) = wrap_torch_tensor-GoesTo x s a s' e in (t, made, back)
