-- ===== src/Torch/Bridge/Leaves.antt =====
-- native/src/training/training_bridge_torch.cc: whether a tensor requires a gradient.
use Prim.Native.String.{String}
use tensora.Heap.{M, AllocFailure}
use tensora.Float.{Float32}
use tensora.Storage.{Storage, Copied, torch_kind}
use tensora.Tensor.{Tensor}
use tensora.Steps.{Result, to_caller, ◌>>◌}
use tensora.Steps.Frame.{
  bind-Yields, then-Yields, Frame, Keeps, keeping, Yields, and_then-done, from_status-Keeps,
}
use tensora.Torch.Library.{
  Torch, TorchCall, computed, TorchHost, ask_torch, read_torch, on_heap_of, guard_allocation,
  guard_answer, guard_torch, torch_error,
}
use tensora.Torch.Backend.{tensor_to_torch, wrap_torch_tensor}
use tensora.Torch.Storage.{from_tensor, new_torch_storage}
use tensora.Torch.Wrapping.{GoesTo, wrap_torch_tensor-GoesTo}
use tensora.Torch.Nn.{TorchNn}
use tensora.Torch.Bridge.{is_on_torch, torch_with_requires_grad, torch_requires_grad}
use tensora.Prelude.{
  ℕ, ◌≡◌, refl, sym, ap, ◌∙◌, Bool, Option, none, some, List, get_elem?, if◌then◌else◌,
}

module _ {F D X R N O A : Type 0} (torch : Torch F X R) (nn : TorchNn D X R N O A) where
  -- The flag of the tensor.
  flag_frame : X → Frame (TorchHost F X R)
  flag_frame x = record {
    Same = λ s t. nn.requires_grad x t.runtime ≡ nn.requires_grad x s.runtime;
    nothing = λ s. refl;
    further = λ s t u e f. f ∙ e;
  }

  on_heap_of-Keeps : {B : Type 0} (y : X) (m : M F B) → Keeps (flag_frame y) (on_heap_of m)
  unfolding Keeps flag_frame
  on_heap_of-Keeps y m s = refl

  read_torch-Keeps : {B : Type 0} (y : X) (f : R → B) → Keeps (flag_frame y) (read_torch f)
  unfolding Keeps flag_frame
  read_torch-Keeps y f s = refl

  guard_answer-Keeps :
      (y : X) (operation : String) (answer : Option AllocFailure)
      → Keeps (flag_frame y) (guard_answer operation answer)
  unfolding Keeps flag_frame
  guard_answer-Keeps y operation none s = refl
  guard_answer-Keeps y operation (some refusal) s = refl

  guard_allocation-Keeps :
      (y : X) (operation : String) → Keeps (flag_frame y) (guard_allocation operation)
  unfolding Keeps guard_allocation flag_frame
  guard_allocation-Keeps y operation s =
      guard_answer-Keeps y operation (s.heap.allocator s.heap.requests 0) _

  ruleset touching =
      (keeping, on_heap_of-Keeps, read_torch-Keeps, guard_allocation-Keeps, from_status-Keeps)

  new_torch_storage-Keeps : (y x : X) → Keeps (flag_frame y) (new_torch_storage torch x)
  unfolding new_torch_storage Keeps flag_frame
  new_torch_storage-Keeps y x s = refl

  from_tensor-Keeps : (y x : X) → Keeps (flag_frame y) (from_tensor torch x to_caller)
  unfolding from_tensor
  from_tensor-Keeps y x = search (touching, new_torch_storage-Keeps y x) depth 20

  module _
      (discovers : (x : X) (r : R)
        → nn.requires_grad x (torch.get_accelerator r).1 ≡ nn.requires_grad x r) where
    discovery-Keeps :
        (y : X) (operation : String)
        → Keeps (flag_frame y) (ask_torch operation torch.get_accelerator)
    unfolding Keeps flag_frame
    discovery-Keeps y operation s = discovers y s.runtime

    wrap_torch_tensor-Keeps : (y x : X) → Keeps (flag_frame y) (wrap_torch_tensor torch x to_caller)
    unfolding wrap_torch_tensor
    wrap_torch_tensor-Keeps y x =
        search (touching, from_tensor-Keeps y x, discovery-Keeps y) depth 20

  answer-computed :
      (operation : String) (c : TorchCall (Unit {0}) × R) (s t : TorchHost F X R) (u : Unit {0})
      → ◌≡◌ {A = Result (Unit {0}) × TorchHost F X R}
          (guard_torch operation c.0, record s { runtime = c.1 })
          (Result.done u, t)
      → c ≡ (computed tt, t.runtime)
  answer-computed operation (computed u', r) s t u e =
      ap (λ (x : Result (Unit {0}) × TorchHost F X R). (computed tt, x.1.runtime)) e
  answer-computed operation (torch_error what, r) s t u e = cc

  -- A tensor of the heap, over a Torch storage, whose tensor of libtorch has the flag.
  abbrev Flagged : ⦃fl : Float32 F⦄ → Bool → ℕ → TorchHost F X R → Type 0
  Flagged b a s = (y : X) × GoesTo torch y a s × (nn.requires_grad y s.runtime ≡ b)

  reads_flag :
      ⦃fl : Float32 F⦄ (b : Bool) (s : TorchHost F X R) (y : X) (t : Tensor) (bytes : ℕ)
      (copy : Option (List F) → ℕ → Option ℕ → Copied F)
      → get_elem? s.heap.storages t.storage ≡ some (Storage.other torch_kind bytes copy)
      → tensor_to_torch torch t to_caller s ≡ (Result.done y, s)
      → nn.requires_grad y s.runtime ≡ b
      → torch_requires_grad torch nn t to_caller s ≡ (Result.done (if b then 1 else 0), s)
  unfolding torch_requires_grad is_on_torch
  reads_flag b s y t bytes copy stored back flag = rw stored (rw back (rw flag refl))

  Flagged-torch_requires_grad :
      ⦃fl : Float32 F⦄ (b : Bool) (a : ℕ) (s : TorchHost F X R)
      → Flagged b a s
      → (t : Tensor) × (get_elem? s.heap.tensors a ≡ some t)
        × (torch_requires_grad torch nn t to_caller s ≡ (Result.done (if b then 1 else 0), s))
  Flagged-torch_requires_grad b a s (y, (t, made, back, (bytes, copy, stored)), flag) =
      (t, made, reads_flag b s y t bytes copy stored back flag)

  module _
      (discovers : (x : X) (r : R)
        → nn.requires_grad x (torch.get_accelerator r).1 ≡ nn.requires_grad x r)
      (sets : (x : X) (b : Bool) (r r' : R)
        → nn.set_requires_grad x b r ≡ (computed tt, r')
        → nn.requires_grad x r' ≡ b) where
    set_then_wrap-Flagged :
        ⦃fl : Float32 F⦄ (b : Bool) (y : X)
        → Yields
            (ask_torch "tensor_with_requires_grad" (nn.set_requires_grad y b)
              >> wrap_torch_tensor torch y to_caller)
            (Flagged b)
    unfolding Yields Keeps flag_frame
    set_then_wrap-Flagged b y s a t e =
        let (u, v, set, wrapped) =
          and_then-done (ask_torch "tensor_with_requires_grad" (nn.set_requires_grad y b) s) _ a t
            e in
        let flag =
          sets y b s.runtime v.runtime (answer-computed "tensor_with_requires_grad" _ s v u set) in
        let kept = wrap_torch_tensor-Keeps discovers y y v in
        (
          y,
          wrap_torch_tensor-GoesTo torch y v a t wrapped,
          ap (λ (r : Result ℕ × TorchHost F X R). nn.requires_grad y r.1.runtime) (sym wrapped)
              ∙ kept
              ∙ flag,
        )

    -- Where set_requires_grad of libtorch sets the flag, and the discovery of an accelerator leaves it:
    -- when WithRequiresGrad succeeds, RequiresGrad of its result is what was asked for, and reading it
    -- changes nothing.
    pub torch_requires_grad-torch_with_requires_grad :
        ⦃fl : Float32 F⦄ (t : Tensor) (b : Bool) (a : ℕ) (s s' : TorchHost F X R)
        → torch_with_requires_grad torch nn t b to_caller s ≡ (Result.done a, s')
        → (u : Tensor) × (get_elem? s'.heap.tensors a ≡ some u)
          × (torch_requires_grad torch nn u to_caller s' ≡ (Result.done (if b then 1 else 0), s'))
    unfolding torch_with_requires_grad Yields
    torch_requires_grad-torch_with_requires_grad t b a s s' e =
        Flagged-torch_requires_grad b a s' (made t s a s' e)
      where
        made : (t : Tensor) → Yields (torch_with_requires_grad torch nn t b to_caller) (Flagged b)
        made t = search (set_then_wrap-Flagged b, bind-Yields, then-Yields) depth 20
