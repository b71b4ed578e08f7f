-- ===== src/Torch/Modules/Parameters.antt =====
-- native/src/training/training_bridge_torch.cc: the parameters of a module.
use Prim.Native.String.{String}
use tensora.Core.Status.{ok}
use tensora.Float.{Float32}
use tensora.Tensor.{Tensor}
use tensora.Registry.Entries.{module_handle}
use tensora.Registry.{lookup}
use tensora.Steps.{Result, to_caller}
use tensora.Torch.Library.{Torch, TorchHost}
use tensora.Torch.Backend.{tensor_to_torch, wrap_torch_tensor}
use tensora.Torch.Wrapping.{tensor_to_torch-wrap_torch_tensor}
use tensora.Torch.Nn.{TorchNn, TorchProcess, linear_state, lookup_torch_module}
use tensora.Torch.Modules.{wrap_found, torch_parameter_count, torch_parameter_at}
use tensora.Prelude.{ℕ, ◌<◌, ◌≡◌, refl, ap, Option, none, some, get_elem?, length, get_elem?-lt}

module _ {F D X R N O A : Type 0} (torch : Torch F X R) (nn : TorchNn D X R N O A) where
  found_module :
      (h : ℕ) (m : N) (p : TorchProcess F X R N O)
      → lookup h module_handle p.registry ≡ (ok, some (linear_state m))
      → lookup_torch_module h p ≡ (Result.done m, p)
  unfolding lookup_torch_module
  found_module h m p found = rw found refl

  wrap_found-done :
      (found : Option X) (message : String) (a : ℕ) (s s' : TorchHost F X R)
      → wrap_found torch nn found message to_caller s ≡ (Result.done a, s')
      → (x : X) × (found ≡ some x) × (wrap_torch_tensor torch x to_caller s ≡ (Result.done a, s'))
  unfolding wrap_found
  wrap_found-done none message a s s' e = cc
  wrap_found-done (some x) message a s s' e = (x, refl, e)

  parameter_at-done :
      (h i a : ℕ) (m : N) (p p' : TorchProcess F X R N O)
      → lookup h module_handle p.registry ≡ (ok, some (linear_state m))
      → torch_parameter_at torch nn h i to_caller p ≡ (Result.done a, p')
      → wrap_found torch nn
          (get_elem? (nn.parameters m p.host.runtime) i)
          "module_parameter_at: index is out of range"
          to_caller
          p.host
        ≡ (Result.done a, p'.host)
  unfolding torch_parameter_at
  parameter_at-done h i a m p p' found e =
      ap (λ (r : Result ℕ × TorchProcess F X R N O). (r.0, r.1.host))
        (rw (found_module h m p found) at e)

  -- When ModuleParameterAt of a module succeeds, the index is below ModuleParameterCount, and the tensor
  -- goes to libtorch as the module's own parameter at the index, not as a copy of it.
  pub torch_parameter_at-parameters :
      ⦃fl : Float32 F⦄ (h i a : ℕ) (m : N) (p p' : TorchProcess F X R N O)
      → lookup h module_handle p.registry ≡ (ok, some (linear_state m))
      → torch_parameter_at torch nn h i to_caller p ≡ (Result.done a, p')
      → (n : ℕ) × (x : X) × (t : Tensor) × (torch_parameter_count torch nn h to_caller p
          ≡ (Result.done n, p))
        × (i < n)
        × (get_elem? (nn.parameters m p.host.runtime) i ≡ some x)
        × (get_elem? p'.host.heap.tensors a ≡ some t)
        × (tensor_to_torch torch t to_caller p'.host ≡ (Result.done x, p'.host))
  unfolding torch_parameter_count
  torch_parameter_at-parameters h i a m p p' found e =
      let (x, at_index, wrapped) =
        wrap_found-done _ _ a p.host p'.host (parameter_at-done h i a m p p' found e) in
      let (t, made, back) = tensor_to_torch-wrap_torch_tensor torch x p.host a p'.host wrapped in
      (
        length (nn.parameters m p.host.runtime),
        x,
        t,
        rw (found_module h m p found) refl,
        get_elem?-lt _ i x at_index,
        at_index,
        made,
        back,
      )
