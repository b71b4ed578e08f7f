-- ===== src/Torch/Modules.antt =====
-- native/src/training/training_bridge_torch.cc: the linear modules.
pub mod Parameters
use Prim.Native.String.{String}
use tensora.Core.Status.{fail_argument}
use tensora.Float.{Float32}
use tensora.Tensor.{Tensor, Device}
use tensora.Registry.Entries.{module_handle}
use tensora.Steps.{Steps, ◌>>=◌, ◌>>◌, return, fail, check, Output, to_caller, need}
use tensora.Torch.Library.{Torch, Torched, ask_torch, read_torch, guard_allocation}
use tensora.Torch.Backend.{tensor_to_torch, wrap_torch_tensor, torch_device}
use tensora.Torch.Nn.{
  TorchNn, TorchTrain, TorchObject, linear_state, on_host, call_torch, lookup_torch_module,
  torch_register, torch_release,
}
use tensora.Prelude.{
  ℕ, ◌==◌, not, ◌&&◌, Bool, Option, none, some, List, ℤ, is_nonpos, length, get_elem?,
}

-- `ValidateModuleDimensions` of training_bridge_torch.cc.
unfoldable pub torch_validate_dimensions : {S : Type 0} → ℤ → ℤ → Steps S (Unit {0})
torch_validate_dimensions in_features out_features =
    check (not (is_nonpos in_features) && not (is_nonpos out_features))
      (fail_argument "linear_create: in_features and out_features must be positive")

module _ {F D X R N O A : Type 0} (torch : Torch F X R) (nn : TorchNn D X R N O A) where
  -- `LinearCreate` of training_bridge_torch.cc.
  unfoldable pub torch_linear_create : ℤ → ℤ → Bool → Output → TorchTrain F X R N O ℕ
  unfolding torch_validate_dimensions guard_allocation
  torch_linear_create in_features out_features use_bias out = do
    need out "linear_create: output handle pointer is null"
    torch_validate_dimensions in_features out_features
    on_host (guard_allocation "linear_create")
    state ← on_host (ask_torch "linear_create" (nn.new_linear in_features out_features use_bias))
    torch_register module_handle (linear_state state)

  -- `ModuleForward` of training_bridge_torch.cc.
  unfoldable pub torch_module_forward :
      ⦃fl : Float32 F⦄ → ℕ → Tensor → Output → TorchTrain F X R N O ℕ
  unfolding lookup_torch_module tensor_to_torch wrap_torch_tensor
  torch_module_forward module_id input out = do
    need out "module_forward: output tensor pointer is null"
    state ← lookup_torch_module module_id
    value ← on_host (tensor_to_torch torch input to_caller)
    result ← on_host (ask_torch "module_forward" (nn.forward state value))
    on_host (wrap_torch_tensor torch result out)

  -- `ModuleSetTraining` of training_bridge_torch.cc.
  unfoldable pub torch_module_set_training : ℕ → Bool → TorchTrain F X R N O (Unit {0})
  unfolding lookup_torch_module
  torch_module_set_training module_id training = do
    state ← lookup_torch_module module_id
    on_host (call_torch (nn.train state training))

  -- `ModuleToDevice` of training_bridge_torch.cc.
  unfoldable pub torch_module_to_device : ℕ → Device → ℤ → TorchTrain F X R N O (Unit {0})
  unfolding lookup_torch_module torch_device
  torch_module_to_device module_id device device_index = do
    state ← lookup_torch_module module_id
    target ← on_host (torch_device torch device device_index to_caller)
    on_host (ask_torch "module_to_device" (nn.module_to state target))

  -- `ModuleParameterCount` of training_bridge_torch.cc.
  unfoldable pub torch_parameter_count : ℕ → Output → TorchTrain F X R N O ℕ
  unfolding lookup_torch_module
  torch_parameter_count module_id out = do
    need out "module_parameter_count: output pointer is null"
    state ← lookup_torch_module module_id
    parameters ← on_host (read_torch (nn.parameters state))
    return (length parameters)

  -- The tensor of libtorch at an index, wrapped: there is none where the index is not below the size.
  wrap_found : Option X → String → Output → Torched F X R ℕ
  unfolding wrap_torch_tensor
  wrap_found none message out = fail (fail_argument message)
  wrap_found (some x) message out = wrap_torch_tensor torch x out

  -- `ModuleParameterAt` of training_bridge_torch.cc.
  unfoldable pub torch_parameter_at : ℕ → ℕ → Output → TorchTrain F X R N O ℕ
  unfolding lookup_torch_module wrap_found
  torch_parameter_at module_id index out = do
    need out "module_parameter_at: output tensor pointer is null"
    state ← lookup_torch_module module_id
    parameters ← on_host (read_torch (nn.parameters state))
    on_host
        (wrap_found (get_elem? parameters index) "module_parameter_at: index is out of range" out)

  -- `ModuleBufferCount` of training_bridge_torch.cc.
  unfoldable pub torch_buffer_count : ℕ → Output → TorchTrain F X R N O ℕ
  unfolding lookup_torch_module
  torch_buffer_count module_id out = do
    need out "module_buffer_count: output pointer is null"
    state ← lookup_torch_module module_id
    buffers ← on_host (read_torch (nn.buffers state))
    return (length buffers)

  -- `ModuleBufferAt` of training_bridge_torch.cc.
  unfoldable pub torch_buffer_at : ℕ → ℕ → Output → TorchTrain F X R N O ℕ
  unfolding lookup_torch_module wrap_found
  torch_buffer_at module_id index out = do
    need out "module_buffer_at: output tensor pointer is null"
    state ← lookup_torch_module module_id
    buffers ← on_host (read_torch (nn.buffers state))
    on_host (wrap_found (get_elem? buffers index) "module_buffer_at: index is out of range" out)

  -- `ModuleSave` of training_bridge_torch.cc.
  unfoldable pub torch_module_save : ℕ → List ℕ → TorchTrain F X R N O (Unit {0})
  unfolding lookup_torch_module
  torch_module_save module_id path = do
    check (not (length path == 0)) (fail_argument "module_save: checkpoint path is empty")
    state ← lookup_torch_module module_id
    archive ← on_host (ask_torch "module_save" (nn.save state))
    on_host (ask_torch "module_save" (nn.save_to archive path))

  -- `ModuleLoad` of training_bridge_torch.cc.
  unfoldable pub torch_module_load : ℕ → List ℕ → TorchTrain F X R N O (Unit {0})
  unfolding lookup_torch_module
  torch_module_load module_id path = do
    check (not (length path == 0)) (fail_argument "module_load: checkpoint path is empty")
    state ← lookup_torch_module module_id
    archive ← on_host (ask_torch "module_load" (nn.load_from path))
    on_host (ask_torch "module_load" (nn.load state archive))

-- `ModuleRelease` of training_bridge_torch.cc.
unfoldable pub torch_module_release : {F X R N O : Type 0} → ℕ → TorchTrain F X R N O (Unit {0})
torch_module_release = torch_release module_handle
