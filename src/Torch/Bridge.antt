-- ===== src/Torch/Bridge.antt =====
-- native/src/training/training_bridge_torch.cc: the functions of the training bridge on tensors.
pub mod Leaves
use Prim.Native.String.{String, ◌++◌ as joined}
use tensora.Core.Status.{Status, fail_argument, fail_shape}
use tensora.Float.{Float32}
use tensora.Shape.{same_shape}
use tensora.Storage.{StorageKind, torch_kind, cpu_kind, kind}
use tensora.Tensor.{Tensor, Device, cuda}
use tensora.Runtime.{same_device}
use tensora.Heap.{load_tensor, load_storage}
use tensora.Steps.{Steps, ◌>>=◌, ◌>>◌, return, check, Output, to_caller, need}
use tensora.Autograd.Values
use tensora.Autograd.Backward.{gradient_snapshot}
use tensora.Autograd.Backward
use tensora.Torch.Devices.{TorchDevice}
use tensora.Torch.Library.{Torch, TorchCall, Torched, ask_torch, read_torch, on_heap_of}
use tensora.Torch.Backend.{tensor_to_torch, wrap_torch_tensor, torch_device, torch_device_count}
use tensora.Torch.Nn.{TorchNn, same_torch_device}
use tensora.Prelude.{
  ℕ, ◌==◌, ◌-◌, ◌^◌, ◌&&◌, Bool, true, false, List, ℤ, pos, negsuc, eq_ℤ, ltb, length,
  if◌then◌else◌,
}

-- `static_cast<int64_t>(v)`
abbrev to_i64 : ℕ → ℤ
to_i64 n = if ltb n (2 ^ 63) then pos n else negsuc (2 ^ 64 - 1 - n)

abbrev pub is_torch : StorageKind → Bool
is_torch torch_kind = true
is_torch cpu_kind = false

-- `EnsureSameDevice` of training_bridge_torch.cc.
unfoldable pub ensure_same_device : {S : Type 0} → Tensor → Tensor → String → Steps S (Unit {0})
ensure_same_device left right operation =
    check (same_device left.device right.device && eq_ℤ left.device_index right.device_index)
      (fail_argument (joined operation ": tensors must use the same device"))

-- `IsAvailable` of training_bridge_torch.cc.
unfoldable pub torch_is_available : {S : Type 0} → Output → Steps S ℕ
torch_is_available out = do need out "training_available: output pointer is null"; return 1

module _ {F D X R N O A : Type 0} (torch : Torch F X R) (nn : TorchNn D X R N O A) where
  -- Whether the storage of a tensor is a Torch storage.
  unfoldable pub is_on_torch : Tensor → Torched F X R Bool
  unfolding kind
  is_on_torch t = do storage ← on_heap_of (load_storage t.storage); return (is_torch (kind storage))

  -- `CudaDeviceCount` of training_bridge_torch.cc.
  unfoldable pub torch_cuda_device_count : Output → Torched F X R ℕ
  unfolding torch_device_count
  torch_cuda_device_count out = do
    need out "cuda_device_count: output pointer is null"
    torch_device_count torch cuda out

  -- `ManualSeed` of training_bridge_torch.cc.
  unfoldable pub torch_manual_seed : ℕ → Torched F X R (Unit {0})
  torch_manual_seed seed = ask_torch "manual_seed" (nn.manual_seed (to_i64 seed))

  module _ ⦃fl : Float32 F⦄ where
    -- A clone where the tensor was on the device already, since `to` gives it back then.
    moved_to : X → TorchDevice → Torched F X R X
    unfolding same_torch_device
    moved_to value target = do
      moved ← ask_torch "tensor_to_device" (nn.to_device value target)
      to ← read_torch (torch.device moved)
      from ← read_torch (torch.device value)
      if same_torch_device to from
          then ask_torch "tensor_to_device" (nn.clone moved)
          else return moved

    -- `Transfer` of training_bridge_torch.cc.
    unfoldable pub torch_transfer : Tensor → Device → ℤ → Output → Torched F X R ℕ
    unfolding torch_device tensor_to_torch moved_to wrap_torch_tensor
    torch_transfer t device device_index out = do
      need out "tensor_to_device: output tensor pointer is null"
      target ← torch_device torch device device_index to_caller
      value ← tensor_to_torch torch t to_caller
      moved ← moved_to value target
      wrap_torch_tensor torch moved out

    -- `WithRequiresGrad` of training_bridge_torch.cc.
    unfoldable pub torch_with_requires_grad : Tensor → Bool → Output → Torched F X R ℕ
    unfolding tensor_to_torch wrap_torch_tensor
    torch_with_requires_grad t requires out = do
      need out "tensor_with_requires_grad: output tensor pointer is null"
      value ← tensor_to_torch torch t to_caller
      detached ← ask_torch "tensor_with_requires_grad" (nn.detach value)
      leaf ← ask_torch "tensor_with_requires_grad" (nn.clone detached)
      ask_torch "tensor_with_requires_grad" (nn.set_requires_grad leaf requires)
      wrap_torch_tensor torch leaf out

    -- `RequiresGrad` of training_bridge_torch.cc.
    unfoldable pub torch_requires_grad : Tensor → Output → Torched F X R ℕ
    unfolding is_on_torch tensor_to_torch Values.requires_grad
    torch_requires_grad t out = do
      need out "tensor_requires_grad: output pointer is null"
      on_torch ← is_on_torch t
      needs ←
          if on_torch
          then (do value ← tensor_to_torch torch t to_caller; read_torch (nn.requires_grad value))
          else on_heap_of (Values.requires_grad t)
      return (if needs then 1 else 0)

    -- `Backward` of training_bridge_torch.cc, from a tensor of libtorch.
    torch_backward_from : Tensor → Torched F X R (Unit {0})
    unfolding tensor_to_torch
    torch_backward_from t = do
      check (t.shape.numel == 1) (fail_shape "tensor_backward: loss tensor must contain one value")
      value ← tensor_to_torch torch t to_caller
      needs ← read_torch (nn.requires_grad value)
      check needs (fail_argument "tensor_backward: tensor does not require gradients")
      ask_torch "tensor_backward" (nn.backward value)

    -- `Backward` of training_bridge_torch.cc.
    unfoldable pub torch_backward : ℕ → Torched F X R (Unit {0})
    unfolding is_on_torch torch_backward_from Backward.backward
    torch_backward root = do
      t ← on_heap_of (load_tensor root)
      on_torch ← is_on_torch t
      if on_torch then torch_backward_from t else on_heap_of (Backward.backward root)

    -- `Gradient` of training_bridge_torch.cc, of a tensor of libtorch.
    torch_gradient_of : Tensor → Output → Torched F X R ℕ
    unfolding tensor_to_torch wrap_torch_tensor
    torch_gradient_of t out = do
      value ← tensor_to_torch torch t to_caller
      grad ← read_torch (nn.grad value)
      check (torch.defined grad) (fail_argument "tensor_grad: gradient is not available")
      detached ← ask_torch "tensor_grad" (nn.detach grad)
      snapshot ← ask_torch "tensor_grad" (nn.clone detached)
      wrap_torch_tensor torch snapshot out

    -- `Gradient` of training_bridge_torch.cc.
    unfoldable pub torch_gradient : Tensor → Output → Torched F X R ℕ
    unfolding is_on_torch torch_gradient_of gradient_snapshot
    torch_gradient t out = do
      need out "tensor_grad: output tensor pointer is null"
      on_torch ← is_on_torch t
      if on_torch then torch_gradient_of t out else on_heap_of (gradient_snapshot t out)

    -- An operation of libtorch on the tensor, and the tensor made of its result.
    unary : String → (X → R → TorchCall X × R) → Tensor → Output → Torched F X R ℕ
    unfolding tensor_to_torch wrap_torch_tensor
    unary operation call t out = do
      value ← tensor_to_torch torch t to_caller
      result ← ask_torch operation (call value)
      wrap_torch_tensor torch result out

    -- `Relu` of training_bridge_torch.cc.
    unfoldable pub torch_relu : Tensor → Output → Torched F X R ℕ
    unfolding unary
    torch_relu = unary "tensor_relu" nn.relu

    -- `Sigmoid` of training_bridge_torch.cc.
    unfoldable pub torch_sigmoid : Tensor → Output → Torched F X R ℕ
    unfolding unary
    torch_sigmoid = unary "tensor_sigmoid" nn.sigmoid

    -- `Tanh` of training_bridge_torch.cc.
    unfoldable pub torch_tanh : Tensor → Output → Torched F X R ℕ
    unfolding unary
    torch_tanh = unary "tensor_tanh" nn.tanh

    -- `MseLoss` of training_bridge_torch.cc.
    unfoldable pub torch_mse_loss : Tensor → Tensor → Output → Torched F X R ℕ
    unfolding ensure_same_device tensor_to_torch wrap_torch_tensor
    torch_mse_loss prediction target out = do
      ensure_same_device prediction target "mse_loss"
      check (same_shape prediction.shape target.shape)
          (fail_shape "mse_loss: prediction and target shapes must match")
      prediction_value ← tensor_to_torch torch prediction to_caller
      target_value ← tensor_to_torch torch target to_caller
      loss ← ask_torch "mse_loss" (nn.mse_loss prediction_value target_value)
      wrap_torch_tensor torch loss out

    -- `CrossEntropyLoss` of training_bridge_torch.cc.
    unfoldable pub torch_cross_entropy_loss : Tensor → Tensor → Output → Torched F X R ℕ
    unfolding ensure_same_device tensor_to_torch wrap_torch_tensor
    torch_cross_entropy_loss logits one_hot_target out = do
      ensure_same_device logits one_hot_target "cross_entropy_loss"
      check (same_shape logits.shape one_hot_target.shape)
          (fail_shape "cross_entropy_loss: logits and one-hot target shapes must match")
      check (length logits.shape.dimensions == 2)
          (fail_shape "cross_entropy_loss: initial contract requires rank-2 tensors")
      logits_value ← tensor_to_torch torch logits to_caller
      target_value ← tensor_to_torch torch one_hot_target to_caller
      log_probabilities ← ask_torch "cross_entropy_loss" (nn.log_softmax logits_value (pos 1))
      products ← ask_torch "cross_entropy_loss" (torch.multiply target_value log_probabilities)
      sums ← ask_torch "cross_entropy_loss" (nn.sum_over products (pos 1))
      mean ← ask_torch "cross_entropy_loss" (nn.mean sums)
      loss ← ask_torch "cross_entropy_loss" (nn.negated mean)
      wrap_torch_tensor torch loss out
