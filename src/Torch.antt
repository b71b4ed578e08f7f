-- ===== src/Torch.antt =====
-- A build with TENSORA_WITH_TORCH: native/src/training/torch_backend.h, torch_backend.cc,
-- torch_storage.cc and training_bridge_torch.cc, and what nn_v2_state.h does with Torch tensors. libtorch
-- is a parameter.
pub mod Devices
pub mod Mapping
pub mod Library
pub mod Storage
pub mod Backend
pub mod Wrapping
pub mod Nn
pub mod Identity
pub mod Assign
pub mod Bridge
pub mod Modules
pub mod Optimizers
