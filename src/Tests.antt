-- ===== src/Tests.antt =====
-- Runs of the model at concrete inputs, one module for each part of the program.
mod Autograd
mod Core
mod Shape
mod Tensor
mod Registry
mod Kernels
mod Views
mod Training
mod Parameters
mod Inference
mod Sessions
mod Torch
mod TorchNn
mod Rollback
