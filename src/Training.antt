-- ===== src/Training.antt =====
-- native/src/training: the CPU training engine.
pub mod Transfer
pub mod Activations
pub mod Losses
pub mod State
pub mod Update
pub mod Linear
pub mod Dimensions
pub mod Modules
pub mod Step
pub mod Optimizer
pub mod ParameterOptimizers
pub mod Assign
pub mod Bytes
pub mod Checkpoint
