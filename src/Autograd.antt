-- ===== src/Autograd.antt =====
-- native/src/autograd/autograd.h: tensors for gradients, the recorded graph, and its traversal.
pub mod Values
pub mod Graph
pub mod Gradients
pub mod Apply
pub mod Losses
pub mod Backward
pub mod Topology
pub mod Order
pub mod Versions
pub mod Aliases
pub mod Layout
pub mod Matmul
