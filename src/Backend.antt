-- ===== src/Backend.antt =====
-- native/src/backends/cpu: the arithmetic loops, the operations and their views.
pub mod Kernels
pub mod Cpu
pub mod Views
