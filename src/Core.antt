-- ===== src/Core.antt =====
-- native/src/core: the status values, the guards at the edges, checked counter arithmetic.
pub mod Status
pub mod Text
pub mod Guard
pub mod Abi
pub mod IntegerMath
