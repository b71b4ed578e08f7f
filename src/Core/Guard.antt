-- ===== src/Core/Guard.antt =====
-- native/src/core/allocation_guard.h: a body of code that may throw, and the guard around it.
use Prim.Native.String.{String, ◌++◌}
use tensora.Core.Status.{Status, fail_memory}

-- What the C++ code can throw: the standard exceptions that the guard names, any other with its
-- `what()` text, and what is no `std::exception`.
pub data Exception : Type 0 where
  bad_alloc : Exception
  length_error std_exception : String → Exception
  unknown : Exception

-- What a call of a body gives.
pub data Call {ℓ} (A : Type ℓ) : Type ℓ where
  returns : A → Call A
  throws : Exception → Call A

-- What a call of a `noexcept` function gives: an exception that escapes it ends the process.
pub data Outcome {ℓ} (A : Type ℓ) : Type ℓ where
  done : A → Outcome A
  terminates : Outcome A

-- `AllocationGuard(operation, function)`.
abbrev pub allocation_guard : String → Call Status → Outcome Status
allocation_guard operation (returns s) = done s
allocation_guard operation (throws bad_alloc) =
    done (fail_memory (operation ++ ": allocation failed"))
allocation_guard operation (throws (length_error what)) =
    done (fail_memory (operation ++ ": allocation size is too large"))
allocation_guard operation (throws (std_exception what)) = terminates
allocation_guard operation (throws unknown) = terminates
