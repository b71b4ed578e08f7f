-- ===== src/Steps.antt =====
-- Steps on a state that may fail, as the C++ functions that return a `Status` take them.
pub mod Frame
use Prim.Native.String.{String}
use tensora.Core.Guard.{Exception}
use tensora.Core.Status.{Status, is_ok, fail_argument}
use tensora.Prelude.{Bool, true, false, Option, none, some, if◌then◌else◌}

-- A value, a status that is not ok, an exception, or `undefined`: what C++ leaves undefined, such as
-- a read through a null or dangling pointer.
pub data Result (A : Type 0) : Type 0 where
  done : A → Result A
  failed : Status → Result A
  threw : Exception → Result A
  undefined : Result A

abbrev pub Steps : Type 0 → Type 0 → Type 0
Steps S A = S → Result A × S

abbrev pub and_then : {S A B : Type 0} → Result A × S → (A → Steps S B) → Result B × S
and_then (done a, s) f = f a s
and_then (failed e, s) f = (failed e, s)
and_then (threw e, s) f = (threw e, s)
and_then (undefined, s) f = (undefined, s)

-- `if (!status.ok()) return status;` after each step.
infixl 5 ◌>>=◌ ◌>>◌
abbrev pub ◌>>=◌ : {S A B : Type 0} → Steps S A → (A → Steps S B) → Steps S B
◌>>=◌ m f s = and_then (m s) f

abbrev pub ◌>>◌ : {S B : Type 0} → Steps S (Unit {0}) → Steps S B → Steps S B
◌>>◌ m k s = and_then (m s) (λ _. k)

abbrev pub return : {S A : Type 0} → A → Steps S A
return a s = (done a, s)

abbrev pub fail : {S A : Type 0} → Status → Steps S A
fail e s = (failed e, s)

abbrev pub check : {S : Type 0} → Bool → Status → Steps S (Unit {0})
check true e s = (done tt, s)
check false e s = (failed e, s)

abbrev pub undefined_unless : {S A : Type 0} → Option A → Steps S A
undefined_unless none s = (undefined, s)
undefined_unless (some a) s = (done a, s)

abbrev pub from_status : {S A : Type 0} → Status × Option A → Steps S A
from_status (e, out) = if is_ok e then undefined_unless out else fail e

-- A pointer to where the caller wants the result.
pub data Output : Type 0 where
  null_out to_caller : Output

abbrev pub is_given : Output → Bool
is_given null_out = false
is_given to_caller = true

abbrev pub need : {S : Type 0} → Output → String → Steps S (Unit {0})
need out message = check (is_given out) (fail_argument message)
