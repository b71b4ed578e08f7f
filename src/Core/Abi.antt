-- ===== src/Core/Abi.antt =====
-- native/src/core/abi_guard.h, and the thread-local error text of native/src/core/status.cc. The
-- text belongs to the calling thread, so a call is a function of what the guarded body did and of the
-- text before it.
use Prim.Native.String.{String, ◌++◌}
use Prim.Native.Char.{Char}
use text.Mathlib.TextLemmas.{cons-append, append-ne-nil_of_right_ne-nil}
use tensora.Core.Status.{Status, StatusCode, ts_ok, is_ok, fail_memory, fail_internal}
use tensora.Core.Guard.{
  Exception, bad_alloc, length_error, std_exception, unknown, Call, returns, throws,
}
use tensora.Prelude.{Bool, true, false, ◌≡◌, ◌≢◌, ◌↔◌, refl}

-- `message().empty()`
abbrev pub is_empty : String → Bool
is_empty String.[] = true
is_empty (String.◌∷◌ c s) = false

abbrev pub when_empty : String → String → Bool → String
when_empty message text true = text
when_empty message text false = message

-- `ClearLastError`: the error text of the thread after it.
abbrev pub clear_last_error : String → String
clear_last_error text = ""

-- `SetLastError(status)`: the error text of the thread after it.
abbrev set_last_error_for : Bool → Status → String → String
set_last_error_for true s text = ""
set_last_error_for false s text = s.message

abbrev pub set_last_error : Status → String → String
set_last_error s = set_last_error_for (is_ok s) s

-- What the caller of an exported function sees: the code, and `ts_last_error_message()` next.
pub record Reply : Type 0 where
  pub code : StatusCode
  pub last_error : String

-- The status that the guard reports for each exception.
abbrev pub caught : String → Exception → Status
caught operation bad_alloc = fail_memory (operation ++ ": native allocation failed")
caught operation (length_error what) = fail_internal ((operation ++ ": ") ++ what)
caught operation (std_exception what) = fail_internal ((operation ++ ": ") ++ what)
caught operation unknown = fail_internal (operation ++ ": unknown native exception")

-- A failed status with no text gets one.
abbrev reported_for : String → Status → Bool → Status
reported_for operation s true = s
reported_for operation s false = record {
  code = s.code;
  message = when_empty s.message (operation ++ ": failed") (is_empty s.message);
}

abbrev pub reported : String → Status → Status
reported operation s = reported_for operation s (is_ok s)

-- The reply of a body that returned: its text is set when it failed.
abbrev pub returned_reply : String → Status → Bool → String → Reply
returned_reply operation s true text = record { code = s.code; last_error = text }
returned_reply operation s false text =
    let t = reported operation s in record { code = t.code; last_error = set_last_error t text }

-- `AbiGuard(operation, function)`, with the error text that the calls before it have left.
unfoldable pub abi_guard : String → Call Status → String → Reply
abi_guard operation (returns s) text =
    let cleared = clear_last_error text in returned_reply operation s (is_ok s) cleared
abi_guard operation (throws e) text =
    let cleared = clear_last_error text in
    let t = caught operation e in record { code = t.code; last_error = set_last_error t cleared }

-- The reply of an exported function. By `abi_guard-again` the text before the call has no part in it.
abbrev pub abi_reply : String → Call Status → Reply
abi_reply operation body = abi_guard operation body ""

-- A text that ends in a non-empty literal is not empty.
label-ne-empty : (operation : String) (c : Char) (t : String) → operation ++ String.◌∷◌ c t ≢ ""
label-ne-empty operation c t = append-ne-nil_of_right_ne-nil operation (λ d. cc)

append-ne-empty : (s t : String) → s ≢ "" → s ++ t ≢ ""
append-ne-empty String.[] t h = absurd (h refl)
append-ne-empty (String.◌∷◌ c s) t h = λ e. cc (cons-append c s t)

reply : Status → Reply
reply t = record { code = t.code; last_error = set_last_error t (clear_last_error "") }

abbrev IsReported : Reply → Type 0
IsReported r = (r.code ≡ ts_ok) ↔ (r.last_error ≡ "")

internal-IsReported : (message : String) → message ≢ "" → IsReported (reply (fail_internal message))
unfolding reply
internal-IsReported message h = (λ e. cc, λ e. absurd (h e))

returned-IsReported :
    (operation : String) (c : StatusCode) (message : String)
    → let s : Status = record { code = c; message = message } in
      IsReported (returned_reply operation s (is_ok s) "")
returned-IsReported operation ts_ok message = (λ e. refl, λ e. refl)
returned-IsReported operation c String.[] = (λ e. cc, λ e. absurd (label-ne-empty operation _ _ e))
returned-IsReported operation c (String.◌∷◌ d message) = (λ e. cc, λ e. cc)

-- Whatever error text the calls before it have left, a guarded call leaves one exactly when it fails:
-- there is none after a success, also when an earlier call had failed, and one after every failure,
-- thrown or returned.
pub abi_guard-IsReported :
    (operation : String) (body : Call Status) (text : String)
    → let r = abi_guard operation body text in (r.code ≡ ts_ok) ↔ (r.last_error ≡ "")
unfolding abi_guard reply
abi_guard-IsReported operation (returns s) text = returned-IsReported operation s.code s.message
abi_guard-IsReported operation (throws bad_alloc) text =
    (λ e. cc, λ e. absurd (label-ne-empty operation _ _ e))
abi_guard-IsReported operation (throws (length_error what)) text =
    internal-IsReported _ (append-ne-empty _ what (label-ne-empty operation _ _))
abi_guard-IsReported operation (throws (std_exception what)) text =
    internal-IsReported _ (append-ne-empty _ what (label-ne-empty operation _ _))
abi_guard-IsReported operation (throws unknown) text =
    internal-IsReported _ (label-ne-empty operation _ _)

-- The text that the calls before it have left has no part in the reply.
abi_guard-again :
    (operation : String) (body : Call Status) (text : String)
    → abi_guard operation body text ≡ abi_reply operation body
unfolding abi_guard
abi_guard-again operation (returns s) text = refl
abi_guard-again operation (throws e) text = refl
