-- ===== src/Runtime/Devices.antt =====
-- native/src/runtime/device_codec.cc and dispatcher.cc: which codes and devices are accepted.
use tensora.Core.Status.{Status, ok, is_ok, unsupported, fail_unsupported}
use tensora.Tensor.{Tensor, Device, cpu, cuda, mps, xpu, hip, is_cpu}
use tensora.Steps.{to_caller}
use tensora.Runtime.{device_code, device_from_code, backend_for, backend_for_tensors}
use tensora.Prelude.{
  ℕ, zero, suc, ◌==◌, Bool, false, Option, none, some, ◌≡◌, ◌≢◌, refl, subst, sym, if◌then◌else◌,
  not, arith, ◌&&◌, eq_ℤ,
}

-- What a code means: the device whose code it is, if there is one.
abbrev pub IsDecoded : ℕ → Status × Option Device → Type 0
IsDecoded code (s, some d) = (device_code d ≡ code) × (s ≡ ok)
IsDecoded code (s, none) = ((d : Device) → device_code d ≢ code) × (s.code ≡ unsupported)

no_device : (n : ℕ) (d : Device) → device_code d ≢ suc (suc (suc (suc (suc (suc n)))))
no_device n cpu = ground arith
no_device n cuda = ground arith
no_device n mps = ground arith
no_device n xpu = ground arith
no_device n hip = ground arith

no_device_zero : (d : Device) → device_code d ≢ 0
no_device_zero cpu = ground arith
no_device_zero cuda = ground arith
no_device_zero mps = ground arith
no_device_zero xpu = ground arith
no_device_zero hip = ground arith

-- With an output pointer each code is decoded to the device that has it, and a code of no device is
-- UNSUPPORTED and stores nothing.
pub device_from_code_lem : (code : ℕ) → IsDecoded code (device_from_code code to_caller)
unfolding device_from_code
device_from_code_lem zero = (no_device_zero, refl)
device_from_code_lem (suc zero) = (refl, refl)
device_from_code_lem (suc (suc zero)) = (refl, refl)
device_from_code_lem (suc (suc (suc zero))) = (refl, refl)
device_from_code_lem (suc (suc (suc (suc zero)))) = (refl, refl)
device_from_code_lem (suc (suc (suc (suc (suc zero))))) = (refl, refl)
device_from_code_lem (suc (suc (suc (suc (suc (suc n)))))) =
    let e : device_from_code (suc (suc (suc (suc (suc (suc n)))))) to_caller
        ≡ (fail_unsupported "device: unknown device kind", none) =
      ground arith in
    subst (IsDecoded (suc (suc (suc (suc (suc (suc n))))))) (sym e) (no_device n, refl)

chosen :
    (a b : Device) (same : Bool) (s : Status)
    → is_ok s ≡ false
    → is_ok
        (if not (device_code a == device_code b && same)
          then (s, none)
          else backend_for a to_caller).0
      ≡ (is_cpu a && (is_cpu b && same))
unfolding backend_for
chosen cpu cpu same s bad = ground (arith, bad)
chosen cpu cuda same s bad = ground (arith, bad)
chosen cpu mps same s bad = ground (arith, bad)
chosen cpu xpu same s bad = ground (arith, bad)
chosen cpu hip same s bad = ground (arith, bad)
chosen cuda b same s bad = ground (arith, bad)
chosen mps b same s bad = ground (arith, bad)
chosen xpu b same s bad = ground (arith, bad)
chosen hip b same s bad = ground (arith, bad)

-- With an output pointer the dispatcher finds a backend for two tensors exactly when both are on the
-- CPU and have one device index.
pub backend_for_tensors_iff :
    (l r : Tensor)
    → is_ok (backend_for_tensors l r to_caller).0
      ≡ (is_cpu l.device && (is_cpu r.device && eq_ℤ l.device_index r.device_index))
unfolding backend_for_tensors backend_for
backend_for_tensors_iff l r = chosen l.device r.device (eq_ℤ l.device_index r.device_index) _ refl
