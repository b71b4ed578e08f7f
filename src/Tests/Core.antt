-- ===== src/Tests/Core.antt =====
-- Runs of the model of native/src/core.
use tensora.Core.Status.{ts_ok}
use tensora.Core.Guard.{throws, bad_alloc}
use tensora.Core.Abi.{abi_guard, abi_guard-IsReported}
use tensora.Storage.Live.{
  Life, constructed, destroyed, lives, total_bytes, ts_runtime_live_storage_bytes,
  ts_runtime_live_storage_bytes-total,
}
use tensora.Training.Transfer.{live_storage_bytes}
use tensora.Prelude.{ℕ, List, [], ◌∷◌, ltb, ◌+◌, ◌^◌, ◌<◌, ◌≡◌, ◌↔◌, some, arith, if◌then◌else◌}

-- Read from the end: two storages are made, and the first of them is destroyed.
abbrev lifetimes : List (Life ℕ)
lifetimes = destroyed 1 ∷ constructed (4 ∷ 5 ∷ []) ∷ constructed (6 ∷ []) ∷ []

small : total_bytes (lives lifetimes).alive < 2 ^ 64
unfolding lives
small = omega arith

abi_guard-IsReported_example :
    let r = abi_guard "tensor_add" (throws bad_alloc) "tensor_sum: failed" in
    (r.code ≡ ts_ok) ↔ (r.last_error ≡ "")
abi_guard-IsReported_example =
    abi_guard-IsReported "tensor_add" (throws bad_alloc) "tensor_sum: failed"

ts_runtime_live_storage_bytes-total_example :
    let (reply, out) =
      ts_runtime_live_storage_bytes (lives lifetimes) live_storage_bytes (some 7) in
    let total = total_bytes (lives lifetimes).alive + live_storage_bytes in
    ((reply.code ≡ ts_ok) ↔ (total < 2 ^ 64))
    × (out ≡ some (if ltb total (2 ^ 64) then total else 0))
ts_runtime_live_storage_bytes-total_example =
    ts_runtime_live_storage_bytes-total lifetimes live_storage_bytes 7 small
