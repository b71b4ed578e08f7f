-- ===== src/Storage/Live.antt =====
-- native/src/memory/cpu_storage.cc: the counter of live bytes, and ts_runtime_live_storage_bytes of
-- native/src/c_api.cc, which adds to it the counter of the training bridge.
use tensora.Core.Status.{ts_ok}
use tensora.Core.Abi.{Reply, abi_guard, abi_reply}
use tensora.Core.Guard.{returns}
use tensora.Core.IntegerMath.{checked_add_u64}
use tensora.Storage.{Storage, byte_size}
use tensora.Prelude.{
  ℕ, zero, suc, ◌+◌, ◌-◌, ◌*◌, ◌%◌, ◌^◌, ◌<◌, ◌≡◌, ◌↔◌, refl, arith, Option, none, some, List, [],
  ◌∷◌, get_elem?, length, ltb, if◌then◌else◌, Option-cases, inl, inr,
}

-- `live_bytes_`, and the values of the storages that are alive. No code changes how many they are.
pub record Live (F : Type 0) : Type 0 where
  pub live_bytes : ℕ
  pub alive : List (List F)

-- What happens to storages: one is constructed with its values, or the one at a place is destroyed.
pub data Life (F : Type 0) : Type 0 where
  constructed : List F → Life F
  destroyed : ℕ → Life F

module _ {F : Type 0} where
  remove_at : ℕ → List (List F) → List (List F)
  remove_at i [] = []
  remove_at zero (v ∷ vs) = vs
  remove_at (suc i) (v ∷ vs) = v ∷ remove_at i vs

  -- `CpuStorage::CpuStorage`
  construct : List F → Live F → Live F
  unfolding byte_size
  construct values l = record {
    live_bytes = (l.live_bytes + byte_size (Storage.cpu values)) % 2 ^ 64;
    alive = values ∷ l.alive;
  }

  -- `CpuStorage::~CpuStorage`
  destroy : ℕ → Option (List F) → Live F → Live F
  unfolding byte_size remove_at
  destroy i none l = l
  destroy i (some values) l = record {
    live_bytes = (l.live_bytes + 2 ^ 64 - byte_size (Storage.cpu values)) % 2 ^ 64;
    alive = remove_at i l.alive;
  }

  happen : Life F → Live F → Live F
  unfolding construct destroy
  happen (constructed values) l = construct values l
  happen (destroyed i) l = destroy i (get_elem? l.alive i) l

  -- The events in turn, from the start of the process.
  unfoldable pub lives : List (Life F) → Live F
  unfolding happen
  lives [] = record { live_bytes = 0; alive = [] }
  lives (e ∷ es) = happen e (lives es)

  -- The bytes of the storages together.
  abbrev pub total_bytes : List (List F) → ℕ
  total_bytes [] = 0
  total_bytes (v ∷ vs) = length v * 4 % 2 ^ 64 + total_bytes vs

  -- `ts_runtime_live_storage_bytes`, with what the training bridge counts.
  unfoldable pub ts_runtime_live_storage_bytes : Live F → ℕ → Option ℕ → Reply × Option ℕ
  unfolding checked_add_u64 abi_guard
  ts_runtime_live_storage_bytes l training_bytes out =
      let (status, stored) =
        checked_add_u64 l.live_bytes training_bytes "runtime_live_storage_bytes" out in
      (abi_reply "runtime_live_storage_bytes" (returns status), stored)

  total_bytes-remove_at :
      (i : ℕ) (vs : List (List F)) (v : List F)
      → get_elem? vs i ≡ some v
      → total_bytes (remove_at i vs) + length v * 4 % 2 ^ 64 ≡ total_bytes vs
  unfolding remove_at
  total_bytes-remove_at i [] v e = cc
  total_bytes-remove_at zero (w ∷ vs) v e = ground arith
  total_bytes-remove_at (suc i) (w ∷ vs) v e = omega (arith, total_bytes-remove_at i vs v e)

  destroy-live_bytes :
      (i : ℕ) (l : Live F)
      → l.live_bytes ≡ total_bytes l.alive % 2 ^ 64
      → let after = destroy i (get_elem? l.alive i) l in
        after.live_bytes ≡ total_bytes after.alive % 2 ^ 64
  unfolding destroy
  destroy-live_bytes i l balanced = elim (Option-cases (get_elem? l.alive i)) [
    | inl dead ↦ rw dead balanced
    | inr (v, living) ↦
        rw living (omega (arith, balanced, total_bytes-remove_at i l.alive v living))
  ]

  -- After any constructions and destructions the counter is the bytes of the storages alive, modulo 2^64.
  pub lives-live_bytes :
      (es : List (Life F)) → (lives es).live_bytes ≡ total_bytes (lives es).alive % 2 ^ 64
  unfolding lives construct
  lives-live_bytes [] = refl
  lives-live_bytes (constructed v ∷ es) = omega (arith, lives-live_bytes es)
  lives-live_bytes (destroyed i ∷ es) = destroy-live_bytes i (lives es) (lives-live_bytes es)

  -- After any constructions and destructions of CPU storages, where the bytes of those alive fit in 64
  -- bits, ts_runtime_live_storage_bytes with an output pointer succeeds exactly when these bytes and what
  -- the training bridge counts fit in 64 bits together; it then stores their sum, and otherwise 0.
  pub ts_runtime_live_storage_bytes-total :
      (es : List (Life F)) (training_bytes before : ℕ)
      → total_bytes (lives es).alive < 2 ^ 64
      → let (reply, out) = ts_runtime_live_storage_bytes (lives es) training_bytes (some before) in
        let total = total_bytes (lives es).alive + training_bytes in
        ((reply.code ≡ ts_ok) ↔ (total < 2 ^ 64))
        × (out ≡ some (if ltb total (2 ^ 64) then total else 0))
  unfolding ts_runtime_live_storage_bytes
  ts_runtime_live_storage_bytes-total es training_bytes before fits =
      let exact : (lives es).live_bytes ≡ total_bytes (lives es).alive =
        omega (arith, lives-live_bytes es) in
      rw exact (ground arith)
