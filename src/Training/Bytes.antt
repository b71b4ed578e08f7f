-- ===== src/Training/Bytes.antt =====
-- native/src/training/training_bridge_stub.cc: the bytes of a checkpoint. A scalar is written as it
-- lies in memory, on a little-endian host, and a stream is the bytes that it has still to give.
pub mod Scalars
use Prim.Native.String.{String}
use tensora.Core.Status.{fail_internal}
use tensora.Steps.{Result, Steps, ◌>>=◌, return}
use tensora.Prelude.{
  ℕ, zero, suc, ◌+◌, ◌-◌, ◌*◌, ◌/◌, ◌%◌, ◌^◌, Bool, Option, none, some, List, [], ◌∷◌, ◌++◌, ℤ, pos,
  negsuc, to_u64, ltb, length, take, if◌then◌else◌,
}

-- The bits of a float32.
pub record FloatBits (F : Type 0) : Type 0 where
  pub to_bits : F → ℕ
  pub of_bits : ℕ → F

-- The bytes of a number of that width.
unfoldable pub bytes_of : ℕ → ℕ → List ℕ
bytes_of zero n = []
bytes_of (suc width) n = n % 256 ∷ bytes_of width (n / 256)

unfoldable pub number_of : List ℕ → ℕ
number_of [] = 0
number_of (b ∷ bs) = b + 256 * number_of bs

-- The `int64_t` of those bits.
abbrev pub of_u64 : ℕ → ℤ
of_u64 n = if ltb n (2 ^ 63) then pos n else negsuc (2 ^ 64 - 1 - n)

-- A file that is written: what it holds, and how many bytes it still takes.
pub record Sink : Type 0 where
  pub content : List ℕ
  pub room : ℕ

-- `stream.write`, and the test of the stream after it.
unfoldable pub put : List ℕ → String → Steps Sink (Unit {0})
put bytes message k =
    if ltb k.room (length bytes)
    then (
      Result.failed (fail_internal message),
      record { content = k.content ++ take k.room bytes; room = 0 },
    )
    else (Result.done tt, record { content = k.content ++ bytes; room = k.room - length bytes })

abbrev first_bytes : ℕ → Option (List ℕ × List ℕ) → Option (List ℕ × List ℕ)
first_bytes b none = none
first_bytes b (some (taken, rest)) = some (b ∷ taken, rest)

-- That many bytes, and those after them.
unfoldable pub split_bytes : ℕ → List ℕ → Option (List ℕ × List ℕ)
split_bytes zero bytes = some ([], bytes)
split_bytes (suc n) [] = none
split_bytes (suc n) (b ∷ bytes) = first_bytes b (split_bytes n bytes)

taken_bytes : String → Option (List ℕ × List ℕ) → Result (List ℕ) × List ℕ
taken_bytes message none = (Result.failed (fail_internal message), [])
taken_bytes message (some (taken, rest)) = (Result.done taken, rest)

-- `stream.read`, and the test of the stream after it.
unfoldable pub read_bytes : ℕ → String → Steps (List ℕ) (List ℕ)
unfolding taken_bytes
read_bytes n message bytes = taken_bytes message (split_bytes n bytes)

-- `ReadScalar`, of that many bytes.
unfoldable pub read_scalar : ℕ → String → Steps (List ℕ) ℕ
unfolding read_bytes
read_scalar width message = do bytes ← read_bytes width message; return (number_of bytes)
