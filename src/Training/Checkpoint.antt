-- ===== src/Training/Checkpoint.antt =====
-- native/src/training/training_bridge_stub.cc: ModuleSave and ModuleLoad. A stream that went bad is
-- tested before it is used again, so its state is how the function goes on.
pub mod Payload
pub mod Written
pub mod Roundtrip
pub mod Prefix
use Prim.Native.String.{String}
use tensora.Core.Status.{is_ok, fail_argument, fail_internal}
use tensora.Shape.{ShapeInfo, validate_shape, same_shape}
use tensora.Storage.{Storage}
use tensora.Tensor.{Tensor}
use tensora.Memory.{dimensions_pointer, default_shape}
use tensora.Heap.{M, Heap, load_tensor, store_storage, increment_version}
use tensora.Steps.{
  Result, Steps, ◌>>=◌, ◌>>◌, check, return, fail, undefined_unless, Output, to_caller, need,
}
use tensora.Autograd.Values.{cpu_values, mutable_cpu_values}
use tensora.Autograd.Backward.{clear_gradient}
use tensora.Training.Bytes.{FloatBits, Sink, bytes_of, of_u64, put, read_bytes, read_scalar}
use tensora.Training.State.{
  LinearState, Process, Train, FileName, Disk, on_tensors, train_load, lookup_module,
}
use tensora.Prelude.{
  ℕ, zero, suc, ◌+◌, ◌-◌, ◌*◌, ◌/◌, ◌^◌, ◌==◌, not, ◌&&◌, ◌||◌, Bool, true, false, Option, none,
  some, List, [], ◌∷◌, ◌++◌, ℤ, eq_ℤ, to_u64, ltb, length, if◌then◌else◌,
}

-- `kCheckpointMagic`: "TSTRNV1" and a zero.
unfoldable pub checkpoint_magic : List ℕ
checkpoint_magic = 84 ∷ 83 ∷ 84 ∷ 82 ∷ 78 ∷ 86 ∷ 49 ∷ 0 ∷ []

-- `kCheckpointVersion`
abbrev pub checkpoint_version : ℕ
checkpoint_version = 1

abbrev pub same_bytes : List ℕ → List ℕ → Bool
same_bytes [] [] = true
same_bytes [] (b ∷ right) = false
same_bytes (a ∷ left) [] = false
same_bytes (a ∷ left) (b ∷ right) = a == b && same_bytes left right

unfoldable pub write_dimensions : List ℤ → Steps Sink (Unit {0})
unfolding put bytes_of
write_dimensions [] = return tt
write_dimensions (dimension ∷ rest) = do
  put (bytes_of 8 (to_u64 dimension)) "module_save: failed to write tensor shape"
  write_dimensions rest

-- `ReadScalar` of each dimension.
unfoldable pub read_dimensions : ℕ → Steps (List ℕ) (List ℤ)
unfolding read_scalar
read_dimensions zero = return []
read_dimensions (suc rank) = do
  n ← read_scalar 8 "module_load: truncated tensor shape"
  rest ← read_dimensions rank
  return (of_u64 n ∷ rest)

-- The shape that `ReadTensorPayload` makes of the dimensions.
unfoldable pub read_shape : List ℤ → Steps (List ℕ) ShapeInfo
read_shape dims =
    let (s, shape) = validate_shape (dimensions_pointer dims) (length dims) (some default_shape) in
    if is_ok s
    then undefined_unless shape
    else fail (fail_internal "module_load: invalid tensor shape")

-- What `SaveTensor` writes before it looks at the values.
unfoldable pub save_header : ShapeInfo → Steps Sink (Unit {0})
unfolding put write_dimensions bytes_of
save_header shape = do
  put (bytes_of 8 (length shape.dimensions)) "module_save: failed to write tensor rank"
  write_dimensions shape.dimensions
  put (bytes_of 8 shape.numel) "module_save: failed to write tensor element count"

unfoldable pub at_end : Steps (List ℕ) (Unit {0})
at_end bytes =
    check (length bytes == 0) (fail_internal "module_load: checkpoint contains trailing data") bytes

module _ {F : Type 0} ⦃bits : FloatBits F⦄ where
  open bits use {to_bits, of_bits}

  -- The bytes of an array of floats.
  unfoldable pub float_bytes : List F → List ℕ
  unfolding bytes_of
  float_bytes [] = []
  float_bytes (x ∷ xs) = bytes_of 4 (to_bits x) ++ float_bytes xs

  -- The read of that many floats: it fails wherever the bytes end.
  unfoldable pub read_floats : ℕ → Steps (List ℕ) (List F)
  unfolding read_scalar
  read_floats zero = return []
  read_floats (suc numel) = do
    n ← read_scalar 4 "module_load: truncated tensor payload"
    rest ← read_floats numel
    return (of_bits n ∷ rest)

  -- `ReadTensorPayload`
  unfoldable pub read_tensor_payload : ShapeInfo → Output → Steps (List ℕ) (List F)
  unfolding read_scalar read_dimensions read_shape read_floats
  read_tensor_payload expected_shape out = do
    need out "module_load: output values pointer is null"
    rank ← read_scalar 8 "module_load: invalid tensor rank"
    check (not (ltb 32 rank)) (fail_internal "module_load: invalid tensor rank")
    dims ← read_dimensions rank
    shape ← read_shape dims
    check (same_shape shape expected_shape)
        (fail_internal "module_load: checkpoint tensor shape mismatch")
    numel ← read_scalar 8 "module_load: invalid tensor element count"
    check (numel == shape.numel && not (ltb ((2 ^ 64 - 1) / 4) numel))
        (fail_internal "module_load: invalid tensor element count")
    read_floats numel

-- A file is written, and the heap is there to be read.
abbrev pub Saving : Type 0 → Type 0 → Type 0
Saving F A = Steps (Sink × Heap F) A

module _ {F : Type 0} where
  abbrev pub in_sink : {A : Type 0} → Steps Sink A → Saving F A
  in_sink m (k, h) = let (r, k') = m k in (r, (k', h))

  abbrev pub from_heap : {A : Type 0} → M F A → Saving F A
  from_heap m (k, h) = let (r, h') = m h in (r, (k, h'))

module _ {F : Type 0} ⦃bits : FloatBits F⦄ where
  -- `SaveTensor`
  unfoldable pub save_tensor : ℕ → Saving F (Unit {0})
  unfolding save_header cpu_values put float_bytes
  save_tensor tensor = do
    t ← from_heap (load_tensor tensor)
    in_sink (save_header t.shape)
    values ← from_heap (cpu_values t "module_save" to_caller)
    in_sink (put (float_bytes values) "module_save: failed to write tensor payload")

  unfoldable pub save_bias : Bool → Option ℕ → Saving F (Unit {0})
  unfolding save_tensor
  save_bias false bias = return tt
  save_bias true bias = do b ← undefined_unless bias; save_tensor b

  -- What is written to the stream, up to the flush.
  unfoldable pub save_module : LinearState → Saving F (Unit {0})
  unfolding put bytes_of checkpoint_magic save_tensor save_bias
  save_module s = do
    let header : String = "module_save: failed to write checkpoint header"
    in_sink (put checkpoint_magic header)
    in_sink (put (bytes_of 4 checkpoint_version) header)
    in_sink (put (bytes_of 8 (to_u64 s.in_features)) header)
    in_sink (put (bytes_of 8 (to_u64 s.out_features)) header)
    in_sink (put (bytes_of 1 (if s.use_bias then 1 else 0)) header)
    save_tensor s.weight
    save_bias s.use_bias s.bias

  -- The values of the bias, which are none where there is no bias.
  unfoldable pub read_bias : Bool → Option Tensor → Steps (List ℕ) (List F)
  unfolding read_tensor_payload
  read_bias false bias = return []
  read_bias true bias = do b ← undefined_unless bias; read_tensor_payload b.shape to_caller

  -- The reads of `ModuleLoad` before it looks for trailing data.
  unfoldable pub read_checkpoint :
      LinearState → Tensor → Option Tensor → Steps (List ℕ) (List F × List F)
  unfolding checkpoint_magic read_bytes read_scalar read_tensor_payload read_bias
  read_checkpoint s weight bias = do
    magic ← read_bytes 8 "module_load: invalid checkpoint magic"
    check (same_bytes magic checkpoint_magic)
        (fail_internal "module_load: invalid checkpoint magic")
    let header : String = "module_load: truncated checkpoint header"
    version ← read_scalar 4 header
    in_features ← read_scalar 8 header
    out_features ← read_scalar 8 header
    use_bias ← read_scalar 1 header
    check
        (version == checkpoint_version
          && (eq_ℤ (of_u64 in_features) s.in_features
              && (eq_ℤ (of_u64 out_features) s.out_features
                  && (if s.use_bias then not (use_bias == 0) else use_bias == 0))))
        (fail_internal "module_load: checkpoint is incompatible with module")
    weight_values ← read_tensor_payload weight.shape to_caller
    bias_values ← read_bias s.use_bias bias
    return (weight_values, bias_values)

  -- The reads of `ModuleLoad`, for a module with those parameters.
  unfoldable pub read_module :
      LinearState → Tensor → Option Tensor → Steps (List ℕ) (List F × List F)
  unfolding read_checkpoint at_end
  read_module s weight bias = do values ← read_checkpoint s weight bias; at_end; return values

module _ {F : Type 0} where
  -- How `ModuleLoad` gives a tensor its new values.
  unfoldable pub assign_values : ℕ → List F → M F (Unit {0})
  unfolding mutable_cpu_values increment_version clear_gradient
  assign_values tensor values = do
    t ← load_tensor tensor
    old ← mutable_cpu_values t "module_load" to_caller
    store_storage t.storage (Storage.cpu values)
    increment_version t
    clear_gradient t

  unfoldable pub assign_module : LinearState → List F × List F → M F (Unit {0})
  unfolding assign_values
  assign_module s (weight_values, bias_values) = do
    assign_values s.weight weight_values
    if s.use_bias
        then (do bias ← undefined_unless s.bias; assign_values bias bias_values)
        else return tt

module _ {F D G : Type 0} where
  abbrev pub with_file : FileName → List ℕ → Process F D G → Process F D G
  with_file path bytes p = record p {
    files = λ name. if same_bytes name path then some bytes else p.files name;
  }

  -- What is left of the file once the stream was written to and flushed.
  abbrev pub saved :
      FileName
      → Bool
      → Process F D G
      → Result (Unit {0}) × (Sink × Heap F)
      → Result (Unit {0}) × Process F D G
  saved path flushes p (Result.done _, (k, h)) =
      check flushes (fail_internal "module_save: failed to finalize checkpoint")
        (with_file path k.content p)
  saved path flushes p (r, (k, h)) = (r, with_file path k.content p)

  unfoldable pub open_for_writing : Option Disk → Train F D G Disk
  open_for_writing none = fail (fail_internal "module_save: could not open checkpoint for writing")
  open_for_writing (some d) = return d

  unfoldable pub open_for_reading : Option (List ℕ) → Train F D G (List ℕ)
  open_for_reading none = fail (fail_internal "module_load: could not open checkpoint")
  open_for_reading (some bytes) = return bytes

  unfoldable pub load_bias : Option ℕ → Train F D G (Option Tensor)
  load_bias none = return none
  load_bias (some bias) = do t ← train_load bias; return (some t)

  abbrev read_only : {A : Type 0} → List ℕ → Steps (List ℕ) A → Train F D G A
  read_only bytes m p = let (r, _) = m bytes in (r, p)

module _ {F D G : Type 0} ⦃bits : FloatBits F⦄ where
  -- `ModuleSave`
  unfoldable pub module_save : ℕ → FileName → Train F D G (Unit {0})
  unfolding lookup_module open_for_writing save_module
  module_save module_id path = do
    check (ltb 0 (length path)) (fail_argument "module_save: path must not be empty")
    (a, s) ← lookup_module module_id
    λ p.
        (do
          d ← open_for_writing (p.disk path)
          λ q.
              saved path d.flushes q
                (save_module s (record { content = []; room = d.room }, q.world.heap)))
          p

  -- `ModuleLoad`
  unfoldable pub module_load : ℕ → FileName → Train F D G (Unit {0})
  unfolding lookup_module open_for_reading load_bias read_module assign_module
  module_load module_id path = do
    check (ltb 0 (length path)) (fail_argument "module_load: path must not be empty")
    (a, s) ← lookup_module module_id
    bytes ← λ p. open_for_reading (p.files path) p
    weight ← train_load s.weight
    bias ← load_bias s.bias
    values ← read_only bytes (read_module s weight bias)
    on_tensors (assign_module s values)
