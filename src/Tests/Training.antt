-- ===== src/Tests/Training.antt =====
-- Runs of the model of native/src/training. The floats of the checkpoints are Booleans.
use tensora.Core.Status.{fail_shape}
use tensora.Shape.{same_shape}
use tensora.Shape.Product.{product, row_major, IsPositive}
use tensora.Storage.{Storage, kind}
use tensora.Tensor.{Tensor, float32, cpu, is_contiguous}
use tensora.Registry.Entries.{tensor_handle, module_handle, same_type, find}
use tensora.Registry.{Registry, lookup}
use tensora.Heap.{Heap}
use tensora.Steps.{Result, to_caller}
use tensora.Autograd.Values.{cpu_values}
use tensora.Api.{World, lookup_tensor}
use tensora.Training.Bytes.{FloatBits, bytes_of}
use tensora.Training.State.{LinearState, Process, FileName, lookup_module}
use tensora.Training.Assign.{assign_many, set_requires_grad}
use tensora.Training.Assign.Atomic.{assign_many-all_or_nothing}
use tensora.Training.Assign.Flag.{HasFlag, set_requires_grad-HasFlag}
use tensora.Training.Modules.{module_parameter_count, module_parameter_at}
use tensora.Training.Modules.Indices.{answer, module_parameter_at-parameters}
use tensora.Training.Linear.{validate_module_dimensions}
use tensora.Training.Dimensions.{validate_module_dimensions_iff}
use tensora.Training.State.{parameters}
use tensora.Training.Checkpoint.{
  checkpoint_magic, float_bytes, module_save, module_load, with_file, read_module, load_bias,
}
use tensora.Training.Checkpoint.Payload.{IsFaithful, payload_bytes, dimension_bytes}
use tensora.Training.Checkpoint.Written.{IsParameter, module_bytes}
use tensora.Training.Checkpoint.Roundtrip.{read_module-module_bytes, module_save-read_module}
use tensora.Training.Checkpoint.Prefix.{module_load-cut}
use tensora.Tests.Kernels.{counting}
use tensora.Prelude.{
  ◌*◌, ◌-◌, ◌≤◌, ◌↔◌, to_u64, length, get_elem?, ℕ, ◌+◌, ◌^◌, ◌<◌, ◌++◌, ◌==◌, ◌≡◌, ◌≢◌, refl, Bool,
  true, false, none, some, List, [], ◌∷◌, pos, arith, if◌then◌else◌,
}

instance abbrev two_floats : FloatBits Bool
two_floats = record { to_bits = λ b. if b then 1 else 0; of_bits = λ n. n == 1 }

two_floats-IsFaithful : IsFaithful two_floats
two_floats-IsFaithful = record { small = small; exact = exact }
  where
    small : (b : Bool) → two_floats.to_bits b < 2 ^ 32
    small true = omega arith
    small false = omega arith

    exact : (b : Bool) → two_floats.of_bits (two_floats.to_bits b) ≡ b
    exact true = refl
    exact false = refl

abbrev pub weight : Tensor
weight = record {
  shape = record {
    dimensions = pos 1 ∷ pos 2 ∷ [];
    strides = 2 ∷ 1 ∷ [];
    numel = 2;
    byte_size = 8;
  };
  storage = 0;
  dtype = float32;
  device = cpu;
  device_index = pos 0;
  storage_offset = 0;
  version_counter = 0;
  autograd_meta = none;
}

abbrev pub bias : Tensor
bias = record weight {
  shape = record { dimensions = pos 2 ∷ []; strides = 1 ∷ []; numel = 2; byte_size = 8 };
  storage = 1;
  version_counter = 1;
}

abbrev linear : LinearState
linear = record {
  in_features = pos 1;
  out_features = pos 2;
  use_bias = true;
  training = true;
  weight = 0;
  bias = some 1;
}

abbrev pub parameters_heap : {F : Type 0} → List F → List F → Heap F
parameters_heap weights biases = record {
  storages = Storage.cpu weights ∷ Storage.cpu biases ∷ [];
  counters = record { value = 0; identity = 1 } ∷ record { value = 0; identity = 2 } ∷ [];
  tensors = weight ∷ bias ∷ [];
  metas = [];
  next_identity = 3;
  requests = 0;
  allocator = λ requests bytes. none;
}

abbrev handles : Registry ℕ
handles = record {
  entries = (1, record { type = module_handle; refs = 1; object = 0 }) ∷ [];
  next_handle = 2;
}

abbrev pub tensors : Registry ℕ
tensors = record {
  entries =
      (2, record { type = tensor_handle; refs = 1; object = 1 })
      ∷ (1, record { type = tensor_handle; refs = 1; object = 0 })
      ∷ [];
  next_handle = 3;
}

abbrev path : FileName
path = 97 ∷ []

abbrev process : Process Bool ℕ ℕ
process = record {
  world = record {
    heap = parameters_heap (true ∷ false ∷ []) (true ∷ true ∷ []);
    registry = handles;
  };
  modules = linear ∷ [];
  optimizers = [];
  parameter_optimizers = [];
  rng = 0;
  files = λ name. none;
  disk = λ name. some (record { room = 1000; flushes = true });
}

weight-IsParameter : IsParameter process.world.heap 0 weight (true ∷ false ∷ [])
unfolding cpu_values product row_major is_contiguous
weight-IsParameter = record {
  found = refl;
  readable = refl;
  acceptable = record { ranked = omega arith; positive = (refl, (refl, tt)); fits = omega arith };
  plain = refl;
  full = refl;
}

bias-IsParameter : IsParameter process.world.heap 1 bias (true ∷ true ∷ [])
unfolding cpu_values product row_major is_contiguous
bias-IsParameter = record {
  found = refl;
  readable = refl;
  acceptable = record { ranked = omega arith; positive = (refl, tt); fits = omega arith };
  plain = refl;
  full = refl;
}

abbrev cut : List ℕ
cut =
    84 ∷ 83 ∷ 84 ∷ 82 ∷ 78 ∷ 86 ∷ 49 ∷ 0 ∷ 1 ∷ 0 ∷ 0 ∷ 0 ∷ 1 ∷ 0 ∷ 0 ∷ 0 ∷ 0 ∷ 0 ∷ 0 ∷ 0 ∷ 2 ∷ 0 ∷ 0
    ∷ 0 ∷ 0 ∷ 0 ∷ 0 ∷ 0 ∷ 1 ∷ 2 ∷ 0 ∷ 0 ∷ 0 ∷ 0 ∷ 0 ∷ 0 ∷ 0 ∷ 1 ∷ 0 ∷ 0 ∷ 0 ∷ 0 ∷ 0 ∷ 0 ∷ 0 ∷ 2 ∷ 0
    ∷ 0 ∷ 0 ∷ 0 ∷ 0 ∷ 0 ∷ 0 ∷ 2 ∷ 0 ∷ 0 ∷ 0 ∷ 0 ∷ 0 ∷ 0 ∷ 0 ∷ 1 ∷ 0 ∷ 0 ∷ 0 ∷ 0 ∷ 0 ∷ 0 ∷ 0 ∷ 1 ∷ 0
    ∷ 0 ∷ 0 ∷ 0 ∷ 0 ∷ 0 ∷ 0 ∷ 2 ∷ 0 ∷ 0 ∷ 0 ∷ 0 ∷ 0 ∷ 0 ∷ 0 ∷ 2 ∷ 0 ∷ 0 ∷ 0 ∷ 0 ∷ 0 ∷ 0 ∷ 0 ∷ 1 ∷ 0
    ∷ 0 ∷ 0 ∷ 1 ∷ 0 ∷ 0 ∷ []

abbrev saved_process : Process Bool ℕ ℕ
saved_process = with_file path (cut ++ 0 ∷ []) process

saves : module_save 1 path process ≡ (Result.done tt, saved_process)
unfolding module_save lookup find same_type is_contiguous
saves = refl

found_linear : lookup_module 1 process ≡ (Result.done (0, linear), process)
unfolding lookup_module lookup find same_type
found_linear = refl

module_save-read_module_example :
    (bytes : List ℕ) × (saved_process ≡ with_file path bytes process)
    × (saved_process.files path ≡ some bytes)
    × (read_module linear weight (some bias) bytes
        ≡ (Result.done (true ∷ false ∷ [], true ∷ true ∷ []), []))
module_save-read_module_example =
    module_save-read_module two_floats-IsFaithful 1 0 path process saved_process linear weight
      (true ∷ false ∷ []) (some bias) (true ∷ true ∷ []) found_linear (omega arith, refl)
      (omega arith, refl) weight-IsParameter bias-IsParameter saves

abbrev cut_process : Process Bool ℕ ℕ
cut_process = with_file path cut process

whole :
    read_module linear weight (some bias) (cut ++ 0 ∷ [])
    ≡ (Result.done (true ∷ false ∷ [], true ∷ true ∷ []), [])
unfolding module_bytes checkpoint_magic bytes_of payload_bytes dimension_bytes float_bytes
whole =
    read_module-module_bytes two_floats-IsFaithful process.world.heap linear weight
      (true ∷ false ∷ []) (some bias) (true ∷ true ∷ []) (omega arith, refl) (omega arith, refl)
      weight-IsParameter bias-IsParameter

found_cut : lookup_module 1 cut_process ≡ (Result.done (0, linear), cut_process)
unfolding lookup_module lookup find same_type
found_cut = refl

bias_cut : load_bias (some 1) cut_process ≡ (Result.done (some bias), cut_process)
unfolding load_bias
bias_cut = refl

module_load-cut_example :
    ((module_load 1 path cut_process).1 ≡ cut_process)
    × ((module_load 1 path cut_process).0 ≢ Result.done tt)
module_load-cut_example =
    module_load-cut 1 0 path cut_process linear weight (some bias) cut [] 0
      (true ∷ false ∷ [], true ∷ true ∷ []) [] (omega arith) found_cut refl bias_cut whole refl

abbrev small_world : World ℕ
small_world = record { heap = parameters_heap (1 ∷ 2 ∷ []) (3 ∷ 4 ∷ []); registry = tensors }

-- The second pair has shapes that differ.
refuses :
    (assign_many (some (λ i. i + 1)) (some (λ i. 1)) 2 small_world).0
    ≡ Result.failed (fail_shape "tensor_assign_many: tensor shape mismatch")
unfolding assign_many lookup_tensor lookup find same_type same_shape kind
refuses = refl

assign_many-all_or_nothing_example :
    (assign_many (some (λ i. i + 1)) (some (λ i. 1)) 2 small_world).1 ≡ record small_world {
      heap = record small_world.heap {
        requests = (assign_many (some (λ i. i + 1)) (some (λ i. 1)) 2 small_world).1.heap.requests;
      };
    }
assign_many-all_or_nothing_example =
    assign_many-all_or_nothing (some (λ i. i + 1)) (some (λ i. 1)) 2 small_world
      (fail_shape "tensor_assign_many: tensor shape mismatch") refuses

abbrev marked : Heap ℕ
marked = record small_world.heap {
  tensors = record weight { autograd_meta = some 0 } ∷ [];
  metas = record { requires_grad = true; is_leaf = true; gradient = some 0; grad_fn = none } ∷ [];
}

abbrev unmarked : Heap ℕ
unmarked = record marked {
  metas = record { requires_grad = false; is_leaf = true; gradient = none; grad_fn = none } ∷ [];
}

unmarks : set_requires_grad 0 false marked ≡ (Result.done tt, unmarked)
unfolding set_requires_grad
unmarks = refl

set_requires_grad-HasFlag_example : HasFlag 0 false unmarked
set_requires_grad-HasFlag_example = set_requires_grad-HasFlag 0 false marked unmarked unmarks

module_parameter_at-parameters_example :
    (module_parameter_count 1 to_caller process
      ≡ (Result.done (length (parameters linear)), process))
    × (module_parameter_at 1 1 to_caller process
        ≡ (answer (get_elem? (parameters linear) 1), process))
module_parameter_at-parameters_example =
    module_parameter_at-parameters 1 0 1 1 process linear found_linear refl

validate_module_dimensions_iff_example :
    (validate_module_dimensions (pos 3) (pos 4) process ≡ (Result.done tt, process))
    ↔ (IsPositive (pos 3) × IsPositive (pos 4) × (to_u64 (pos 3) * to_u64 (pos 4) * 4 ≤ 2 ^ 64 - 1))
validate_module_dimensions_iff_example = validate_module_dimensions_iff (pos 3) (pos 4) process
