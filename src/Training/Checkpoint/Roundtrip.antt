-- ===== src/Training/Checkpoint/Roundtrip.antt =====
-- native/src/training/training_bridge_stub.cc: ModuleSave, and ModuleLoad on the file it wrote.
use Prim.Native.String.{String}
use tensora.Tensor.{Tensor}
use tensora.Heap.{Heap}
use tensora.Steps.{Result}
use tensora.Training.Bytes.{FloatBits, Sink, read_bytes, split_bytes}
use tensora.Training.Bytes.Scalars.{read_scalar-bytes_of, IsInt64}
use tensora.Training.State.{LinearState, Process, FileName, lookup_module}
use tensora.Training.Checkpoint.{
  same_bytes, checkpoint_magic, read_bias, at_end, read_checkpoint, read_module, save_module,
  open_for_writing, saved, with_file, module_save,
}
use tensora.Training.Checkpoint.Payload.{
  IsFaithful, payload_bytes, read_tensor_payload-payload_bytes,
}
use tensora.Training.Checkpoint.Written.{
  IsParameter, IsBias, bias_bytes, module_bytes, Writes, save_module-Writes,
}
use tensora.Prelude.{
  ℕ, ◌≡◌, ◌<◌, not, ◌==◌, refl, sym, ap, ◌∙◌, Bool, true, false, Option, none, some, List, [], ◌∷◌,
  to_u64, eq_ℤ_refl, length, ltb, Bool-cases, Option-cases, inl, inr, arith, if◌then◌else◌,
}

same_bytes_refl : (bytes : List ℕ) → same_bytes bytes bytes ≡ true
same_bytes_refl [] = refl
same_bytes_refl (b ∷ bytes) = ground (arith, same_bytes_refl bytes)

abbrev flag : Bool → ℕ
flag use_bias = if use_bias then 1 else 0

flag_small : (use_bias : Bool) → flag use_bias < 256
flag_small true = omega arith
flag_small false = omega arith

flag_same :
    (use_bias : Bool) → (if use_bias then not (flag use_bias == 0) else flag use_bias == 0) ≡ true
flag_same true = refl
flag_same false = refl

module _ {F : Type 0} ⦃bits : FloatBits F⦄ where
  read_bias-bias_bytes :
      IsFaithful bits
      → (h : Heap F) (use_bias : Bool) (bias : Option ℕ) (t : Option Tensor) (values : List F)
      → IsBias h use_bias bias t values
      → read_bias use_bias t (bias_bytes use_bias t values) ≡ (Result.done values, [])
  unfolding read_bias
  read_bias-bias_bytes f h false bias t values p = rw p
  read_bias-bias_bytes f h true (some bias) (some t) values p =
      read_tensor_payload-payload_bytes f t.shape values [] p.acceptable p.plain p.full
  read_bias-bias_bytes f h true (some bias) none values p = cc
  read_bias-bias_bytes f h true none t values p = cc

  pub read_module-module_bytes :
      IsFaithful bits
      → (h : Heap F) (s : LinearState) (t : Tensor) (values : List F) (bias_tensor : Option Tensor)
        (bias_values : List F)
      → IsInt64 s.in_features
      → IsInt64 s.out_features
      → IsParameter h s.weight t values
      → IsBias h s.use_bias s.bias bias_tensor bias_values
      → read_module s t bias_tensor (module_bytes s t values bias_tensor bias_values)
        ≡ (Result.done (values, bias_values), [])
  unfolding read_module read_checkpoint module_bytes at_end read_bytes split_bytes checkpoint_magic
  read_module-module_bytes f h s t values bias_tensor bias_values i o w b =
      let header : String = "module_load: truncated checkpoint header" in
      let payload = payload_bytes t.shape values (bias_bytes s.use_bias bias_tensor bias_values) in
      rw (
        read_scalar-bytes_of 4 1 header _ (omega arith),
        read_scalar-bytes_of 8 (to_u64 s.in_features) header _ (omega (arith, i.0)),
        read_scalar-bytes_of 8 (to_u64 s.out_features) header _ (omega (arith, o.0)),
        read_scalar-bytes_of 1 (flag s.use_bias) header payload (flag_small s.use_bias),
        i.1,
        o.1,
        eq_ℤ_refl s.in_features,
        eq_ℤ_refl s.out_features,
        flag_same s.use_bias,
        read_tensor_payload-payload_bytes f t.shape values
            (bias_bytes s.use_bias bias_tensor bias_values) w.acceptable w.plain w.full,
        read_bias-bias_bytes f h s.use_bias s.bias bias_tensor bias_values b,
      )

module _ {F D G : Type 0} where
  saved-done :
      (path : FileName) (flushes : Bool) (bytes : List ℕ) (p : Process F D G)
      (x : Result (Unit {0}) × (Sink × Heap F))
      → (x.0 ≡ Result.done tt → x.1.0.content ≡ bytes)
      → (saved path flushes p x).0 ≡ Result.done tt
      → (saved path flushes p x).1 ≡ with_file path bytes p
  saved-done path true bytes p (Result.done tt, (k, h)) content e =
      ap (λ c. with_file path c p) (content refl)
  saved-done path false bytes p (Result.done tt, (k, h)) content e = cc
  saved-done path flushes bytes p (Result.failed s, y) content e = cc
  saved-done path flushes bytes p (Result.threw s, y) content e = cc
  saved-done path flushes bytes p (Result.undefined, y) content e = cc

module _ {F D G : Type 0} ⦃bits : FloatBits F⦄ where
  module_save-with_file :
      (module_id a : ℕ) (path : FileName) (p p₁ : Process F D G) (s : LinearState) (t : Tensor)
      (values : List F) (bias_tensor : Option Tensor) (bias_values : List F)
      → lookup_module module_id p ≡ (Result.done (a, s), p)
      → IsParameter p.world.heap s.weight t values
      → IsBias p.world.heap s.use_bias s.bias bias_tensor bias_values
      → module_save module_id path p ≡ (Result.done tt, p₁)
      → p₁ ≡ with_file path (module_bytes s t values bias_tensor bias_values) p
  unfolding module_save open_for_writing Writes
  module_save-with_file module_id a path p p₁ s t values bias_tensor bias_values found w b e =
      elim (Bool-cases (ltb 0 (length path))) [
        | inr empty ↦ cc (rw empty at e)
        | inl given ↦ elim (Option-cases (p.disk path)) [
          | inl closed ↦ cc (rw (given, found, closed) at e)
          | inr (d, open_disk) ↦
              let e' = rw (given, found, open_disk) at e in
              let k : Sink = record { content = []; room = d.room } in
              sym (ap (λ r. r.1) e')
              ∙ saved-done path d.flushes (module_bytes s t values bias_tensor bias_values) p
                  (save_module s (k, p.world.heap))
                  (λ done.
                    (save_module-Writes p.world.heap s t values bias_tensor bias_values w b k
                      done).0)
                  (ap (λ r. r.0) e')
        ]
      ]

  -- A successful ModuleSave has changed nothing but the file, and what ModuleLoad reads from that file,
  -- for a module of the same sizes whose tensors have the same shapes, is the values of the
  -- weight and of the bias when the module was saved.
  -- The module is one whose sizes fit in 64 bits and whose tensors are readable and of acceptable
  -- shapes, and the bits of a float are 32 and determine it.
  pub module_save-read_module :
      IsFaithful bits
      → (module_id a : ℕ) (path : FileName) (p p₁ : Process F D G) (s : LinearState) (t : Tensor)
        (values : List F) (bias_tensor : Option Tensor) (bias_values : List F)
      → lookup_module module_id p ≡ (Result.done (a, s), p)
      → IsInt64 s.in_features
      → IsInt64 s.out_features
      → IsParameter p.world.heap s.weight t values
      → IsBias p.world.heap s.use_bias s.bias bias_tensor bias_values
      → module_save module_id path p ≡ (Result.done tt, p₁)
      → (bytes : List ℕ) × (p₁ ≡ with_file path bytes p)
        × (p₁.files path ≡ some bytes)
        × (read_module s t bias_tensor bytes ≡ (Result.done (values, bias_values), []))
  module_save-read_module f module_id a path p p₁ s t values bias_tensor bias_values found i o w b
        e =
      let bytes = module_bytes s t values bias_tensor bias_values in
      let written =
        module_save-with_file module_id a path p p₁ s t values bias_tensor bias_values found w b
          e in
      (
        bytes,
        written,
        rw written (rw (same_bytes_refl path) refl),
        read_module-module_bytes f p.world.heap s t values bias_tensor bias_values i o w b,
      )
