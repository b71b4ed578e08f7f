-- ===== src/Training/Checkpoint/Written.antt =====
-- native/src/training/training_bridge_stub.cc: what ModuleSave has written once it succeeds.
use mathlib.Core.List.{append_assoc, append-nil}
use Prim.Native.String.{String}
use tensora.Shape.{ShapeInfo}
use tensora.Shape.Validate.{IsAcceptable, canonical}
use tensora.Tensor.{Tensor}
use tensora.Heap.{M, Heap, load_tensor}
use tensora.Steps.{Result, Steps, and_then, return, ◌>>=◌, ◌>>◌, to_caller}
use tensora.Autograd.Values.{cpu_values}
use tensora.Training.Bytes.{FloatBits, Sink, bytes_of, put}
use tensora.Training.State.{LinearState}
use tensora.Training.Checkpoint.{
  Saving, in_sink, from_heap, checkpoint_magic, checkpoint_version, write_dimensions, save_header,
  float_bytes, save_tensor, save_bias, save_module,
}
use tensora.Training.Checkpoint.Payload.{dimension_bytes, payload_bytes}
use tensora.Prelude.{
  ℕ, ◌≡◌, refl, sym, ap, subst, ◌∙◌, Bool, true, false, Option, none, some, List, [], ◌∷◌, ◌++◌, ℤ,
  to_u64, length, get_elem?, ltb, Bool-cases, inl, inr, if◌then◌else◌,
}

-- A step on the file that, when it succeeds, has added those bytes.
unfoldable Adds : Steps Sink (Unit {0}) → List ℕ → Type 0
Adds m bytes = (k : Sink) → (m k).0 ≡ Result.done tt → (m k).1.content ≡ k.content ++ bytes

put-Adds : (bytes : List ℕ) (message : String) → Adds (put bytes message) bytes
unfolding put Adds
put-Adds bytes message k h = elim (Bool-cases (ltb k.room (length bytes))) [
  | inl full ↦ cc
  | inr fits ↦ rw fits
]

after_put :
    (before a b : List ℕ) (n : Steps Sink (Unit {0}))
    → Adds n b
    → (x : Result (Unit {0}) × Sink) → (x.0 ≡ Result.done tt → x.1.content ≡ before ++ a)
    → (and_then x (λ _. n)).0 ≡ Result.done tt
    → (and_then x (λ _. n)).1.content ≡ before ++ (a ++ b)
unfolding Adds
after_put before a b n adds (Result.done tt, k) first h =
    rw (adds k h) (rw (first refl) (append_assoc before a b))
after_put before a b n adds (Result.failed e, k) first h = cc
after_put before a b n adds (Result.threw e, k) first h = cc
after_put before a b n adds (Result.undefined, k) first h = cc

Adds->> :
    (m n : Steps Sink (Unit {0})) (a b : List ℕ) → Adds m a → Adds n b → Adds (m >> n) (a ++ b)
unfolding Adds
Adds->> m n a b x y k h = after_put k.content a b n y (m k) (x k) h

nothing-Adds : Adds (return tt) []
unfolding Adds
nothing-Adds k h = sym (append-nil k.content)

write_dimensions-Adds : (dims : List ℤ) → Adds (write_dimensions dims) (dimension_bytes dims)
unfolding write_dimensions dimension_bytes
write_dimensions-Adds [] = nothing-Adds
write_dimensions-Adds (d ∷ dims) =
    Adds->> _ _ _ _ (put-Adds (bytes_of 8 (to_u64 d)) _) (write_dimensions-Adds dims)

save_header-Adds :
    (shape : ShapeInfo)
    → Adds (save_header shape) (
        bytes_of 8 (length shape.dimensions)
        ++ (dimension_bytes shape.dimensions ++ bytes_of 8 shape.numel))
unfolding save_header
save_header-Adds shape =
    Adds->> _ _ _ _
      (put-Adds (bytes_of 8 (length shape.dimensions)) "module_save: failed to write tensor rank")
      (Adds->> _ _ _ _ (write_dimensions-Adds shape.dimensions)
        (put-Adds (bytes_of 8 shape.numel) "module_save: failed to write tensor element count"))

module _ {F : Type 0} where
  -- A step that, when it succeeds, has added those bytes and left the heap.
  unfoldable pub Writes : Heap F → Saving F (Unit {0}) → List ℕ → Type 0
  Writes h m bytes =
      (k : Sink)
      → (m (k, h)).0 ≡ Result.done tt
      → ((m (k, h)).1.0.content ≡ k.content ++ bytes) × ((m (k, h)).1.1 ≡ h)

  in_sink-Writes :
      (h : Heap F) (m : Steps Sink (Unit {0})) (bytes : List ℕ)
      → Adds m bytes
      → Writes h (in_sink m) bytes
  unfolding Adds Writes
  in_sink-Writes h m bytes adds k e = (adds k e, refl)

  after_write :
      (h : Heap F) (before a b : List ℕ) (n : Saving F (Unit {0}))
      → Writes h n b
      → (x : Result (Unit {0}) × (Sink × Heap F))
      → (x.0 ≡ Result.done tt → (x.1.0.content ≡ before ++ a) × (x.1.1 ≡ h))
      → (and_then x (λ _. n)).0 ≡ Result.done tt
      → ((and_then x (λ _. n)).1.0.content ≡ before ++ (a ++ b)) × ((and_then x (λ _. n)).1.1 ≡ h)
  unfolding Writes
  after_write h before a b n writes (Result.done tt, (k, h')) first e =
      let (content_eq, heap_eq) = first refl in
      let later = subst (λ g. Writes g n b) (sym heap_eq) writes k e in
      (later.0 ∙ ap (λ c. c ++ b) content_eq ∙ append_assoc before a b, later.1 ∙ heap_eq)
  after_write h before a b n writes (Result.failed s, y) first e = cc
  after_write h before a b n writes (Result.threw s, y) first e = cc
  after_write h before a b n writes (Result.undefined, y) first e = cc

  Writes->> :
      (h : Heap F) (m n : Saving F (Unit {0})) (a b : List ℕ)
      → Writes h m a
      → Writes h n b
      → Writes h (m >> n) (a ++ b)
  unfolding Writes
  Writes->> h m n a b x y k e = after_write h k.content a b n y (m (k, h)) (x k) e

  reads-Writes :
      {A : Type 0} (h : Heap F) (m : M F A) (f : A → Saving F (Unit {0})) (a : A) (bytes : List ℕ)
      → m h ≡ (Result.done a, h)
      → Writes h (f a) bytes
      → Writes h (from_heap m >>= f) bytes
  unfolding Writes
  reads-Writes h m f a bytes read writes k e = rw read (writes k (rw read at e))

  nothing-Writes : (h : Heap F) → Writes h (return tt) []
  unfolding Writes
  nothing-Writes h k e = (sym (append-nil k.content), refl)

  -- A tensor of the heap that direct access reads, of an acceptable shape.
  pub record IsParameter (h : Heap F) (tensor : ℕ) (t : Tensor) (values : List F) : Type 0 where
    pub found : get_elem? h.tensors tensor ≡ some t
    pub readable : cpu_values t "module_save" to_caller h ≡ (Result.done values, h)
    pub acceptable : IsAcceptable t.shape.dimensions
    pub plain : t.shape ≡ canonical t.shape.dimensions
    pub full : length values ≡ t.shape.numel

module _ {F : Type 0} ⦃bits : FloatBits F⦄ where
  header-payload_bytes :
      (shape : ShapeInfo) (values : List F)
      → (bytes_of 8 (length shape.dimensions)
            ++ (dimension_bytes shape.dimensions ++ bytes_of 8 shape.numel))
          ++ float_bytes values
        ≡ payload_bytes shape values []
  unfolding payload_bytes
  header-payload_bytes shape values =
      rw
        (
          append_assoc (bytes_of 8 (length shape.dimensions))
              (dimension_bytes shape.dimensions ++ bytes_of 8 shape.numel) (float_bytes values),
          append_assoc (dimension_bytes shape.dimensions) (bytes_of 8 shape.numel)
              (float_bytes values),
          append-nil (float_bytes values),
        )
        refl

  append-payload_bytes :
      (shape : ShapeInfo) (values : List F) (a b : List ℕ)
      → payload_bytes shape values a ++ b ≡ payload_bytes shape values (a ++ b)
  unfolding payload_bytes
  append-payload_bytes shape values a b =
      rw
        (
          append_assoc (bytes_of 8 (length shape.dimensions)) _ b,
          append_assoc (dimension_bytes shape.dimensions) _ b,
          append_assoc (bytes_of 8 shape.numel) _ b,
          append_assoc (float_bytes values) a b,
        )
        refl

  save_tensor-Writes :
      (h : Heap F) (tensor : ℕ) (t : Tensor) (values : List F)
      → IsParameter h tensor t values
      → Writes h (save_tensor tensor) (payload_bytes t.shape values [])
  unfolding save_tensor
  save_tensor-Writes h tensor t values p =
      let message : String = "module_save: failed to write tensor payload" in
      subst (Writes h (save_tensor tensor)) (header-payload_bytes t.shape values) (
        reads-Writes h (load_tensor tensor) _ t _ (rw p.found refl) (
          Writes->> h (in_sink (save_header t.shape)) _ _ _
            (in_sink-Writes h (save_header t.shape) _ (save_header-Adds t.shape))
            (reads-Writes h (cpu_values t "module_save" to_caller) _ values _ p.readable (
              in_sink-Writes h (put (float_bytes values) message) (float_bytes values)
                (put-Adds (float_bytes values) message)))))

  abbrev pub IsBias : Heap F → Bool → Option ℕ → Option Tensor → List F → Type 0
  IsBias h true (some bias) (some t) values = IsParameter h bias t values
  IsBias h true bias t values = true ≡ false
  IsBias h false bias t values = values ≡ []

  abbrev pub bias_bytes : Bool → Option Tensor → List F → List ℕ
  bias_bytes true (some t) values = payload_bytes t.shape values []
  bias_bytes use_bias t values = []

  -- The bytes of a checkpoint.
  unfoldable pub module_bytes : LinearState → Tensor → List F → Option Tensor → List F → List ℕ
  module_bytes s t values bias_tensor bias_values =
      checkpoint_magic
      ++ (bytes_of 4 checkpoint_version
          ++ (bytes_of 8 (to_u64 s.in_features)
              ++ (bytes_of 8 (to_u64 s.out_features)
                  ++ (bytes_of 1 (if s.use_bias then 1 else 0)
                      ++ payload_bytes t.shape values
                          (bias_bytes s.use_bias bias_tensor bias_values)))))

  save_bias-Writes :
      (h : Heap F) (use_bias : Bool) (bias : Option ℕ) (t : Option Tensor) (values : List F)
      → IsBias h use_bias bias t values
      → Writes h (save_bias use_bias bias) (bias_bytes use_bias t values)
  unfolding save_bias
  save_bias-Writes h false bias t values p = nothing-Writes h
  save_bias-Writes h true (some bias) (some t) values p = save_tensor-Writes h bias t values p
  save_bias-Writes h true (some bias) none values p = cc
  save_bias-Writes h true none t values p = cc

  put-Writes :
      (h : Heap F) (bytes : List ℕ) (message : String)
      → Writes h (in_sink (put bytes message)) bytes
  put-Writes h bytes message = in_sink-Writes h (put bytes message) bytes (put-Adds bytes message)

  -- What is in the stream before the flush.
  pub save_module-Writes :
      (h : Heap F) (s : LinearState) (t : Tensor) (values : List F) (bias_tensor : Option Tensor)
      (bias_values : List F)
      → IsParameter h s.weight t values
      → IsBias h s.use_bias s.bias bias_tensor bias_values
      → Writes h (save_module s) (module_bytes s t values bias_tensor bias_values)
  unfolding save_module module_bytes
  save_module-Writes h s t values bias_tensor bias_values w b =
      let header : String = "module_save: failed to write checkpoint header" in
      let bytes = bias_bytes s.use_bias bias_tensor bias_values in
      Writes->> h (in_sink (put checkpoint_magic header)) _ _ _
        (put-Writes h checkpoint_magic header)
        (Writes->> h (in_sink (put (bytes_of 4 checkpoint_version) header)) _ _ _
          (put-Writes h (bytes_of 4 checkpoint_version) header)
          (Writes->> h (in_sink (put (bytes_of 8 (to_u64 s.in_features)) header)) _ _ _
            (put-Writes h (bytes_of 8 (to_u64 s.in_features)) header)
            (Writes->> h (in_sink (put (bytes_of 8 (to_u64 s.out_features)) header)) _ _ _
              (put-Writes h (bytes_of 8 (to_u64 s.out_features)) header)
              (Writes->> h (in_sink (put (bytes_of 1 (if s.use_bias then 1 else 0)) header)) _ _ _
                (put-Writes h (bytes_of 1 (if s.use_bias then 1 else 0)) header)
                (subst (Writes h (save_tensor s.weight >> save_bias s.use_bias s.bias))
                  (append-payload_bytes t.shape values [] bytes)
                  (Writes->> h (save_tensor s.weight) _ _ _
                    (save_tensor-Writes h s.weight t values w)
                    (save_bias-Writes h s.use_bias s.bias bias_tensor bias_values b)))))))
