-- ===== src/Training/Checkpoint/Prefix.antt =====
-- native/src/training/training_bridge_stub.cc: ModuleLoad on a file with bytes cut off its end.
use Prim.Native.String.{String}
use tensora.Core.Status.{Status, is_ok}
use tensora.Shape.{validate_shape, ShapeInfo}
use tensora.Memory.{dimensions_pointer, default_shape}
use tensora.Tensor.{Tensor}
use tensora.Steps.{
  Result, Steps, and_then, ◌>>=◌, ◌>>◌, return, fail, check, undefined_unless, to_caller,
}
use tensora.Training.Bytes.{FloatBits, read_bytes, split_bytes, read_scalar}
use tensora.Training.State.{LinearState, Process, FileName, on_tensors, lookup_module}
use tensora.Training.Checkpoint.{
  read_dimensions, read_shape, read_floats, read_tensor_payload, read_bias, at_end, read_checkpoint,
  read_module, load_bias, open_for_reading, assign_module, module_load,
}
use tensora.Prelude.{
  ℕ, zero, suc, ◌≡◌, ◌<◌, lt→ltb, ◌≢◌, refl, Bool, true, false, Option, none, some, List, [], ◌∷◌,
  ◌++◌, ℤ, length, get_elem?, Bool-cases, Option-cases, inl, inr, arith,
}

-- A read that succeeds reads the same where more bytes follow, and leaves them.
unfoldable Extends : {A : Type 0} → Steps (List ℕ) A → Type 0
Extends {A} m =
    (xs ys : List ℕ) (a : A) (rest : List ℕ)
    → m xs ≡ (Result.done a, rest)
    → m (xs ++ ys) ≡ (Result.done a, rest ++ ys)

after_read :
    {A B : Type 0} (f : A → Steps (List ℕ) B) (ys : List ℕ) (b : B) (rest : List ℕ)
    → ((a : A) → Extends (f a))
    → (x y : Result A × List ℕ)
    → ((a : A) (r : List ℕ) → x ≡ (Result.done a, r) → y ≡ (Result.done a, r ++ ys))
    → and_then x f ≡ (Result.done b, rest)
    → and_then y f ≡ (Result.done b, rest ++ ys)
unfolding Extends
after_read f ys b rest extends (Result.done a, r) y same e =
    rw (same a r refl) (extends a r ys b rest e)
after_read f ys b rest extends (Result.failed s, r) y same e = cc
after_read f ys b rest extends (Result.threw s, r) y same e = cc
after_read f ys b rest extends (Result.undefined, r) y same e = cc

bind-Extends :
    {A B : Type 0} (m : Steps (List ℕ) A) (f : A → Steps (List ℕ) B)
    → Extends m
    → ((a : A) → Extends (f a))
    → Extends (m >>= f)
unfolding Extends
bind-Extends m f x y xs ys b rest e =
    after_read f ys b rest y (m xs) (m (xs ++ ys)) (λ a r. x xs ys a r) e

return-Extends : {A : Type 0} (a : A) → Extends (return a)
unfolding Extends
return-Extends a xs ys b rest e = cc

check-Extends : (b : Bool) (s : Status) → Extends (check b s)
unfolding Extends
check-Extends true s xs ys b rest e = cc
check-Extends false s xs ys b rest e = cc

fail-Extends : (A : Type 0) (s : Status) → Extends {A = A} (fail s)
unfolding Extends
fail-Extends A s xs ys b rest e = cc

undefined_unless-Extends : {A : Type 0} (o : Option A) → Extends (undefined_unless o)
unfolding Extends
undefined_unless-Extends none xs ys b rest e = cc
undefined_unless-Extends (some a) xs ys b rest e = return-Extends a xs ys b rest e

split_bytes-append :
    (n : ℕ) (xs ys taken rest : List ℕ)
    → split_bytes n xs ≡ some (taken, rest)
    → split_bytes n (xs ++ ys) ≡ some (taken, rest ++ ys)
unfolding split_bytes
split_bytes-append zero xs ys taken rest e = cc
split_bytes-append (suc n) [] ys taken rest e = cc
split_bytes-append (suc n) (b ∷ xs) ys taken rest e = elim (Option-cases (split_bytes n xs)) [
  | inl short ↦ cc (rw short at e)
  | inr ((taken', rest'), found) ↦
      let e' = rw found at e in rw (split_bytes-append n xs ys taken' rest' found) cc
]

read_bytes-Extends : (n : ℕ) (message : String) → Extends (read_bytes n message)
unfolding Extends read_bytes
read_bytes-Extends n message xs ys a rest e = elim (Option-cases (split_bytes n xs)) [
  | inl short ↦ cc (rw short at e)
  | inr ((taken, left), found) ↦
      let e' = rw found at e in rw (split_bytes-append n xs ys taken left found) cc
]

read_scalar-Extends : (width : ℕ) (message : String) → Extends (read_scalar width message)
unfolding read_scalar
read_scalar-Extends width message =
    bind-Extends _ _ (read_bytes-Extends width message) (λ bytes. return-Extends _)

read_dimensions-Extends : (rank : ℕ) → Extends (read_dimensions rank)
unfolding read_dimensions
read_dimensions-Extends zero = return-Extends []
read_dimensions-Extends (suc rank) =
    bind-Extends _ _ (read_scalar-Extends 8 _)
      (λ n. bind-Extends _ _ (read_dimensions-Extends rank) (λ rest. return-Extends _))

read_shape-Extends : (dims : List ℤ) → Extends (read_shape dims)
unfolding read_shape
read_shape-Extends dims =
    elim (Bool-cases
      (is_ok (validate_shape (dimensions_pointer dims) (length dims) (some default_shape)).0)) [
        | inl fine ↦ rw fine (undefined_unless-Extends _)
        | inr refused ↦ rw refused (fail-Extends ShapeInfo _)
      ]

module _ (F : Type 0) ⦃bits : FloatBits F⦄ where
  read_floats-Extends : (numel : ℕ) → Extends (read_floats {F = F} numel)
  unfolding read_floats
  read_floats-Extends zero = return-Extends []
  read_floats-Extends (suc numel) =
      bind-Extends _ _ (read_scalar-Extends 4 _)
        (λ n. bind-Extends _ _ (read_floats-Extends numel) (λ rest. return-Extends _))

  read_tensor_payload-Extends :
      (expected : ShapeInfo) → Extends (read_tensor_payload {F = F} expected to_caller)
  unfolding read_tensor_payload
  read_tensor_payload-Extends expected = bind-Extends _ _ (read_scalar-Extends 8 _) (λ rank.
      bind-Extends _ _ (check-Extends _ _) (λ small.
        bind-Extends _ _ (read_dimensions-Extends rank) (λ dims.
          bind-Extends _ _ (read_shape-Extends dims) (λ shape.
            bind-Extends _ _ (check-Extends _ _) (λ same.
              bind-Extends _ _ (read_scalar-Extends 8 _) (λ numel.
                bind-Extends _ _ (check-Extends _ _) (λ full. read_floats-Extends numel)))))))

  read_bias-Extends : (use_bias : Bool) (t : Option Tensor) → Extends (read_bias {F = F} use_bias t)
  unfolding read_bias
  read_bias-Extends false t = return-Extends []
  read_bias-Extends true t =
      bind-Extends _ _ (undefined_unless-Extends t) (λ b. read_tensor_payload-Extends b.shape)

  read_checkpoint-Extends :
      (s : LinearState) (weight : Tensor) (bias : Option Tensor)
      → Extends (read_checkpoint {F = F} s weight bias)
  unfolding read_checkpoint
  read_checkpoint-Extends s weight bias = bind-Extends _ _ (read_bytes-Extends 8 _) (λ magic.
      bind-Extends _ _ (check-Extends _ _) (λ known.
        bind-Extends _ _ (read_scalar-Extends 4 _) (λ version.
          bind-Extends _ _ (read_scalar-Extends 8 _) (λ in_features.
            bind-Extends _ _ (read_scalar-Extends 8 _) (λ out_features.
              bind-Extends _ _ (read_scalar-Extends 1 _) (λ use_bias.
                bind-Extends _ _ (check-Extends _ _) (λ compatible.
                  bind-Extends _ _ (read_tensor_payload-Extends weight.shape) (λ values.
                    bind-Extends _ _ (read_bias-Extends s.use_bias bias)
                      (λ bias_values. return-Extends _)))))))))

finished :
    {V : Type 0} (x : Result V × List ℕ) (v : V) (rest : List ℕ)
    → and_then x (λ values. at_end >> return values) ≡ (Result.done v, rest)
    → x ≡ (Result.done v, [])
unfolding at_end
finished (Result.done w, []) v rest e = cc
finished (Result.done w, b ∷ left) v rest e = ground (arith, e)
finished (Result.failed s, left) v rest e = cc
finished (Result.threw s, left) v rest e = cc
finished (Result.undefined, left) v rest e = cc

module _ {F : Type 0} ⦃bits : FloatBits F⦄ where
  -- No checkpoint of a module begins another one.
  cut-unreadable :
      (s : LinearState) (t : Tensor) (bias : Option Tensor) (cut ys : List ℕ) (y : ℕ)
      (v w : List F × List F) (rest left : List ℕ)
      → read_module s t bias (cut ++ y ∷ ys) ≡ (Result.done v, rest)
      → read_module s t bias cut ≢ (Result.done w, left)
  unfolding read_module Extends
  cut-unreadable s t bias cut ys y v w rest left whole part =
      let part' = finished (read_checkpoint s t bias cut) w left part in
      let whole' = finished (read_checkpoint s t bias (cut ++ y ∷ ys)) v rest whole in
      let more = read_checkpoint-Extends F s t bias cut (y ∷ ys) w [] part' in cc

  refused :
      {D G : Type 0} (s : LinearState) (p : Process F D G) (x : Result (List F × List F) × List ℕ)
      → ((v : List F × List F) (left : List ℕ) → x ≢ (Result.done v, left))
      → ((and_then (x.0, p) (λ values. on_tensors (assign_module s values))).1 ≡ p)
        × ((and_then (x.0, p) (λ values. on_tensors (assign_module s values))).0 ≢ Result.done tt)
  refused s p (Result.done v, left) never = absurd (never v left refl)
  refused s p (Result.failed e, left) never = (refl, λ h. cc)
  refused s p (Result.threw e, left) never = (refl, λ h. cc)
  refused s p (Result.undefined, left) never = (refl, λ h. cc)

  -- ModuleLoad on a file with at least one byte cut off the end of one that could be read does not
  -- succeed, and it leaves everything as it was. The module's tensors and the file are there.
  pub module_load-cut :
      {D G : Type 0} (module_id a : ℕ) (path : FileName) (p : Process F D G) (s : LinearState)
      (t : Tensor) (bias : Option Tensor) (cut ys : List ℕ) (y : ℕ) (v : List F × List F)
      (rest : List ℕ)
      → 0 < length path
      → lookup_module module_id p ≡ (Result.done (a, s), p)
      → get_elem? p.world.heap.tensors s.weight ≡ some t
      → load_bias s.bias p ≡ (Result.done bias, p)
      → read_module s t bias (cut ++ y ∷ ys) ≡ (Result.done v, rest)
      → p.files path ≡ some cut
      → ((module_load module_id path p).1 ≡ p) × ((module_load module_id path p).0 ≢ Result.done tt)
  unfolding module_load open_for_reading
  module_load-cut module_id a path p s t bias cut ys y v rest named found weight bias_found whole
        file =
      rw (lt→ltb 0 (length path) named, found, file, weight, bias_found)
        (refused s p (read_module s t bias cut)
          (λ w left. cut-unreadable s t bias cut ys y v w rest left whole))
