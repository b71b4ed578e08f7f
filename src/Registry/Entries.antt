-- ===== src/Registry/Entries.antt =====
-- native/src/runtime/handle_registry.h: the `unordered_map<uint64_t, Entry>` as an association list
-- with distinct keys.
use tensora.Prelude.{ℕ, Bool, Option, none, some, List, [], ◌∷◌, ◌==◌, if◌then◌else◌}

-- `HandleType`
pub data HandleType : Type 0 where
  tensor_handle runtime_reserved module_handle optimizer_handle : HandleType
  inference_session parameter_optimizer : HandleType

abbrev pub type_code : HandleType → ℕ
type_code tensor_handle = 1
type_code runtime_reserved = 2
type_code module_handle = 3
type_code optimizer_handle = 4
type_code inference_session = 5
type_code parameter_optimizer = 6

-- `a == b`
unfoldable pub same_type : HandleType → HandleType → Bool
same_type a b = type_code a == type_code b

-- `HandleRegistry::Entry`. The object is what the `shared_ptr` owns.
pub record Entry (A : Type 0) : Type 0 where
  pub type : HandleType
  pub refs : ℕ
  pub object : A

abbrev pub Table : Type 0 → Type 0
Table A = List (ℕ × Entry A)

module _ {A : Type 0} where
  unfoldable pub find : ℕ → Table A → Option (Entry A)
  find h [] = none
  find h ((k, e) ∷ m) = if k == h then some e else find h m

  unfoldable pub erase : ℕ → Table A → Table A
  erase h [] = []
  erase h ((k, e) ∷ m) = if k == h then m else (k, e) ∷ erase h m

  -- A new reference count for the entry of `h`.
  unfoldable pub set_refs : ℕ → ℕ → Table A → Table A
  set_refs h n [] = []
  set_refs h n ((k, e) ∷ m) =
      if k == h then (k, record e { refs = n }) ∷ m else (k, e) ∷ set_refs h n m
