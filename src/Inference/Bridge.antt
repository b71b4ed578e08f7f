-- ===== src/Inference/Bridge.antt =====
-- native/src/inference/inference_bridge.h: what the C interface of inference uses of a bridge, as a
-- record of operations on the process and the bridge's own state `B`.
use Prim.Native.String.{String}
use tensora.Core.Status.{Status}
use tensora.Heap.{M}
use tensora.Registry.Entries.{HandleType}
use tensora.Registry.{Registry, insert, lookup}
use tensora.Api.{World}
use tensora.Steps.{Result, Steps, from_status, Output}
use tensora.Steps.Frame.{Frame, Keeps, from_status-Keeps}
use tensora.Prelude.{ℕ, ◌≡◌, refl, ◌∙◌, Bool, Option, some, List}

pub record Host (F B : Type 0) : Type 0 where
  pub world : World F
  pub bridge : B

abbrev pub Infer : Type 0 → Type 0 → Type 0 → Type 0
Infer F B A = Steps (Host F B) A

-- An Output is the pointer that the result is written through. A `shared_ptr<Tensor>` is none when
-- it is null.
pub record Bridge (F B : Type 0) : Type 0 where
  pub is_available : Output → Infer F B ℕ
  pub provider_count : Output → Infer F B ℕ
  pub provider_name : ℕ → Output → Infer F B String
  pub session_create : String → String → Bool → String → Output → Infer F B ℕ
  pub session_provider : ℕ → Output → Infer F B String
  pub session_input_count : ℕ → Output → Infer F B ℕ
  pub session_output_count : ℕ → Output → Infer F B ℕ
  pub session_input_name : ℕ → ℕ → Output → Infer F B String
  pub session_output_name : ℕ → ℕ → Output → Infer F B String
  pub session_run :
      ℕ → List String → List (Option ℕ) → List String → Output → Infer F B (List (Option ℕ))
  pub session_end_profiling : ℕ → Output → Infer F B String
  pub session_release : ℕ → Infer F B (Unit {0})

module _ {F B : Type 0} where
  -- Steps of the code below, on the heap or the registry.
  abbrev pub on_objects : {A : Type 0} → M F A → Infer F B A
  on_objects m p =
      let (r, h) = m p.world.heap in (r, record p { world = record p.world { heap = h } })

  abbrev pub find_in : ℕ → HandleType → Infer F B ℕ
  find_in handle type p = from_status (lookup handle type p.world.registry) p

  abbrev with_registry : Host F B → Status × Option ℕ × Registry ℕ → Result ℕ × Host F B
  with_registry p (s, out, r) =
      from_status (s, out) (record p { world = record p.world { registry = r } })

  abbrev pub insert_in : HandleType → ℕ → Infer F B ℕ
  insert_in type object p = with_registry p (insert type (some object) (some 0) p.world.registry)

-- The registry is the same.
abbrev pub registry_frame : (F B : Type 0) → Frame (Host F B)
registry_frame F B = record {
  Same = λ p q. q.world.registry ≡ p.world.registry;
  nothing = λ p. refl;
  further = λ p q s a b. b ∙ a;
}

-- What the C interface relies on: a run of a session gives out no handle and takes none back.
pub record LeavesRegistry {F B : Type 0} (bridge : Bridge F B) : Type 0 where
  pub session_run :
      (session : ℕ) (names : List String) (inputs : List (Option ℕ)) (outputs : List String)
      (out : Output)
      → Keeps (registry_frame F B) (bridge.session_run session names inputs outputs out)

module _ (F B : Type 0) where
  pub find_in-Keeps :
      (handle : ℕ) (type : HandleType) → Keeps (registry_frame F B) (find_in handle type)
  unfolding Keeps
  find_in-Keeps handle type p =
      from_status-Keeps (registry_frame F B) (lookup handle type p.world.registry) p
