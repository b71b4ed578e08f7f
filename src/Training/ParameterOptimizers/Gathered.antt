-- ===== src/Training/ParameterOptimizers/Gathered.antt =====
-- native/src/training/nn_v2_optimizer.h: the tensors that CollectParameters gathers.
use tensora.Tensor.{Tensor}
use tensora.Storage.{Storage, StorageKind, cpu_kind, torch_kind, kind}
use tensora.Heap.{Heap}
use tensora.Steps.{Result}
use tensora.Autograd.Graph.{contains}
use tensora.Autograd.Values
use tensora.Training.ParameterOptimizers.{same_kind, Collected, fits}
use tensora.Prelude.{
  ℕ, ◌==◌, ◌≡◌, ◌≢◌, refl, subst, ◌||◌, true, false, Option, none, some, List, [], ◌∷◌, ◌++◌, ==→≡,
  All, get_elem?, Bool-cases, inl, inr, arith,
}

-- No number twice.
abbrev pub Distinct : List ℕ → Type 0
Distinct [] = Unit
Distinct (a ∷ rest) = (contains a rest ≡ false) × Distinct rest

-- A tensor of the heap that requires a gradient and has a storage of that kind.
pub record IsTrainable (F : Type 0) (h : Heap F) (k : StorageKind) (a : ℕ) : Type 0 where
  pub t : Tensor
  pub storage : Storage F
  pub found : get_elem? h.tensors a ≡ some t
  pub trainable : Values.requires_grad t h ≡ (Result.done true, h)
  pub stored : get_elem? h.storages t.storage ≡ some storage
  pub kinds : same_kind (kind storage) k ≡ true

-- The trainable tensors gathered so far, of the kind that the first one set.
abbrev pub OfOneKind : (F : Type 0) → Heap F → Option StorageKind → List ℕ → Type 0
OfOneKind F h none ps = ps ≡ []
OfOneKind F h (some k) ps = All (IsTrainable F h k) ps × (ps ≢ [])

-- What the loop keeps: parameters that were seen, no two the same, and trainable ones of one kind.
abbrev pub Keeping : (F : Type 0) → Heap F → Collected → Type 0
Keeping F h c =
    All (λ a. contains a c.seen ≡ true) c.parameters
    × Distinct c.parameters
    × OfOneKind F h c.kind c.parameters

pub All-snoc :
    {A : Type 0} (P : A → Type 0) (xs : List A) (x : A) → All P xs → P x → All P (xs ++ x ∷ [])
All-snoc P [] x h p = (p, tt)
All-snoc P (y ∷ xs) x (q, h) p = (q, All-snoc P xs x h p)

All-map :
    {A : Type 0} (P Q : A → Type 0) (xs : List A) → ((a : A) → P a → Q a) → All P xs → All Q xs
All-map P Q [] f h = tt
All-map P Q (x ∷ xs) f (p, h) = (f x p, All-map P Q xs f h)

snoc≢[] : (xs : List ℕ) (x : ℕ) → xs ++ x ∷ [] ≢ []
snoc≢[] [] x = λ h. cc
snoc≢[] (y ∷ xs) x = λ h. cc

contains-snoc :
    (a : ℕ) (xs : List ℕ) (x : ℕ) → contains a (xs ++ x ∷ []) ≡ (contains a xs || x == a)
contains-snoc a [] x = ground arith
contains-snoc a (y ∷ xs) x = ground (arith, contains-snoc a xs x)

pub Distinct-snoc :
    (xs : List ℕ) (x : ℕ) → Distinct xs → contains x xs ≡ false → Distinct (xs ++ x ∷ [])
Distinct-snoc [] x d f = (refl, tt)
Distinct-snoc (y ∷ xs) x (n, d) f =
    (ground (arith, contains-snoc y xs x), Distinct-snoc xs x d (ground arith))

-- A parameter that was not seen is not among those gathered.
pub unseen-fresh :
    (a : ℕ) (seen ps : List ℕ)
    → All (λ b. contains b seen ≡ true) ps
    → contains a seen ≡ false
    → contains a ps ≡ false
unseen-fresh a seen [] h f = refl
unseen-fresh a seen (p ∷ ps) (q, h) f = elim (Bool-cases (p == a)) [
  | inl same ↦ cc (subst (λ x. contains x seen ≡ true) (==→≡ p a same) q)
  | inr other ↦ rw other (unseen-fresh a seen ps h f)
]

pub seen-more :
    (a : ℕ) (seen ps : List ℕ)
    → All (λ b. contains b seen ≡ true) ps
    → All (λ b. contains b (a ∷ seen) ≡ true) ps
seen-more a seen ps = All-map _ _ ps (λ b h. ground (arith, h))

same_kind_refl : (k : StorageKind) → same_kind k k ≡ true
same_kind_refl cpu_kind = refl
same_kind_refl torch_kind = refl

pub OfOneKind-snoc :
    (F : Type 0) (h : Heap F) (o : Option StorageKind) (k : StorageKind) (ps : List ℕ) (a : ℕ)
    → OfOneKind F h o ps
    → fits o k ≡ true
    → ((j : StorageKind) → same_kind k j ≡ true → IsTrainable F h j a)
    → OfOneKind F h (elim o [ none ↦ some k | some batch ↦ some batch ]) (ps ++ a ∷ [])
OfOneKind-snoc F h none k ps a nothing fit trainable =
    rw nothing ((trainable k (same_kind_refl k), tt), snoc≢[] [] a)
OfOneKind-snoc F h (some b) k ps a (all, _) fit trainable =
    (All-snoc (IsTrainable F h b) ps a all (trainable b fit), snoc≢[] ps a)

-- What CollectParameters starts from.
pub nothing-Keeping :
    (F : Type 0) (h : Heap F) → Keeping F h (record { seen = []; kind = none; parameters = [] })
nothing-Keeping F h = (tt, tt, refl)
