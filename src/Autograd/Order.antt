-- ===== src/Autograd/Order.antt =====
-- native/src/autograd/autograd.h: the order in which the traversal lists the tensors.
use tensora.Heap.{Heap}
use tensora.Steps.{Result}
use tensora.Autograd.Graph.{grad_fn_of, parents_of, contains, Walk, walk_all, build_topology}
use tensora.Autograd.Topology.{IsClosed, build_topology-done}
use tensora.Autograd.Backward.{topology_of}
use tensora.Prelude.{
  ℕ, zero, suc, ◌<◌, ◌==◌, ◌||◌, true, Option, some, List, [], ◌∷◌, ◌++◌, ◌≡◌, subst, length, All,
  inl, inr, Bool-cases, Option-cases, arith,
}

-- The parents of a result are made before it, as the functions that record them do.
abbrev pub IsOrdered : {F : Type 0} → Heap F → Type 0
IsOrdered h = (a : ℕ) → All (λ p. p < a) (parents_of (grad_fn_of h a))

-- Each tensor of a list comes after all of its parents, of which some may have been seen before.
abbrev pub ParentsFirst : {F : Type 0} → Heap F → List ℕ → List ℕ → Type 0
ParentsFirst h seen [] = Unit
ParentsFirst h seen (v ∷ l) =
    All (λ p. contains p seen ≡ true) (parents_of (grad_fn_of h v)) × ParentsFirst h (v ∷ seen) l

All-map : {P Q : ℕ → Type 0} → ((a : ℕ) → P a → Q a) → (l : List ℕ) → All P l → All Q l
All-map f [] h = tt
All-map f (x ∷ l) h = (f x h.0, All-map f l h.1)

ParentsFirst-last :
    {F : Type 0} (h : Heap F) (v : ℕ) (l seen : List ℕ)
    → ParentsFirst h seen l
    → All (λ p. (contains p seen || contains p l) ≡ true) (parents_of (grad_fn_of h v))
    → ParentsFirst h seen (l ++ v ∷ [])
ParentsFirst-last h v [] seen first known =
    (All-map (λ p k. ground (arith, k)) (parents_of (grad_fn_of h v)) known, tt)
ParentsFirst-last h v (x ∷ l) seen first known = (
  first.0,
  ParentsFirst-last h v l (x ∷ seen) first.1
      (All-map (λ p k. ground (arith, k)) (parents_of (grad_fn_of h v)) known),
)

contains-last : (a v : ℕ) (l : List ℕ) → contains a (l ++ v ∷ []) ≡ (contains a l || v == a)
contains-last a v [] = ground arith
contains-last a v (x ∷ l) = ground (arith, contains-last a v l)

-- What a traversal below `bound` needs: what is visited there is listed.
abbrev IsListed : Walk → ℕ → Type 0
IsListed w bound = (a : ℕ) → a < bound → contains a w.visited ≡ true → contains a w.topology ≡ true

module _ {F : Type 0} (h : Heap F) where
  -- What a traversal does: the list grows in order, and what it visits it lists.
  abbrev Extends : Walk → Walk → Type 0
  Extends w w' =
      ParentsFirst h [] w'.topology
      × ((a : ℕ) → contains a w.topology ≡ true → contains a w'.topology ≡ true)
      × ((a : ℕ)
          → contains a w'.visited ≡ true
          → (contains a w'.topology || contains a w.visited) ≡ true)

  -- A traversal of one tensor, as `walk_all` takes it.
  abbrev IsVisit : ℕ → (ℕ → Walk → Option Walk) → Type 0
  IsVisit bound visit =
      (p : ℕ) (w w' : Walk)
      → p < bound
      → ParentsFirst h [] w.topology
      → IsListed w (suc p)
      → visit p w ≡ some w'
      → Extends w w' × (contains p w'.topology ≡ true)

  walk_all-Extends :
      (bound : ℕ) (visit : ℕ → Walk → Option Walk)
      → IsVisit bound visit
      → (ps : List ℕ) (w w' : Walk) → All (λ p. p < bound) ps
      → ParentsFirst h [] w.topology
      → IsListed w bound
      → walk_all visit ps w ≡ some w'
      → Extends w w' × All (λ p. contains p w'.topology ≡ true) ps
  unfolding walk_all
  walk_all-Extends bound visit visits [] w w' small first listed walked =
      let same : w ≡ w' = ground (arith, walked) in
      subst (λ u. Extends w u × Unit {0}) same ((first, (λ a k. k), (λ a k. ground (arith, k))), tt)
  walk_all-Extends bound visit visits (p ∷ ps) w w' small first listed walked =
      elim (Option-cases (visit p w)) [
        | inl stopped ↦ ground (arith, walked, stopped)
        | inr (w₁, visited) ↦
            let (e₁, in₁) =
              visits p w w₁ small.0 first (λ a a<p. listed a (ground (arith, a<p, small.0)))
                visited in
            let (e₂, in₂) =
              walk_all-Extends bound visit visits ps w₁ w' small.1 e₁.0
                (λ a a<b seen. ground (arith, e₁.2 a seen, e₁.1 a, listed a a<b))
                (ground (arith, walked, visited)) in
            (
              (e₂.0, (λ a k. e₂.1 a (e₁.1 a k)), (λ a k. ground (arith, e₂.2 a k, e₁.2 a, e₂.1 a))),
              (e₂.1 p in₁, in₂),
            )
      ]

  -- The end of a traversal: the tensor itself goes after its parents.
  push_value-Extends :
      (value : ℕ) (w w₁ : Walk)
      → Extends (record w { visited = value ∷ w.visited }) w₁
      → All (λ p. contains p w₁.topology ≡ true) (parents_of (grad_fn_of h value))
      → Extends w (record w₁ { topology = w₁.topology ++ value ∷ [] })
        × (contains value (w₁.topology ++ value ∷ []) ≡ true)
  push_value-Extends value w w₁ e known = (
    (
      ParentsFirst-last h value w₁.topology [] e.0 known,
      (λ a k. ground (arith, contains-last a value w₁.topology, e.1 a k)),
      (λ a k. ground (arith, contains-last a value w₁.topology, e.2 a k)),
    ),
    ground (arith, contains-last value value w₁.topology),
  )

  build_topology-Extends :
      IsOrdered h
      → (depth : ℕ) → (value : ℕ) (w w' : Walk) → ParentsFirst h [] w.topology
      → IsListed w (suc value)
      → build_topology h depth value w ≡ some w'
      → Extends w w' × (contains value w'.topology ≡ true)
  unfolding build_topology
  build_topology-Extends ordered zero value w w' first listed built = ground (arith, built)
  build_topology-Extends ordered (suc depth) value w w' first listed built =
      elim (Bool-cases (contains value w.visited)) [
        | inl seen ↦
            let same : w ≡ w' = ground (arith, built, seen) in
            subst (λ u. Extends w u × (contains value u.topology ≡ true)) same
              ((first, (λ a k. k), (λ a k. ground (arith, k))), listed value (ground arith) seen)
        | inr new ↦
            elim (Option-cases (
              walk_all (build_topology h depth) (parents_of (grad_fn_of h value))
                (record w { visited = value ∷ w.visited }))) [
                  | inl stopped ↦ ground (arith, built, new, stopped)
                  | inr (w₁, walked) ↦
                      let (e, known) =
                        walk_all-Extends value (build_topology h depth)
                          (λ p u u' p<v. build_topology-Extends ordered depth p u u')
                          (parents_of (grad_fn_of h value))
                          (record w { visited = value ∷ w.visited }) w₁ (ordered value) first
                          (λ a a<v seen. listed a (ground (arith, a<v)) (ground (arith, a<v, seen)))
                          walked in
                      let same : record w₁ { topology = w₁.topology ++ value ∷ [] } ≡ w' =
                        ground (arith, built, new, walked) in
                      subst (λ u. Extends w u × (contains value u.topology ≡ true)) same
                        (push_value-Extends value w w₁ e known)
                ]
      ]

-- In a heap whose recorded parents exist and were made before the tensors they are parents of, the
-- traversal from a tensor of the heap returns; its list has this tensor, and each tensor in it comes
-- after all of its parents. The heap is as it was.
pub topology_of-ParentsFirst :
    {F : Type 0} (h : Heap F) (root : ℕ)
    → IsOrdered h
    → IsClosed h
    → root < length h.tensors
    → (topology : List ℕ) × (topology_of root h ≡ (Result.done topology, h))
      × ParentsFirst h [] topology
      × (contains root topology ≡ true)
unfolding topology_of
topology_of-ParentsFirst h root ordered closed known =
    let (w, built) = build_topology-done h root closed known in
    let (e, listed) =
      build_topology-Extends h ordered (suc (length h.tensors)) root
        (record { visited = []; topology = [] }) w tt (λ a a<r seen. ground (arith, seen)) built in
    (w.topology, ground (arith, built), e.0, listed)
