-- ===== src/Autograd/Topology.antt =====
-- native/src/autograd/autograd.h: the depth of the traversal of the recorded graph.
use tensora.Heap.{Heap}
use tensora.Autograd.Graph.{grad_fn_of, parents_of, contains, Walk, walk_all, build_topology}
use tensora.Prelude.{
  ℕ, zero, suc, ◌+◌, ◌<◌, ◌≤◌, ◌==◌, false, Option, some, List, [], ◌∷◌, ◌++◌, ◌≡◌, refl, length,
  All, subst, inl, inr, if◌then◌else◌, Bool-cases, arith, ==→≡, ≡→==,
}

-- The tensors that are named by addresses below `n` and not visited yet.
unfoldable fresh : ℕ → List ℕ → ℕ
fresh zero visited = 0
fresh (suc n) visited = (if contains n visited then 0 else 1) + fresh n visited

fresh-visit_le : (n a : ℕ) (visited : List ℕ) → fresh n (a ∷ visited) ≤ fresh n visited
unfolding fresh
fresh-visit_le zero a visited = ground arith
fresh-visit_le (suc n) a visited = ground (arith, fresh-visit_le n a visited)

fresh-visit_lt :
    (n a : ℕ) (visited : List ℕ)
    → a < n
    → contains a visited ≡ false
    → fresh n (a ∷ visited) < fresh n visited
unfolding fresh
fresh-visit_lt zero a visited a<n new = ground arith
fresh-visit_lt (suc n) a visited a<n new = elim (Bool-cases (a == n)) [
  | inl same ↦
      let seen : contains n visited ≡ false =
        subst (λ b. contains b visited ≡ false) (==→≡ a n same) new in
      ground (arith, same, seen, fresh-visit_le n a visited)
  | inr other ↦
      ground (arith, other, fresh-visit_lt n a visited (ground (arith, other, ≡→== a n)) new)
]

-- Every recorded parent is a tensor of the heap.
abbrev pub IsClosed : {F : Type 0} → Heap F → Type 0
IsClosed h = (a : ℕ) → All (λ p. p < length h.tensors) (parents_of (grad_fn_of h a))

-- A traversal that returns, and visits no fewer tensors than before.
abbrev Returns : ℕ → Walk → Option Walk → Type 0
Returns n w o = (w' : Walk) × (o ≡ some w') × (fresh n w'.visited ≤ fresh n w.visited)

walk_all-Returns :
    (n : ℕ) (visit : ℕ → Walk → Option Walk) (depth : ℕ)
    → ((p : ℕ) (w : Walk) → p < n → fresh n w.visited < depth → Returns n w (visit p w))
    → (ps : List ℕ) (w : Walk) → All (λ p. p < n) ps
    → fresh n w.visited < depth
    → Returns n w (walk_all visit ps w)
unfolding walk_all
walk_all-Returns n visit depth visits [] w small enough = (w, refl, ground arith)
walk_all-Returns n visit depth visits (p ∷ ps) w small enough =
    let (w₁, visited, less) = visits p w small.0 enough in
    let (w₂, walked, lesser) =
      walk_all-Returns n visit depth visits ps w₁ small.1 (ground (arith, less, enough)) in
    (w₂, ground (arith, visited, walked), ground (arith, less, lesser))

build_topology-Returns :
    {F : Type 0} (h : Heap F)
    → IsClosed h
    → (depth value : ℕ) (w : Walk) → value < length h.tensors
    → fresh (length h.tensors) w.visited < depth
    → Returns (length h.tensors) w (build_topology h depth value w)
unfolding build_topology
build_topology-Returns h closed zero value w known enough = ground arith
build_topology-Returns h closed (suc depth) value w known enough =
    elim (Bool-cases (contains value w.visited)) [
      | inl seen ↦ (w, ground (arith, seen), ground arith)
      | inr new ↦
          let drop = fresh-visit_lt (length h.tensors) value w.visited known new in
          let (w₁, walked, less) =
            walk_all-Returns (length h.tensors) (build_topology h depth) depth
              (build_topology-Returns h closed depth) (parents_of (grad_fn_of h value))
              (record w { visited = value ∷ w.visited }) (closed value)
              (ground (arith, drop, enough)) in
          (
            record w₁ { topology = w₁.topology ++ value ∷ [] },
            ground (arith, new, walked),
            ground (arith, drop, less),
          )
    ]

-- The fresh tensors at the start of a traversal.
fresh-nothing : (n : ℕ) → fresh n [] ≡ n
unfolding fresh
fresh-nothing zero = refl
fresh-nothing (suc n) = ground (arith, fresh-nothing n)

-- As deep as there are tensors is deep enough.
pub build_topology-done :
    {F : Type 0} (h : Heap F) (root : ℕ)
    → IsClosed h
    → root < length h.tensors
    → (w : Walk) × (build_topology h
          (suc (length h.tensors))
          root
          (record { visited = []; topology = [] })
        ≡ some w)
build_topology-done h root closed known =
    let (w, returned, less) =
      build_topology-Returns h closed (suc (length h.tensors)) root
        (record { visited = []; topology = [] }) known
        (ground (arith, fresh-nothing (length h.tensors))) in
    (w, returned)
