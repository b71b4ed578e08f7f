-- ===== src/Autograd/Graph.antt =====
-- native/src/autograd/autograd.h: recording the graph, checking saved versions, and its order.
-- Every tensor here is owned by a `shared_ptr`, so `Share` succeeds; every recorded parent exists.
use tensora.Core.Status.{fail_argument, fail_internal}
use tensora.Heap.{
  M, Operation, op_bias_add, GradNode, Heap, load_tensor, store_tensor, new_meta, version,
}
use tensora.Steps.{◌>>=◌, ◌>>◌, check, return, undefined_unless}
use tensora.Autograd.Values.{requires_grad}
use tensora.Prelude.{
  ℕ, zero, suc, ◌==◌, ◌||◌, Bool, true, false, Option, none, some, List, [], ◌∷◌, ◌++◌, length,
  get_elem?, if◌then◌else◌,
}

module _ {F : Type 0} where
  -- The first loop of `AttachNode`, which stops at a parent that needs a gradient.
  unfoldable pub any_requires_grad : List ℕ → M F Bool
  any_requires_grad [] = return false
  any_requires_grad (parent ∷ rest) = do
    t ← load_tensor parent
    needs ← requires_grad t
    if needs then return true else any_requires_grad rest

  -- The loop that saves the parents' versions.
  unfoldable pub saved_versions : List ℕ → M F (List ℕ)
  saved_versions [] = return []
  saved_versions (parent ∷ rest) = do
    t ← load_tensor parent
    v ← version t
    vs ← saved_versions rest
    return (v ∷ vs)

  -- `AttachNode`, past its first test.
  unfoldable pub attach : ℕ → Operation → List ℕ → M F (Unit {0})
  unfolding saved_versions
  attach result operation parents = do
    versions ← saved_versions parents
    m ← new_meta (record {
      requires_grad = true;
      is_leaf = false;
      gradient = none;
      grad_fn =
          some (record { operation = operation; parents = parents; parent_versions = versions });
    })
    t ← load_tensor result
    store_tensor result (record t { autograd_meta = some m })

  -- `AttachNode`
  unfoldable pub attach_node : ℕ → Operation → List ℕ → M F (Unit {0})
  unfolding any_requires_grad attach
  attach_node result operation parents = do
    needs ← any_requires_grad parents
    if needs then attach result operation parents else return tt

  -- `RecordUnary`
  unfoldable pub record_unary : Operation → ℕ → ℕ → M F (Unit {0})
  unfolding attach_node requires_grad
  record_unary operation input result = do
    t ← load_tensor input
    needs ← requires_grad t
    if needs then attach_node result operation (input ∷ []) else return tt

  -- `RecordBinary`
  unfoldable pub record_binary : Operation → ℕ → ℕ → ℕ → M F (Unit {0})
  unfolding attach_node requires_grad
  record_binary operation left right result = do
    l ← load_tensor left
    left_needs ← requires_grad l
    r ← load_tensor right
    right_needs ← requires_grad r
    if left_needs || right_needs
        then attach_node result operation (left ∷ right ∷ [])
        else return tt

  -- `RecordBiasAdd`
  unfoldable pub record_bias_add : ℕ → ℕ → ℕ → M F (Unit {0})
  unfolding record_binary
  record_bias_add = record_binary op_bias_add

  -- The loop of `ValidateSavedVersions`.
  unfoldable pub check_versions : List ℕ → List ℕ → M F (Unit {0})
  check_versions [] versions = return tt
  check_versions (parent ∷ rest) [] = undefined_unless none
  check_versions (parent ∷ rest) (saved ∷ versions) = do
    t ← load_tensor parent
    v ← version t
    check (v == saved) (fail_argument "autograd: a saved tensor alias was modified before backward")
    check_versions rest versions

  -- `ValidateSavedVersions`
  unfoldable pub validate_saved_versions : GradNode → M F (Unit {0})
  unfolding check_versions
  validate_saved_versions node = do
    check (length node.parents == length node.parent_versions)
        (fail_internal "autograd: corrupt saved-version metadata")
    check_versions node.parents node.parent_versions

  -- The recorded node of a tensor.
  unfoldable pub grad_fn_of : Heap F → ℕ → Option GradNode
  grad_fn_of h a = elim (get_elem? h.tensors a) [
    | none ↦ none
    | some t ↦ elim t.autograd_meta [
      | none ↦ none
      | some m ↦ elim (get_elem? h.metas m) [ none ↦ none | some meta ↦ meta.grad_fn ]
    ]
  ]

abbrev pub contains : ℕ → List ℕ → Bool
contains a [] = false
contains a (b ∷ bs) = b == a || contains a bs

-- The sets `visited` and `topology` of a traversal.
pub record Walk : Type 0 where
  pub visited : List ℕ
  pub topology : List ℕ

abbrev pub parents_of : Option GradNode → List ℕ
parents_of none = []
parents_of (some node) = node.parents

-- The loop over a node's parents, given the traversal of one.
unfoldable pub walk_all : (ℕ → Walk → Option Walk) → List ℕ → Walk → Option Walk
walk_all visit [] w = some w
walk_all visit (p ∷ ps) w = elim (visit p w) [ none ↦ none | some w' ↦ walk_all visit ps w' ]

-- The end of `BuildTopology`.
abbrev pub push_value : ℕ → Option Walk → Option Walk
push_value value none = none
push_value value (some w) = some (record w { topology = w.topology ++ value ∷ [] })

-- `BuildTopology`, with the depth of recursion bounded; `none` means that the bound was met.
unfoldable pub build_topology : {F : Type 0} → Heap F → ℕ → ℕ → Walk → Option Walk
unfolding walk_all
build_topology h zero value w = none
build_topology h (suc depth) value w =
    if contains value w.visited
    then some w
    else push_value value (
        walk_all (build_topology h depth) (parents_of (grad_fn_of h value))
          (record w { visited = value ∷ w.visited }))
