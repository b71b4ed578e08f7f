-- ===== src/Autograd/Aliases.antt =====
-- native/src/autograd/autograd.h and native/src/tensor/tensor.cc: saved versions and the version
-- counter that views share, and the check of the saved versions where it passes.
use tensora.Tensor.{Tensor}
use tensora.Heap.{Heap, GradNode, increment_version, version}
use tensora.Steps.{Result}
use tensora.Autograd.Graph.{contains, check_versions, validate_saved_versions, grad_fn_of}
use tensora.Autograd.Backward.{check_grad_fn, check_all}
use tensora.Autograd.Versions.{
  current_version, IsCurrent, IsNodeCurrent, is_done, check_grad_fn-IsNodeCurrent,
}
use tensora.Prelude.{
  ℕ, zero, suc, ◌+◌, ◌<◌, ◌^◌, ◌%◌, true, false, Option, none, some, List, [], ◌∷◌, ◌≡◌, All, refl,
  subst, ◌==◌, ==→≡, Bool-cases, length, get_elem?, set, inl, inr, Option-cases, arith, ≡→==,
}

pub get_elem?-set {ℓ} :
    {A : Type ℓ} (xs : List A) (i : ℕ) (x y : A)
    → get_elem? xs i ≡ some y
    → get_elem? (set xs i x) i ≡ some x
get_elem?-set [] i x y found = ground (arith, found)
get_elem?-set (z ∷ xs) zero x y found = refl
get_elem?-set (z ∷ xs) (suc i) x y found = get_elem?-set xs i x y found

increment_version-current :
    {F : Type 0} (h : Heap F) (parent v : ℕ) (t p : Tensor)
    → get_elem? h.tensors parent ≡ some p
    → t.version_counter ≡ p.version_counter
    → current_version h parent ≡ some v
    → (is_done (increment_version t h).0 ≡ true)
      × (current_version (increment_version t h).1 parent ≡ some ((v + 1) % 2 ^ 64))
unfolding increment_version
increment_version-current h parent v t p found shared current =
    elim (Option-cases (get_elem? h.counters p.version_counter)) [
      | inl gone ↦ ground (arith, found, gone, current)
      | inr (c, counter) ↦
          let same : get_elem? h.counters t.version_counter ≡ some c =
            ground (arith, shared, counter) in
          let value : c.value ≡ v = ground (arith, found, counter, current) in
          let stored =
            get_elem?-set h.counters t.version_counter (record c { value = (c.value + 1) % 2 ^ 64 })
              c same in
          (ground (arith, same), ground (arith, found, shared, same, stored, value))
    ]

IsCurrent-saved :
    {F : Type 0} (h : Heap F) (parent : ℕ) (parents versions : List ℕ)
    → contains parent parents ≡ true
    → IsCurrent h parents versions
    → (v : ℕ) × (current_version h parent ≡ some v)
      × ((h' : Heap F) → IsCurrent h' parents versions → current_version h' parent ≡ some v)
IsCurrent-saved h parent [] versions member current = ground (arith, member)
IsCurrent-saved h parent (p ∷ ps) [] member current = absurd current
IsCurrent-saved h parent (p ∷ ps) (v ∷ vs) member current = elim (Bool-cases (p == parent)) [
  | inl same ↦
      let e : p ≡ parent = ==→≡ p parent same in
      (
        v,
        subst (λ q. current_version h q ≡ some v) e current.0,
        (λ h' now. subst (λ q. current_version h' q ≡ some v) e now.0),
      )
  | inr other ↦
      let (v', held, kept) =
        IsCurrent-saved h parent ps vs (ground (arith, member, other)) current.1 in
      (v', held, (λ h' now. kept h' now.1))
]

-- Where the versions that a node saved hold, and the version of one of its parents has 64 bits,
-- `increment_version` on any tensor that shares the counter of this parent makes the check of the
-- node's saved versions fail.
pub increment_version-stale :
    {F : Type 0} (h : Heap F) (node : GradNode) (parent : ℕ) (t p : Tensor)
    → IsNodeCurrent h (some node)
    → contains parent node.parents ≡ true
    → get_elem? h.tensors parent ≡ some p
    → t.version_counter ≡ p.version_counter
    → ((v : ℕ) → current_version h parent ≡ some v → v < 2 ^ 64)
    → (is_done (increment_version t h).0 ≡ true)
      × (is_done (validate_saved_versions node (increment_version t h).1).0 ≡ false)
unfolding check_grad_fn
increment_version-stale h node parent t p current member found shared bounded =
    let (v, held, kept) =
      IsCurrent-saved h parent node.parents node.parent_versions member current in
    let (incremented, now) = increment_version-current h parent v t p found shared held in
    (
      incremented,
      elim (Bool-cases (is_done (validate_saved_versions node (increment_version t h).1).0)) [
        | inl passed ↦
            let again =
              kept (increment_version t h).1
                (check_grad_fn-IsNodeCurrent (some node) (increment_version t h).1 passed) in
            ground (arith, again, now, bounded v held)
        | inr stopped ↦ stopped
      ],
    )

IsCurrent-length :
    {F : Type 0} (h : Heap F) (parents versions : List ℕ)
    → IsCurrent h parents versions
    → length parents ≡ length versions
IsCurrent-length h [] [] current = refl
IsCurrent-length h [] (v ∷ vs) current = absurd current
IsCurrent-length h (p ∷ ps) [] current = absurd current
IsCurrent-length h (p ∷ ps) (v ∷ vs) current = ground (arith, IsCurrent-length h ps vs current.1)

check_versions-passes :
    {F : Type 0} (h : Heap F) (parents versions : List ℕ)
    → IsCurrent h parents versions
    → check_versions parents versions h ≡ (Result.done tt, h)
unfolding check_versions version
check_versions-passes h [] [] current = refl
check_versions-passes h [] (v ∷ vs) current = absurd current
check_versions-passes h (p ∷ ps) [] current = absurd current
check_versions-passes h (p ∷ ps) (v ∷ vs) current = elim (Option-cases (get_elem? h.tensors p)) [
  | inl gone ↦ ground (arith, gone, current.0)
  | inr (t, found) ↦ elim (Option-cases (get_elem? h.counters t.version_counter)) [
    | inl gone ↦ ground (arith, found, gone, current.0)
    | inr (c, counter) ↦
        let value : c.value ≡ v = ground (arith, found, counter, current.0) in
        ground
          (arith, found, counter, ≡→== c.value v value, check_versions-passes h ps vs current.1)
  ]
]

check_grad_fn-passes :
    {F : Type 0} (h : Heap F) (fn : Option GradNode)
    → IsNodeCurrent h fn
    → check_grad_fn fn h ≡ (Result.done tt, h)
unfolding check_grad_fn validate_saved_versions
check_grad_fn-passes h none current = refl
check_grad_fn-passes h (some node) current = ground (
  arith,
  ≡→== (length node.parents) (length node.parent_versions)
      (IsCurrent-length h node.parents node.parent_versions current),
  check_versions-passes h node.parents node.parent_versions current,
)

-- Where every saved version is the one that the parent has, the check of all the nodes passes, and
-- leaves the heap as it was.
pub check_all-passes :
    {F : Type 0} (h : Heap F) (topology : List ℕ)
    → All (λ v. IsNodeCurrent h (grad_fn_of h v)) topology
    → check_all topology h ≡ (Result.done tt, h)
unfolding check_all
check_all-passes h [] current = refl
check_all-passes h (v ∷ rest) current =
    ground
      (arith, check_grad_fn-passes h (grad_fn_of h v) current.0, check_all-passes h rest current.1)
