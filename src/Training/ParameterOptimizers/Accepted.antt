-- ===== src/Training/ParameterOptimizers/Accepted.antt =====
-- native/src/training/nn_v2_optimizer.h: what CollectParameters accepts.
use tensora.Training.ParameterOptimizers.Gathered.{
  Distinct, IsTrainable, OfOneKind, Keeping, All-snoc, Distinct-snoc, unseen-fresh, seen-more,
  OfOneKind-snoc, nothing-Keeping,
}
use Prim.Native.String.{String}
use tensora.Tensor.{Tensor}
use tensora.Storage.{is_null, StorageKind, kind}
use tensora.Heap.{Heap, load_tensor}
use tensora.Steps.{check, Result, Steps, and_then, to_caller}
use tensora.Steps.Frame.{and_then-done, check-done, undefined_unless-done, from_status-done}
use tensora.Autograd.Graph.{contains}
use tensora.Autograd.Values
use tensora.Registry.Entries.{tensor_handle}
use tensora.Training.Transfer.{requires_grad_flag}
use tensora.Training.State.{Process, find_object, on_tensors}
use tensora.Training.ParameterOptimizers.{
  Collected, fits, keep_trainable, collect_parameter, collect_loop, collected_kind,
  collect_parameters, read_handles,
}
use tensora.Prelude.{
  ℕ, ◌==◌, ◌≡◌, ◌≢◌, refl, sym, ap, subst, ◌∙◌, not, ◌||◌, true, false, Option, none, some, List,
  [], ◌∷◌, ◌++◌, All, get_elem?, Bool-cases, Option-cases, inl, inr, arith,
}

done-eq :
    {S A : Type 0} (a b : A) (s t : S)
    → ◌≡◌ {A = Result A × S} (Result.done a, s) (Result.done b, t)
    → a ≡ b
done-eq a b s t e = cc

-- A step that changes nothing where it is done, before the rest.
quiet_then :
    {S A B P : Type 0} (m : Steps S A) (f : A → Steps S B) (b : B) (s t : S)
    → ((a : A) (u : S) → m s ≡ (Result.done a, u) → u ≡ s)
    → and_then (m s) f ≡ (Result.done b, t)
    → ((a : A) → m s ≡ (Result.done a, s) → f a s ≡ (Result.done b, t) → P)
    → P
quiet_then m f b s t quiet e go =
    let (a, u, first, rest) = and_then-done (m s) f b t e in
    let same = quiet a u first in
    go a (subst (λ x. m s ≡ (Result.done a, x)) same first)
      (subst (λ x. f a x ≡ (Result.done b, t)) same rest)

requires_grad_flag-done :
    {F : Type 0} (t : Tensor) (n : ℕ) (h h' : Heap F)
    → requires_grad_flag t to_caller h ≡ (Result.done n, h')
    → (h' ≡ h) × ((n == 0) ≡ false → Values.requires_grad t h ≡ (Result.done true, h))
unfolding requires_grad_flag Values.requires_grad
requires_grad_flag-done t n h h' e = elim (Option-cases t.autograd_meta) [
  | inl plain ↦
      let step = rw plain at e in
      let no_flag : 0 ≡ n = done-eq _ _ _ _ step in (sym (ap (λ r. r.1) step), λ nz. ground arith)
  | inr (m, has) ↦ elim (Option-cases (get_elem? h.metas m)) [
    | inl gone ↦ cc (rw (has, gone) at e)
    | inr (meta, is) ↦ elim (Bool-cases meta.requires_grad) [
      | inl needed ↦
          let step = rw (has, is, needed) at e in
          (sym (ap (λ r. r.1) step), λ nz. rw (has, is, needed) refl)
      | inr unneeded ↦
          let step = rw (has, is, unneeded) at e in
          let no_flag : 0 ≡ n = done-eq _ _ _ _ step in
          (sym (ap (λ r. r.1) step), λ nz. ground arith)
    ]
  ]
]

module _ {F D G : Type 0} where
  keep_trainable-Keeping :
      (operation : String) (t : Tensor) (a : ℕ) (c c' : Collected) (p q : Process F D G)
      → get_elem? p.world.heap.tensors a ≡ some t
      → Values.requires_grad t p.world.heap ≡ (Result.done true, p.world.heap)
      → contains a c.parameters ≡ false
      → contains a c.seen ≡ true
      → Keeping F p.world.heap c
      → keep_trainable operation t a c p ≡ (Result.done c', q)
      → (q ≡ p) × Keeping F p.world.heap c'
  unfolding keep_trainable
  keep_trainable-Keeping operation t a c c' p q found trainable fresh known (seen, distinct, kinds)
        e =
      elim (Option-cases (get_elem? p.world.heap.storages t.storage)) [
        | inl gone ↦ cc (rw gone at e)
        | inr (s, stored) ↦ elim (Bool-cases (fits c.kind (kind s))) [
          | inr other ↦ cc (rw (stored, other) at e)
          | inl fit ↦
              let step = rw (stored, fit) at e in
              let more : Keeping F p.world.heap (record c {
                kind = elim c.kind [ none ↦ some (kind s) | some batch ↦ some batch ];
                parameters = c.parameters ++ a ∷ [];
              }) =
                (
                  All-snoc _ c.parameters a seen known,
                  Distinct-snoc c.parameters a distinct fresh,
                  OfOneKind-snoc F p.world.heap c.kind (kind s) c.parameters a kinds fit (λ j same.
                      record {
                        t = t;
                        storage = s;
                        found = found;
                        trainable = trainable;
                        stored = stored;
                        kinds = same;
                      }),
                ) in
              (sym (ap (λ r. r.1) step), subst (Keeping F p.world.heap) (done-eq _ _ _ _ step) more)
        ]
      ]

  on_tensors-quiet :
      {A : Type 0} (m : Steps (Heap F) A) (p : Process F D G)
      → ((a : A) (h : Heap F) → m p.world.heap ≡ (Result.done a, h) → h ≡ p.world.heap)
      → (a : A) (u : Process F D G) → on_tensors m p ≡ (Result.done a, u)
      → u ≡ p
  on_tensors-quiet {A} m p quiet a u e =
      let with_heap : Heap F → Process F D G =
        λ h. record p { world = record p.world { heap = h } } in
      let inner : m p.world.heap ≡ (Result.done a, u.world.heap) =
        ap (λ r. (r.0, r.1.world.heap)) e in
      sym (ap (λ r. r.1) e)
      ∙ ap with_heap (ap (λ r. r.1) inner)
      ∙ ap with_heap (quiet a u.world.heap inner)

  collect_parameter-Keeping :
      (operation : String) (handle : ℕ) (c c' : Collected) (p q : Process F D G)
      → Keeping F p.world.heap c
      → collect_parameter operation handle c p ≡ (Result.done c', q)
      → (q ≡ p) × Keeping F p.world.heap c'
  unfolding collect_parameter
  collect_parameter-Keeping operation handle c c' p q (seen, distinct, kinds) e =
      quiet_then (find_object handle tensor_handle) _ c' p q (λ a u. from_status-done _ a p u) e
        λ a object e1.
          quiet_then (check (not (contains a c.seen)) _) _ c' p q
            (λ u v h. (check-done (not (contains a c.seen)) _ p v h).1) e1
            λ u new e2.
              quiet_then (on_tensors (load_tensor a)) _ c' p q
                (on_tensors-quiet (load_tensor a) p (λ t h g. (undefined_unless-done _ t _ h g).1))
                e2
                λ t loaded e3.
                  quiet_then (on_tensors (requires_grad_flag t to_caller)) _ c' p q
                    (on_tensors-quiet (requires_grad_flag t to_caller) p
                      (λ n h g. (requires_grad_flag-done t n _ h g).0))
                    e3
                    λ n flag e4.
                      let unseen = (check-done (not (contains a c.seen)) _ p p new).0 in
                      let found =
                        (undefined_unless-done _ t _ _
                          (ap (λ r. (r.0, r.1.world.heap)) loaded)).0 in
                      let more : Keeping F p.world.heap (record c { seen = a ∷ c.seen }) =
                        (seen-more a c.seen c.parameters seen, distinct, kinds) in
                      elim (Bool-cases (n == 0)) [
                        | inl plain ↦
                            let step = rw plain at e4 in
                            (
                              sym (ap (λ r. r.1) step),
                              subst (Keeping F p.world.heap) (done-eq _ _ _ _ step) more,
                            )
                        | inr trainable ↦
                            keep_trainable-Keeping operation t a (record c { seen = a ∷ c.seen }) c'
                              p q found
                              ((requires_grad_flag-done t n _ _
                                  (ap (λ r. (r.0, r.1.world.heap)) flag)).1
                                trainable)
                              (unseen-fresh a c.seen c.parameters seen (ground arith))
                              (ground arith) more (rw trainable at e4)
                      ]

  collect_loop-Keeping :
      (operation : String) (handles : List ℕ) (c c' : Collected) (p q : Process F D G)
      → Keeping F p.world.heap c
      → collect_loop operation handles c p ≡ (Result.done c', q)
      → (q ≡ p) × Keeping F p.world.heap c'
  unfolding collect_loop
  collect_loop-Keeping operation [] c c' p q keeping e =
      (sym (ap (λ r. r.1) e), subst (Keeping F p.world.heap) (done-eq _ _ _ _ e) keeping)
  collect_loop-Keeping operation (handle ∷ rest) c c' p q keeping e =
      quiet_then (collect_parameter operation handle c) _ c' p q
        (λ d u h. (collect_parameter-Keeping operation handle c d p u keeping h).0) e
        λ d first others.
          collect_loop-Keeping operation rest d c' p q
            (collect_parameter-Keeping operation handle c d p p keeping first).1 others

  collected_kind-OfOneKind :
      (operation : String) (c : Collected) (ps : List ℕ) (k : StorageKind) (p q : Process F D G)
      → Keeping F p.world.heap c
      → collected_kind operation c p ≡ (Result.done (ps, k), q)
      → (q ≡ p) × Distinct ps × OfOneKind F p.world.heap (some k) ps
  unfolding collected_kind
  collected_kind-OfOneKind operation c ps k p q (seen, distinct, kinds) e =
      elim (Option-cases c.kind) [
        | inl none_set ↦ cc (rw none_set at e)
        | inr (j, is) ↦
            let step = rw is at e in
            let both : (c.parameters, j) ≡ (ps, k) = done-eq _ _ _ _ step in
            let gathered : OfOneKind F p.world.heap (some j) c.parameters =
              subst (λ o. OfOneKind F p.world.heap o c.parameters) is kinds in
            (
              sym (ap (λ r. r.1) step),
              subst Distinct (ap (λ r. r.0) both) distinct,
              subst (λ r. OfOneKind F p.world.heap (some (r.1)) (r.0)) both gathered,
            )
      ]

  -- When CollectParameters succeeds, it has changed nothing, and the parameters it gives are at
  -- least one, no tensor twice, and each a tensor that requires a gradient and whose storage is of
  -- the kind that it gives.
  pub collect_parameters-IsTrainable :
      (handles : Option (ℕ → ℕ)) (count : ℕ) (operation : String) (ps : List ℕ) (k : StorageKind)
      (p q : Process F D G)
      → collect_parameters handles count operation p ≡ (Result.done (ps, k), q)
      → (q ≡ p) × Distinct ps × (All (IsTrainable F p.world.heap k) ps × (ps ≢ []))
  unfolding collect_parameters
  collect_parameters-IsTrainable handles count operation ps k p q e =
      quiet_then (check (not (is_null handles || count == 0)) _) _ (ps, k) p q
        (λ u v h. (check-done (not (is_null handles || count == 0)) _ p v h).1) e
        λ u given e1.
          quiet_then (collect_loop operation (read_handles handles count) _) _ (ps, k) p q
            (λ d v h.
              (collect_loop-Keeping operation (read_handles handles count) _ d p v
                (nothing-Keeping F p.world.heap) h).0)
            e1
            λ c collected e2.
              collected_kind-OfOneKind operation c ps k p q
                (collect_loop-Keeping operation (read_handles handles count) _ c p p
                  (nothing-Keeping F p.world.heap) collected).1
                e2
