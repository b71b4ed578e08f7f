-- ===== src/Torch/Identity/Sound.antt =====
-- native/src/training/nn_v2_state.h: the identities that the cache gives out are distinct.
use tensora.Core.Status.{Status, fail_internal}
use tensora.Float.{Float32}
use tensora.Tensor.{Tensor}
use tensora.Torch.Backend.{tensor_to_torch}
use tensora.Heap.{guarded}
use tensora.Torch.Library.{Torch, TorchHost, Torched, on_heap_of}
use tensora.Steps.Frame.{and_then-done, done-value}
use tensora.Steps.{Result, check, to_caller, ◌>>◌}
use tensora.Torch.Identity.Distinct.{
  IsSound, Answered, Distinct-prune_expired, find_identity-prune_expired, identity_key, with_entry,
  given, nonzero, given-Answered, bound,
}
use tensora.Torch.Identity.{
  torch_identity, TorchImpls, IdentityState, on_identity_host, take_next, remember_identity,
  assign_identity, answer_identity, TorchIdentityEntry, IdentityCache, prune_expired, find_identity,
}
use tensora.Prelude.{
  ℕ, ◌+◌, ◌%◌, ◌^◌, ◌==◌, ◌≡◌, ◌≢◌, ◌↔◌, refl, sym, ap, ◌∙◌, subst, not, Bool, true, false, Option,
  none, some,
}

module _ {F X R : Type 0} where
  on_identity_host-cache :
      {B : Type 0} (m : Torched F X R B) (b : B) (s t : IdentityState F X R)
      → on_identity_host m s ≡ (Result.done b, t)
      → t.cache ≡ s.cache
  on_identity_host-cache {B} m b s t e =
      ap (λ (r : Result B × IdentityState F X R). r.1.cache) (sym e)

  -- The identity that is taken, and the cache after.
  taken :
      (b : Bool) (e : Status) (i : ℕ) (s t : IdentityState F X R)
      → (check b e >> take_next) s ≡ (Result.done i, t)
      → (b ≡ true)
        × (i ≡ s.cache.next)
        × (t.cache ≡ record s.cache { next = (s.cache.next + 1) % 2 ^ 64 })
  taken true e i s t h = (refl, cc, ap (λ (r : Result ℕ × IdentityState F X R). r.1.cache) (sym h))
  taken false e i s t h = cc

  remember_identity-cache :
      (key a i : ℕ) (v s' : IdentityState F X R)
      → remember_identity key a v ≡ (Result.done i, s')
      → (i ≡ a) × (s'.cache ≡ with_entry key a v.cache)
  remember_identity-cache key a i v s' e =
      (cc, ap (λ (r : Result ℕ × IdentityState F X R). r.1.cache) (sym e))

  assign_identity-cache :
      (key i : ℕ) (s s' : IdentityState F X R)
      → assign_identity key s ≡ (Result.done i, s')
      → (i ≡ s.cache.next) × (s.cache.next ≢ 0) × (s'.cache ≡ given key s.cache)
  unfolding assign_identity
  assign_identity-cache key i s s' e =
      let (a, u, first, rest) =
        and_then-done
          ((check (not (s.cache.next == 0))
                (fail_internal "tensor_identity: opaque identity space exhausted")
              >> take_next)
            s)
          _ i s' e in
      let (left, same, taking) = taken (not (s.cache.next == 0)) _ a s u first in
      let (one, v, allocated, last) =
        and_then-done (on_identity_host (on_heap_of (guarded "tensor_identity" 0)) u) _ i s' rest in
      let kept =
        on_identity_host-cache (on_heap_of (guarded "tensor_identity" 0)) one u v allocated
        ∙ taking in
      let (given_a, after) = remember_identity-cache key a i v s' last in
      (
        given_a ∙ same,
        nonzero s.cache.next left,
        after
            ∙ ap (with_entry key a) kept
            ∙ ap (λ n. with_entry key n (record s.cache { next = (s.cache.next + 1) % 2 ^ 64 }))
                same,
      )

  answer_identity-Answered :
      (expired : ℕ → Bool) (key i : ℕ) (before : IdentityCache) (s s' : IdentityState F X R)
      → IsSound before
      → s.cache ≡ record before { identities = prune_expired expired before.identities }
      → (found : Option TorchIdentityEntry)
      → find_identity key (prune_expired expired before.identities) ≡ found
      → answer_identity key found s ≡ (Result.done i, s')
      → Answered expired key before i s'.cache
  unfolding answer_identity
  answer_identity-Answered expired key i before s s' sound pruned (some x) has e =
      subst (λ c. Answered expired key before i c)
        (sym pruned ∙ ap (λ (r : Result ℕ × IdentityState F X R). r.1.cache) e)
        (
          (sound.0, Distinct-prune_expired expired (bound before.next) before.identities sound.1),
          (x, has, done-value x.identity i s s' e),
          λ k y lives there.
              find_identity-prune_expired expired (bound before.next) k before.identities y sound.1
                lives there,
        )
  answer_identity-Answered expired key i before s s' sound pruned none missing e =
      let (next, more, after) = assign_identity-cache key i s s' e in
      let kept : IdentityCache = record before {
        identities = prune_expired expired before.identities;
      } in
      subst (λ c. Answered expired key before i c) (sym (after ∙ ap (given key) pruned))
        (subst (λ n. Answered expired key before n (given key kept))
          (sym (next ∙ ap (λ (c : IdentityCache). c.next) pruned))
          (given-Answered expired key before sound
            (subst (λ n. n ≢ 0) (ap (λ (c : IdentityCache). c.next) pruned) more) missing))

module _ {F X R : Type 0} (torch : Torch F X R) (impls : TorchImpls X R) ⦃fl : Float32 F⦄ where
  -- What TorchIdentity leaves of the cache.
  torch_identity-Answered :
      (t : Tensor) (x : X) (i : ℕ) (s s' : IdentityState F X R) (h : TorchHost F X R)
      → IsSound s.cache
      → tensor_to_torch torch t to_caller s.host ≡ (Result.done x, h)
      → torch_identity torch impls t s ≡ (Result.done i, s')
      → Answered (λ w. impls.expired w h.runtime) (impls.address x) s.cache i s'.cache
  unfolding torch_identity
  torch_identity-Answered t x i s s' h sound goes e =
      answer_identity-Answered _ (impls.address x) i s.cache _ s' sound refl _ refl (rw goes at e)

  -- In a cache whose entries have distinct keys and distinct identities, the next one above them, two
  -- calls of TorchIdentity that succeed leave such a cache. Where the tensor of libtorch of the first
  -- call is still owned at the second one, they give one identity exactly when the two tensors are one.
  pub torch_identity_iff :
      (t u : Tensor) (x y : X) (i j : ℕ) (s s' s'' : IdentityState F X R) (h h' : TorchHost F X R)
      → IsSound s.cache
      → tensor_to_torch torch t to_caller s.host ≡ (Result.done x, h)
      → torch_identity torch impls t s ≡ (Result.done i, s')
      → tensor_to_torch torch u to_caller s'.host ≡ (Result.done y, h')
      → torch_identity torch impls u s' ≡ (Result.done j, s'')
      → impls.expired (impls.address x) h'.runtime ≡ false
      → IsSound s''.cache × ((i ≡ j) ↔ (impls.address x ≡ impls.address y))
  torch_identity_iff t u x y i j s s' s'' h h' sound goes first goes' second owned =
      let (sound', (e, has, is_i), _) = torch_identity-Answered t x i s s' h sound goes first in
      let (sound'', (f, has', is_j), stays) =
        torch_identity-Answered u y j s' s'' h' sound' goes' second in
      let kept = stays (impls.address x) e owned has in
      (
        sound'',
        (
          (λ same.
              identity_key (bound s''.cache.next) _ _ s''.cache.identities e f sound''.1 kept has'
                (is_i ∙ same ∙ sym is_j)),
          (λ same. cc (is_i, is_j, kept, has', same)),
        ),
      )
