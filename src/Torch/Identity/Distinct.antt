-- ===== src/Torch/Identity/Distinct.antt =====
-- native/src/training/nn_v2_state.h: caches of identities whose keys and identities are distinct.
use tensora.Torch.Identity.{
  TorchIdentityEntry, Identities, IdentityCache, prune_expired, find_identity,
}
use tensora.Prelude.{
  ℕ, ◌+◌, ◌%◌, ◌^◌, ◌==◌, ◌<◌, ◌≤◌, ◌≡◌, ◌≢◌, refl, sym, ap, subst, arith, not, Bool, true, false,
  none, some, [], ◌∷◌, if◌then◌else◌, Bool-cases, inl, inr, ==→≡, ≡→==,
}

-- No entry has the key or the identity.
abbrev pub Fresh : ℕ → ℕ → Identities → Type 0
Fresh key identity [] = Unit
Fresh key identity ((k, e) ∷ rest) = (k ≢ key) × (e.identity ≢ identity) × Fresh key identity rest

-- The entries have distinct keys and distinct identities below the bound, and each points to its key.
abbrev pub Distinct : ℕ → Identities → Type 0
Distinct bound [] = Unit
Distinct bound ((k, e) ∷ rest) =
    (e.identity < bound) × (e.tensor_impl ≡ k) × Fresh k e.identity rest × Distinct bound rest

-- After the last identity the next one is 0.
abbrev pub bound : ℕ → ℕ
bound next = if next == 0 then 2 ^ 64 else next

abbrev pub IsSound : IdentityCache → Type 0
IsSound c = (c.next < 2 ^ 64) × Distinct (bound c.next) c.identities

Fresh-prune_expired :
    (expired : ℕ → Bool) (key identity : ℕ) (m : Identities)
    → Fresh key identity m
    → Fresh key identity (prune_expired expired m)
unfolding prune_expired
Fresh-prune_expired expired key identity [] f = tt
Fresh-prune_expired expired key identity ((k, e) ∷ m) f =
    ground (arith, Fresh-prune_expired expired key identity m f.2)

pub Distinct-prune_expired :
    (expired : ℕ → Bool) (n : ℕ) (m : Identities)
    → Distinct n m
    → Distinct n (prune_expired expired m)
unfolding prune_expired
Distinct-prune_expired expired n [] d = tt
Distinct-prune_expired expired n ((k, e) ∷ m) d = elim (Bool-cases (expired e.tensor_impl)) [
  | inl dead ↦ rw dead (Distinct-prune_expired expired n m d.3)
  | inr lives ↦ rw lives (
    d.0,
    d.1,
    Fresh-prune_expired expired k e.identity m d.2,
    Distinct-prune_expired expired n m d.3,
  )
]

-- An entry of a tensor that is owned stays.
pub find_identity-prune_expired :
    (expired : ℕ → Bool) (n key : ℕ) (m : Identities) (found : TorchIdentityEntry)
    → Distinct n m
    → expired key ≡ false
    → find_identity key m ≡ some found
    → find_identity key (prune_expired expired m) ≡ some found
unfolding prune_expired find_identity
find_identity-prune_expired expired n key [] found d lives e = e
find_identity-prune_expired expired n key ((k, x) ∷ m) found d lives e =
    ground (arith, find_identity-prune_expired expired n key m found d.3 lives)

Fresh-find_identity :
    (n key : ℕ) (m : Identities) → Distinct n m → find_identity key m ≡ none → Fresh key n m
unfolding find_identity
Fresh-find_identity n key [] d e = tt
Fresh-find_identity n key ((k, x) ∷ m) d e = ground (arith, Fresh-find_identity n key m d.3)

Distinct-le : (n n' : ℕ) (m : Identities) → n ≤ n' → Distinct n m → Distinct n' m
Distinct-le n n' [] le d = tt
Distinct-le n n' ((k, x) ∷ m) le d = (omega arith, d.1, d.2, Distinct-le n n' m le d.3)

Fresh-found :
    (k i key : ℕ) (m : Identities) (x : TorchIdentityEntry)
    → Fresh k i m
    → find_identity key m ≡ some x
    → x.identity ≢ i
unfolding find_identity
Fresh-found k i key [] x f e = cc
Fresh-found k i key ((k', y) ∷ m) x f e = ground (arith, Fresh-found k i key m x f.2)

-- Entries with one identity have one key.
pub identity_key :
    (n a b : ℕ) (m : Identities) (x y : TorchIdentityEntry)
    → Distinct n m
    → find_identity a m ≡ some x
    → find_identity b m ≡ some y
    → x.identity ≡ y.identity
    → a ≡ b
unfolding find_identity
identity_key n a b [] x y d e f same = cc
identity_key n a b ((k, z) ∷ m) x y d e f same = ground (
  arith,
  identity_key n a b m x y d.3,
  Fresh-found k z.identity a m x d.2,
  Fresh-found k z.identity b m y d.2,
)

-- What a call leaves of a sound cache: it is sound, it has the identity that is given for the key, and
-- the entries of tensors that are owned stay.
abbrev pub Answered : (ℕ → Bool) → ℕ → IdentityCache → ℕ → IdentityCache → Type 0
Answered expired key before i after =
    IsSound after
    × ((e : TorchIdentityEntry) × (find_identity key after.identities ≡ some e) × (e.identity ≡ i))
    × ((k : ℕ) (e : TorchIdentityEntry)
        → expired k ≡ false
        → find_identity k before.identities ≡ some e
        → find_identity k after.identities ≡ some e)

pub nonzero : (n : ℕ) → not (n == 0) ≡ true → n ≢ 0
nonzero n e = ground arith

-- The cache with one more entry, and after the next identity is given to a key.
abbrev pub with_entry : ℕ → ℕ → IdentityCache → IdentityCache
with_entry key identity c = record c {
  identities = (key, record { identity = identity; tensor_impl = key }) ∷ c.identities;
}

abbrev pub given : ℕ → IdentityCache → IdentityCache
given key c = with_entry key c.next (record c { next = (c.next + 1) % 2 ^ 64 })

bound-nonzero : (n : ℕ) → n ≢ 0 → bound n ≡ n
bound-nonzero n more = ground arith

bound-next : (n : ℕ) → n < 2 ^ 64 → bound ((n + 1) % 2 ^ 64) ≡ n + 1
bound-next n small = elim (Bool-cases ((n + 1) % 2 ^ 64 == 0)) [
  | inl last ↦ rw last (omega (arith, ==→≡ ((n + 1) % 2 ^ 64) 0 last))
  | inr more ↦ rw more (omega (arith, nonzero ((n + 1) % 2 ^ 64) (ap not more)))
]

find_identity-with_entry :
    (key identity k : ℕ) (m : Identities) (e : TorchIdentityEntry)
    → find_identity key m ≡ none
    → find_identity k m ≡ some e
    → find_identity k ((key, record { identity = identity; tensor_impl = key }) ∷ m) ≡ some e
unfolding find_identity
find_identity-with_entry key identity k m e missing has = elim (Bool-cases (key == k)) [
  | inl same ↦ cc (missing, has, ==→≡ key k same)
  | inr other ↦ rw other has
]

find_identity-new :
    (key identity : ℕ) (m : Identities)
    → find_identity key ((key, record { identity = identity; tensor_impl = key }) ∷ m)
      ≡ some (record { identity = identity; tensor_impl = key })
unfolding find_identity
find_identity-new key identity m = rw (≡→== key key refl) refl

-- A new entry, where the cache has none for the key.
pub given-Answered :
    (expired : ℕ → Bool) (key : ℕ) (before : IdentityCache)
    → IsSound before
    → before.next ≢ 0
    → find_identity key (prune_expired expired before.identities) ≡ none
    → Answered expired key before before.next
        (given key (record before { identities = prune_expired expired before.identities }))
given-Answered expired key before (small, distinct) more missing =
    let n = before.next in
    let m = prune_expired expired before.identities in
    let old : Distinct n m =
      subst (λ b. Distinct b m) (bound-nonzero n more)
        (Distinct-prune_expired expired (bound n) before.identities distinct) in
    let m' : Identities = (key, record { identity = n; tensor_impl = key }) ∷ m in
    let after : Distinct (n + 1) m' = (
      omega arith,
      refl,
      Fresh-find_identity n key m old missing,
      Distinct-le n (n + 1) m (omega arith) old,
    ) in
    (
      (omega arith, subst (λ b. Distinct b m') (sym (bound-next n small)) after),
      (record { identity = n; tensor_impl = key }, find_identity-new key n m, refl),
      λ k e lives has.
          find_identity-with_entry key n k m e missing (
            find_identity-prune_expired expired (bound n) k before.identities e distinct lives has),
    )
