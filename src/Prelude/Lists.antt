-- ===== src/Prelude/Lists.antt =====
-- C++ arrays and vectors as lists with native indices.
use Prim.Native.Nat.{ℕ, zero, suc, ◌+◌, ◌<◌, ◌≤◌}
use mathlib.Core.Path.{◌≡◌, refl, ap, ap₂, ◌∙◌}
use mathlib.Core.Logic.{◌≢◌}
use mathlib.Core.List.{List, [], ◌∷◌, ◌++◌}
use mathlib.Core.Option.{Option, none, some}
use native.Mathlib.Omega.{arith}

module _ {ℓ} {A : Type ℓ} where
  abbrev pub length : List A → ℕ
  length [] = 0
  length (x ∷ xs) = suc (length xs)

  abbrev pub get_elem? : List A → ℕ → Option A
  get_elem? [] i = none
  get_elem? (x ∷ xs) zero = some x
  get_elem? (x ∷ xs) (suc i) = get_elem? xs i

  abbrev pub get_or : List A → ℕ → A → A
  get_or [] i d = d
  get_or (x ∷ xs) zero d = x
  get_or (x ∷ xs) (suc i) d = get_or xs i d

  -- A write out of bounds changes nothing.
  abbrev pub set : List A → ℕ → A → List A
  set [] i v = []
  set (x ∷ xs) zero v = v ∷ xs
  set (x ∷ xs) (suc i) v = x ∷ set xs i v

  abbrev pub take : ℕ → List A → List A
  take zero xs = []
  take (suc n) [] = []
  take (suc n) (x ∷ xs) = x ∷ take n xs

  abbrev pub drop : ℕ → List A → List A
  drop zero xs = xs
  drop (suc n) [] = []
  drop (suc n) (x ∷ xs) = drop n xs

  abbrev pub replicate : ℕ → A → List A
  replicate zero a = []
  replicate (suc n) a = a ∷ replicate n a

  -- `f i ∷ f (i + 1) ∷ …`, n entries: what a loop reads from an array at `i`.
  abbrev pub entries : (ℕ → A) → ℕ → ℕ → List A
  entries f i zero = []
  entries f i (suc n) = f i ∷ entries f (suc i) n

  abbrev pub All {κ} : (A → Type κ) → List A → Type κ
  All P [] = Unit
  All P (x ∷ xs) = P x × All P xs

module _ {ℓ} {A : Type ℓ} where
  pub length-append : (xs ys : List A) → length (xs ++ ys) ≡ length xs + length ys
  length-append [] ys = omega arith
  length-append (x ∷ xs) ys = omega (arith, length-append xs ys)

  pub get_elem?-snoc : (xs : List A) (x : A) → get_elem? (xs ++ x ∷ []) (length xs) ≡ some x
  get_elem?-snoc [] x = refl
  get_elem?-snoc (y ∷ xs) x = get_elem?-snoc xs x

  pub get_elem?-lt : (xs : List A) (i : ℕ) (x : A) → get_elem? xs i ≡ some x → i < length xs
  get_elem?-lt [] i x e = cc
  get_elem?-lt (y ∷ xs) zero x e = omega arith
  get_elem?-lt (y ∷ xs) (suc i) x e = omega (arith, get_elem?-lt xs i x e)

  pub length-set : (xs : List A) (i : ℕ) (v : A) → length (set xs i v) ≡ length xs
  length-set [] i v = refl
  length-set (x ∷ xs) zero v = refl
  length-set (x ∷ xs) (suc i) v = ap suc (length-set xs i v)

  pub length-replicate : (n : ℕ) (a : A) → length (replicate n a) ≡ n
  length-replicate zero a = refl
  length-replicate (suc n) a = ap suc (length-replicate n a)

  pub length-entries : (f : ℕ → A) (i n : ℕ) → length (entries f i n) ≡ n
  length-entries f i zero = refl
  length-entries f i (suc n) = ap suc (length-entries f (suc i) n)

  pub get_or-replicate : (n i : ℕ) (a : A) → get_or (replicate n a) i a ≡ a
  get_or-replicate zero i a = refl
  get_or-replicate (suc n) zero a = refl
  get_or-replicate (suc n) (suc i) a = get_or-replicate n i a

  pub get_or-set_self :
      (xs : List A) (i : ℕ) (v d : A) → i < length xs → get_or (set xs i v) i d ≡ v
  get_or-set_self [] i v d h = absurd (omega arith)
  get_or-set_self (x ∷ xs) zero v d h = refl
  get_or-set_self (x ∷ xs) (suc i) v d h = get_or-set_self xs i v d (omega arith)

  pub get_or-set_ne :
      (xs : List A) (i j : ℕ) (v d : A) → i ≢ j → get_or (set xs i v) j d ≡ get_or xs j d
  get_or-set_ne [] i j v d h = refl
  get_or-set_ne (x ∷ xs) zero zero v d h = absurd (h refl)
  get_or-set_ne (x ∷ xs) zero (suc j) v d h = refl
  get_or-set_ne (x ∷ xs) (suc i) zero v d h = refl
  get_or-set_ne (x ∷ xs) (suc i) (suc j) v d h = get_or-set_ne xs i j v d (λ e. h (ap suc e))

  pub get_or-entries :
      (f : ℕ → A) (i n j : ℕ) (d : A) → j < n → get_or (entries f i n) j d ≡ f (i + j)
  get_or-entries f i zero j d h = absurd (omega arith)
  get_or-entries f i (suc n) zero d h = ap f (omega arith)
  get_or-entries f i (suc n) (suc j) d h =
      rw (get_or-entries f (suc i) n j d (omega arith)) (ap f (omega arith))

  pub drop-set :
      (xs : List A) (i : ℕ) (v : A) → i < length xs → drop i (set xs i v) ≡ v ∷ drop (suc i) xs
  drop-set [] i v h = absurd (omega arith)
  drop-set (x ∷ xs) zero v h = refl
  drop-set (x ∷ xs) (suc i) v h = drop-set xs i v (omega arith)

  pub drop-get_or :
      (xs : List A) (i : ℕ) (d : A) → i < length xs → drop i xs ≡ get_or xs i d ∷ drop (suc i) xs
  drop-get_or [] i d h = absurd (omega arith)
  drop-get_or (x ∷ xs) zero d h = refl
  drop-get_or (x ∷ xs) (suc i) d h = drop-get_or xs i d (omega arith)

  pub drop_all : (xs : List A) (n : ℕ) → length xs ≤ n → drop n xs ≡ []
  drop_all [] zero h = refl
  drop_all [] (suc n) h = refl
  drop_all (x ∷ xs) zero h = absurd (omega arith)
  drop_all (x ∷ xs) (suc n) h = drop_all xs n (omega arith)

  pub All-drop {κ} : (P : A → Type κ) (xs : List A) (n : ℕ) → All P xs → All P (drop n xs)
  All-drop P xs zero h = h
  All-drop P [] (suc n) h = tt
  All-drop P (x ∷ xs) (suc n) h = All-drop P xs n h.1

  pub take-append-drop : (n : ℕ) (xs : List A) → take n xs ++ drop n xs ≡ xs
  take-append-drop zero xs = refl
  take-append-drop (suc n) [] = refl
  take-append-drop (suc n) (x ∷ xs) = ap (◌∷◌ x) (take-append-drop n xs)

  pub entries-eq :
      (d : A) (f : ℕ → A) (xs : List A) (i n : ℕ)
      → length xs ≡ n
      → ((k : ℕ) → k < n → f (i + k) ≡ get_or xs k d)
      → entries f i n ≡ xs
  entries-eq d f [] i zero l h = refl
  entries-eq d f [] i (suc n) l h = absurd (omega arith)
  entries-eq d f (x ∷ xs) i zero l h = absurd (omega arith)
  entries-eq d f (x ∷ xs) i (suc n) l h = ap₂ ◌∷◌ (ap f (omega arith) ∙ h 0 (omega arith)) (
      entries-eq d f xs (suc i) n (omega arith)
        (λ k b. ap f (omega arith) ∙ h (suc k) (omega arith)))
