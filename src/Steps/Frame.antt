-- ===== src/Steps/Frame.antt =====
-- What steps leave of the state they are taken on, by how the steps are put together.
use tensora.Core.Status.{Status, is_ok}
use tensora.Steps.{
  Result, Steps, and_then, ◌>>=◌, ◌>>◌, return, fail, check, undefined_unless, from_status,
}
use tensora.Prelude.{
  ◌≡◌, ◌≢◌, refl, subst, Bool, true, false, Option, none, some, Bool-cases, Option-cases, inl, inr,
  if◌then◌else◌,
}

-- A relation between the states before and after, which holds when nothing happens, and goes on.
pub record Frame (S : Type 0) : Type 1 where
  pub Same : S → S → Type 0
  pub nothing : (s : S) → Same s s
  pub further : (s t u : S) → Same s t → Same t u → Same s u

module _ {S : Type 0} (R : Frame S) where
  unfoldable pub Keeps : {A : Type 0} → Steps S A → Type 0
  Keeps m = (s : S) → R.Same s (m s).1

  unfoldable pub KeepsOnFailure : {A : Type 0} → Steps S A → Type 0
  KeepsOnFailure m = (s : S) (e : Status) → (m s).0 ≡ Result.failed e → R.Same s (m s).1

  pub Keeps-KeepsOnFailure : {A : Type 0} (m : Steps S A) → Keeps m → KeepsOnFailure m
  unfolding Keeps KeepsOnFailure
  Keeps-KeepsOnFailure m k s e h = k s

  pub quiet-Keeps : {A : Type 0} (m : Steps S A) → ((s : S) → (m s).1 ≡ s) → Keeps m
  unfolding Keeps
  quiet-Keeps m h s = rw (h s) (R.nothing s)

  after :
      {A B : Type 0} (s : S) (f : A → Steps S B)
      → ((a : A) → Keeps (f a))
      → (x : Result A × S) → R.Same s x.1
      → R.Same s (and_then x f).1
  unfolding Keeps
  after s f k (Result.done a, t) h = R.further s t (f a t).1 h (k a t)
  after s f k (Result.failed e, t) h = h
  after s f k (Result.threw e, t) h = h
  after s f k (Result.undefined, t) h = h

  pub bind-Keeps :
      {A B : Type 0} (m : Steps S A) (f : A → Steps S B)
      → Keeps m
      → ((a : A) → Keeps (f a))
      → Keeps (m >>= f)
  unfolding Keeps
  bind-Keeps m f k l s = after s f l (m s) (k s)

  pub check-Keeps : (b : Bool) (e : Status) → Keeps (check b e)
  unfolding Keeps
  check-Keeps true e s = R.nothing s
  check-Keeps false e s = R.nothing s

  pub then-Keeps :
      {B : Type 0} (m : Steps S (Unit {0})) (n : Steps S B) → Keeps m → Keeps n → Keeps (m >> n)
  then-Keeps m n k l = bind-Keeps m (λ u. n) k (λ u. l)

  -- A test before the rest.
  pub check_then-Keeps :
      {B : Type 0} (b : Bool) (e : Status) (n : Steps S B) → Keeps n → Keeps (check b e >> n)
  check_then-Keeps b e n l = then-Keeps (check b e) n (check-Keeps b e) l

  failure_after :
      {A B : Type 0} (s : S) (f : A → Steps S B)
      → ((a : A) → KeepsOnFailure (f a))
      → (x : Result A × S) → R.Same s x.1
      → (e : Status) → (and_then x f).0 ≡ Result.failed e
      → R.Same s (and_then x f).1
  unfolding KeepsOnFailure
  failure_after s f k (Result.done a, t) h e failed = R.further s t (f a t).1 h (k a t e failed)
  failure_after s f k (Result.failed d, t) h e failed = h
  failure_after s f k (Result.threw d, t) h e failed = h
  failure_after s f k (Result.undefined, t) h e failed = h

  -- What comes first keeps the state, what comes last keeps it when it fails.
  pub bind-KeepsOnFailure :
      {A B : Type 0} (m : Steps S A) (f : A → Steps S B)
      → Keeps m
      → ((a : A) → KeepsOnFailure (f a))
      → KeepsOnFailure (m >>= f)
  unfolding Keeps KeepsOnFailure
  bind-KeepsOnFailure m f k l s e failed = failure_after s f l (m s) (k s) e failed

  pub return-Keeps : {A : Type 0} (a : A) → Keeps (return a)
  unfolding Keeps
  return-Keeps a s = R.nothing s

  pub fail-Keeps : (A : Type 0) (e : Status) → Keeps {A = A} (fail e)
  unfolding Keeps
  fail-Keeps A e s = R.nothing s

  pub undefined_unless-Keeps : {A : Type 0} (o : Option A) → Keeps (undefined_unless o)
  unfolding Keeps
  undefined_unless-Keeps none s = R.nothing s
  undefined_unless-Keeps (some a) s = R.nothing s

  pub if-Keeps :
      {A : Type 0} (b : Bool) (m n : Steps S A) → Keeps m → Keeps n → Keeps (if b then m else n)
  if-Keeps true m n x y = x
  if-Keeps false m n x y = y

pub from_status-Keeps :
    {S A : Type 0} (R : Frame S) (x : Status × Option A) → Keeps R (from_status x)
from_status-Keeps {A = A} R (e, out) =
    if-Keeps R (is_ok e) _ _ (undefined_unless-Keeps R out) (fail-Keeps R A e)

-- Steps that do not return a status of failure.
unfoldable pub NeverFails : {S A : Type 0} → Steps S A → Type 0
NeverFails {S} m = (s : S) (e : Status) → (m s).0 ≢ Result.failed e

never_after :
    {S A B : Type 0} (f : A → Steps S B)
    → ((a : A) → NeverFails (f a))
    → (x : Result A × S) → ((e : Status) → x.0 ≢ Result.failed e)
    → (e : Status) → (and_then x f).0 ≢ Result.failed e
unfolding NeverFails
never_after f n (Result.done a, t) first e = n a t e
never_after f n (Result.failed d, t) first e = absurd (first d refl)
never_after f n (Result.threw d, t) first e = λ h. cc
never_after f n (Result.undefined, t) first e = λ h. cc

pub bind-NeverFails :
    {S A B : Type 0} (m : Steps S A) (f : A → Steps S B)
    → NeverFails m
    → ((a : A) → NeverFails (f a))
    → NeverFails (m >>= f)
unfolding NeverFails
bind-NeverFails m f x y s e = never_after f y (m s) (x s) e

pub NeverFails-KeepsOnFailure :
    {S A : Type 0} (R : Frame S) (m : Steps S A) → NeverFails m → KeepsOnFailure R m
unfolding NeverFails KeepsOnFailure
NeverFails-KeepsOnFailure R m n s e h = absurd (n s e h)

pub load-Keeps :
    {S A : Type 0} (R : Frame S) (o : S → Option A) → Keeps R (λ s. undefined_unless (o s) s)
unfolding Keeps
load-Keeps R o s = undefined_unless-Keeps R (o s) s

pub load-NeverFails : {S A : Type 0} (o : S → Option A) → NeverFails (λ s. undefined_unless (o s) s)
unfolding NeverFails
load-NeverFails o s e = elim (Option-cases (o s)) [
  | inl gone ↦ rw gone (λ h. cc)
  | inr (a, found) ↦ rw found (λ h. cc)
]

pub done-NeverFails : {S A : Type 0} (a : A) (f : S → S) → NeverFails (λ s. (Result.done a, f s))
unfolding NeverFails
done-NeverFails a f s e = λ h. cc

-- What a chain of steps that succeeds has come from.
pub and_then-done :
    {S A B : Type 0} (x : Result A × S) (f : A → Steps S B) (b : B) (t : S)
    → and_then x f ≡ (Result.done b, t)
    → (a : A) × (s : S) × (x ≡ (Result.done a, s)) × (f a s ≡ (Result.done b, t))
and_then-done (Result.done a, s) f b t e = (a, s, refl, e)
and_then-done (Result.failed d, s) f b t e = cc
and_then-done (Result.threw d, s) f b t e = cc
and_then-done (Result.undefined, s) f b t e = cc

pub check-done :
    {S : Type 0} (b : Bool) (e : Status) (s t : S)
    → check b e s ≡ (Result.done tt, t)
    → (b ≡ true) × (t ≡ s)
check-done true e s t h = (refl, cc)
check-done false e s t h = cc

pub check_then-done :
    {S B : Type 0} (b : Bool) (e : Status) (n : Steps S B) (s : S) (c : B) (t : S)
    → (check b e >> n) s ≡ (Result.done c, t)
    → (b ≡ true) × (n s ≡ (Result.done c, t))
check_then-done true e n s c t h = (refl, h)
check_then-done false e n s c t h = cc

pub undefined_unless-done :
    {S A : Type 0} (o : Option A) (a : A) (s t : S)
    → undefined_unless o s ≡ (Result.done a, t)
    → (o ≡ some a) × (t ≡ s)
undefined_unless-done none a s t h = cc
undefined_unless-done (some b) a s t h = (cc, cc)

pub from_status-done :
    {S A : Type 0} (x : Status × Option A) (a : A) (s t : S)
    → from_status x s ≡ (Result.done a, t)
    → t ≡ s
from_status-done (e, out) a s t h = elim (Bool-cases (is_ok e)) [
  | inl fine ↦ (undefined_unless-done out a s t (rw fine at h)).1
  | inr bad ↦ cc (rw bad at h)
]

-- What a done step gives, and the state it leaves.
unfoldable pub Yields : {S A : Type 0} → Steps S A → (A → S → Type 0) → Type 0
Yields {S} {A} m P = (s : S) (a : A) (t : S) → m s ≡ (Result.done a, t) → P a t

pub bind-Yields :
    {S A B : Type 0} (m : Steps S A) (f : A → Steps S B) (P : B → S → Type 0)
    → ((a : A) → Yields (f a) P)
    → Yields (m >>= f) P
unfolding Yields
bind-Yields m f P k s b t e =
    let (a, u, first, rest) = and_then-done (m s) f b t e in k a u b t rest

pub check_then-Yields :
    {S B : Type 0} (b : Bool) (e : Status) (n : Steps S B) (P : B → S → Type 0)
    → (b ≡ true → Yields n P)
    → Yields (check b e >> n) P
unfolding Yields
check_then-Yields true e n P k s c t h = k refl s c t h
check_then-Yields false e n P k s c t h = cc

pub then-Yields :
    {S B : Type 0} (m : Steps S (Unit {0})) (n : Steps S B) (P : B → S → Type 0)
    → Yields n P
    → Yields (m >> n) P
then-Yields m n P k = bind-Yields m (λ u. n) P (λ u. k)

pub done-value :
    {S A : Type 0} (a b : A) (s t : S)
    → ◌≡◌ {A = Result A × S} (Result.done a, s) (Result.done b, t)
    → a ≡ b
done-value a b s t e = cc

pub return-Yields :
    (S : Type 0) {A : Type 0} (a : A) (P : A → S → Type 0)
    → ((s : S) → P a s)
    → Yields {S = S} (return a) P
unfolding Yields
return-Yields S a P p s b t h =
    subst (λ (x : Result _ × S). elim x.0 [ Result.done c ↦ P c x.1 | _ ↦ Unit {0} ]) h (p s)

-- For `search`, where the frame is seen in the goal.
pub ruleset keeping = (bind-Keeps, then-Keeps, check-Keeps, return-Keeps, undefined_unless-Keeps)
