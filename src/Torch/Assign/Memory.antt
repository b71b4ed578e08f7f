-- ===== src/Torch/Assign/Memory.antt =====
-- native/src/training/nn_v2_state.h: the memory that the tensors of libtorch share, in which
-- CommitTorchAssignments copies, and the backups of its targets.
use tensora.Torch.Assign.{CopyAnswer, copied, CopyInto, Assignment}
use tensora.Prelude.{
  ℕ, zero, suc, ◌==◌, ◌<◌, ◌≡◌, refl, ap, ◌∙◌, Bool, true, false, List, [], ◌∷◌, ◌++◌, Bool-cases,
  inl, inr, ==→≡, arith, if◌then◌else◌,
}

-- How the tensors of libtorch lie in the memory: the cell of each element, and how many there are.
-- Two tensors may share cells.
pub record Memory (X R V : Type 0) : Type 0 where
  pub numel : X → ℕ
  pub element : X → ℕ → ℕ
  pub content : ℕ → R → V

-- One of the first `n` elements lies in the cell.
abbrev pub lies_in : (ℕ → ℕ) → ℕ → ℕ → Bool
lies_in at zero c = false
lies_in at (suc n) c = if at n == c then true else lies_in at n c

pub lies_in-element :
    (at : ℕ → ℕ) (n c : ℕ) → lies_in at n c ≡ true → (i : ℕ) × (i < n) × (at i ≡ c)
lies_in-element at zero c e = cc
lies_in-element at (suc n) c e = elim (Bool-cases (at n == c)) [
  | inl hit ↦ (n, omega arith, ==→≡ (at n) c hit)
  | inr miss ↦ let (i, less, same) = lies_in-element at n c (rw miss at e) in (i, omega arith, same)
]

module _ {X R V : Type 0} (memory : Memory X R V) where
  open memory use {numel, element, content}

  -- The tensor lies over the cell.
  abbrev pub covers : X → ℕ → Bool
  covers x c = lies_in (element x) (numel x) c

  -- A copy, whether it returns or throws, writes no cell outside its target.
  abbrev pub WritesTarget : CopyInto X R → Type 0
  WritesTarget copy =
      (t s : X) (r r' : R) (answer : CopyAnswer)
      → copy t s r ≡ (answer, r')
      → (c : ℕ) → covers t c ≡ false
      → content c r' ≡ content c r

  -- A copy that returns gives each element of its target that of the source, where the source has as
  -- many and lies apart.
  abbrev pub CopiesElements : CopyInto X R → Type 0
  CopiesElements copy =
      (t s : X) (r r' : R)
      → copy t s r ≡ (copied, r')
      → numel s ≡ numel t
      → ((i : ℕ) → i < numel s → covers t (element s i) ≡ false)
      → (i : ℕ) → i < numel t
      → content (element t i) r' ≡ content (element s i) r

  -- The target has none of the cells of the backups, and the backup has only such cells, as many, with
  -- the old contents.
  pub record IsBacked (spare : ℕ → Bool) (old : ℕ → V) (r : R) (a : Assignment X) : Type 0 where
    pub as_many : numel a.backup ≡ numel a.target
    pub proper : (i : ℕ) → i < numel a.target → spare (element a.target i) ≡ false
    pub clone : (i : ℕ) → i < numel a.backup → spare (element a.backup i) ≡ true
    pub kept :
        (i : ℕ) → i < numel a.target → content (element a.backup i) r ≡ old (element a.target i)

  abbrev pub Backed : (ℕ → Bool) → (ℕ → V) → R → List (Assignment X) → Type 0
  Backed spare old r [] = Unit
  Backed spare old r (a ∷ rest) = IsBacked spare old r a × Backed spare old r rest

  -- One of the targets lies over the cell.
  abbrev pub is_covered : ℕ → List (Assignment X) → Bool
  is_covered c [] = false
  is_covered c (a ∷ rest) = if covers a.target c then true else is_covered c rest

  -- Where the cell is in none of the targets, its content is the old one.
  abbrev pub Untouched : (ℕ → V) → R → List (Assignment X) → ℕ → Type 0
  Untouched old r items c = is_covered c items ≡ false → content c r ≡ old c

  pub is_covered-snoc :
      (c : ℕ) (committed : List (Assignment X)) (a : Assignment X)
      → is_covered c (committed ++ a ∷ []) ≡ false
      → (is_covered c committed ≡ false) × (covers a.target c ≡ false)
  is_covered-snoc c [] a e = elim (Bool-cases (covers a.target c)) [
    | inl hit ↦ cc (rw hit at e)
    | inr miss ↦ (refl, miss)
  ]
  is_covered-snoc c (b ∷ committed) a e = elim (Bool-cases (covers b.target c)) [
    | inl hit ↦ cc (rw hit at e)
    | inr miss ↦ rw miss (is_covered-snoc c committed a (rw miss at e))
  ]

  module _ (spare : ℕ → Bool) (old : ℕ → V) where
    -- A target has no cell of a backup.
    pub spare-apart :
        (r : R) (a : Assignment X) (c : ℕ)
        → IsBacked spare old r a
        → spare c ≡ true
        → covers a.target c ≡ false
    spare-apart r a c b s = elim (Bool-cases (covers a.target c)) [
      | inl hit ↦
          let (i, less, same) = lies_in-element (element a.target) (numel a.target) c hit in
          absurd (cc (b.proper i less, ap spare same, s))
      | inr miss ↦ miss
    ]

    -- A copy into a target leaves the backups.
    pub copy-Backed :
        (copy : CopyInto X R)
        → WritesTarget copy
        → (a : Assignment X) (s : X) (r r' : R) (answer : CopyAnswer) (items : List (Assignment X))
        → IsBacked spare old r a
        → copy a.target s r ≡ (answer, r')
        → Backed spare old r items
        → Backed spare old r' items
    copy-Backed copy writes a s r r' answer [] ready e b = tt
    copy-Backed copy writes a s r r' answer (d ∷ rest) ready e (b, others) = (
      record {
        as_many = b.as_many;
        proper = b.proper;
        clone = b.clone;
        kept = λ i less.
            writes a.target s r r' answer e (element d.backup i)
              (spare-apart r a (element d.backup i) ready (b.clone i (omega (arith, b.as_many))))
            ∙ b.kept i less;
      },
      copy-Backed copy writes a s r r' answer rest ready e others,
    )

    pub Backed-snoc :
        (r : R) (committed : List (Assignment X)) (a : Assignment X)
        → Backed spare old r committed
        → IsBacked spare old r a
        → Backed spare old r (committed ++ a ∷ [])
    Backed-snoc r [] a b ready = (ready, tt)
    Backed-snoc r (d ∷ committed) a (one, b) ready = (one, Backed-snoc r committed a b ready)
