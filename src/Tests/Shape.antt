-- ===== src/Tests/Shape.antt =====
-- Runs of the model of native/src/tensor/shape.cc.
use tensora.Core.Status.{ok, invalid_shape, invalid_argument}
use tensora.Shape.{ShapeInfo, max_tensor_rank, validate_shape}
use tensora.Shape.Validate.{canonical, Verdict, validate_shape-Verdict}
use tensora.Shape.Edges.{validate_shape-null}
use tensora.Prelude.{ℕ, ◌<◌, ◌≤◌, ◌≡◌, none, some, List, [], ◌∷◌, ℤ, pos, entries, get_or}

abbrev blank : ShapeInfo
blank = record { dimensions = []; strides = []; numel = 0; byte_size = 0 }

abbrev dims : List ℤ
dims = pos 2 ∷ pos 3 ∷ pos 4 ∷ []

abbrev read : ℕ → ℤ
read i = get_or dims i (pos 0)

validate_shape-Verdict_example :
    Verdict (entries read 0 3) blank (validate_shape (some read) 3 (some blank))
validate_shape-Verdict_example = validate_shape-Verdict read 3 blank

validate_shape-null_example :
    let (s, out) = validate_shape none 0 (some blank) in
    (◌≡◌ {A = ℕ} 0 0 → (s ≡ ok) × (out ≡ some (canonical [])))
    × (0 < 0 → 0 ≤ max_tensor_rank → (s.code ≡ invalid_argument) × (out ≡ some blank))
    × (max_tensor_rank < 0 → (s.code ≡ invalid_shape) × (out ≡ some blank))
    × ((validate_shape none 0 none).0.code ≡ invalid_argument)
validate_shape-null_example = validate_shape-null 0 blank
