-- ===== src/Base/TextOrder.antt =====
-- Python's order of texts: by their code points, a text before its continuations.
use Prim.Native.Char.{code}
use Prim.Native.Nat.{ℕ}
use Prim.Native.String.{String}
use mathlib.Core.Bool.{Bool, true, false, ◌&&◌, ◌||◌}
use mathlib.Core.List.{List, [], ◌∷◌}
use tradeschool.Base.Lists.{length}
use tradeschool.Base.Tests.{ltb, ◌==◌}

abbrev pub points : String → List ℕ
points String.[] = []
points (String.◌∷◌ c s) = code c ∷ points s

abbrev points_le : List ℕ → List ℕ → Bool
points_le [] _ = true
points_le (_ ∷ _) [] = false
points_le (c ∷ s) (d ∷ t) = ltb c d || (c == d && points_le s t)

unfoldable pub text_le : String → String → Bool
text_le s t = points_le (points s) (points t)

-- `len(s)`
unfoldable pub text_length : String → ℕ
text_length s = length (points s)
