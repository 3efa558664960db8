-- ===== src/Base/Texts.antt =====
-- Python's `startswith` and `in` on texts, which are lists of code points.
use Prim.Native.Nat.{ℕ}
use mathlib.Core.Path.{◌≡◌, refl}
use mathlib.Core.Bool.{Bool, true, false, ◌&&◌, ◌||◌}
use mathlib.Core.List.{List, [], ◌∷◌, ◌++◌}
use native.Mathlib.Omega.{arith}
use behaviour_sim_api.Base.Tests.{◌==◌}

-- `text.startswith(prefix)`
abbrev pub begins_with : List ℕ → List ℕ → Bool
begins_with [] text = true
begins_with (c ∷ cs) [] = false
begins_with (c ∷ cs) (d ∷ ds) = c == d && begins_with cs ds

-- `part in text`
abbrev pub is_part : List ℕ → List ℕ → Bool
is_part part [] = begins_with part []
is_part part (c ∷ cs) = begins_with part (c ∷ cs) || is_part part cs

-- `not text`
abbrev pub is_empty : List ℕ → Bool
is_empty [] = true
is_empty (c ∷ cs) = false

pub begins_with-append : (prefix rest : List ℕ) → begins_with prefix (prefix ++ rest) ≡ true
begins_with-append [] rest = refl
begins_with-append (c ∷ cs) rest = ground (arith, begins_with-append cs rest)
