-- ===== src/Typegen/Template.antt =====
-- `fill_ty`: the arguments of a type go into the holes `{}` of a template.
pub mod Weave
use ohos_rs.Common.{
  ℕ, zero, suc, ◌+◌, ◌-◌, ◌==◌, if◌then◌else◌, Bool, true, false, ◌&&◌, List, [], ◌∷◌, ◌++◌, length,
  take, drop, zip,
}
use ohos_rs.Common.Text.{Text, codes}

-- `match_indices("{}")`, from position `i` on.
pub match_from : ℕ → Text → List ℕ
match_from i [] = []
match_from i (c ∷ []) = []
match_from i (c ∷ d ∷ s) = elim (c == b'{' && d == b'}') [
  | true ↦ i ∷ match_from (i + 2) s
  | false ↦ match_from (i + 1) (d ∷ s)
]

-- `template[from..to]`.
abbrev pub slice : Text → ℕ → ℕ → Text
slice t from to = take (to - from) (drop from t)

-- The loop over the matches and the arguments, and the tail behind the last match.
pub fill_from : Text → Text → ℕ → List (ℕ × Text) → Text
fill_from template ret prev [] = ret ++ drop prev template
fill_from template ret prev ((index, arg) ∷ rest) =
    fill_from template ((ret ++ slice template prev index) ++ arg) (index + 2) rest

unfoldable pub fill_ty : Text → List Text → Text
unfolding match_from fill_from
fill_ty template args =
    if length args == length (match_from 0 template)
    then fill_from template [] 0 (zip (match_from 0 template) args)
    else codes "any"
