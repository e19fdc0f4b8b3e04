-- ===== src/BigInt/Value.antt =====
-- The integer that a sign and words stand for (the formula in the comment of the `BigInt` type).
use ohos_rs.Common.{ℕ, ◌+◌, ◌*◌, ◌^◌, ◌≤◌, ◌<◌, Bool, List, [], ◌∷◌, All, arith, if◌then◌else◌}
use ohos_rs.Common.Int.{ℤ, pos, neg_ℕ}

abbrev pub magnitude : List ℕ → ℕ
magnitude [] = 0
magnitude (w ∷ ws) = w + 2 ^ 64 * magnitude ws

abbrev pub signed : Bool → ℕ → ℤ
signed s m = if s then neg_ℕ m else pos m

-- Every word is a u64.
abbrev pub IsValid : List ℕ → Type 0
IsValid ws = All (λ w. w < 2 ^ 64) ws

-- As the engine hands them over: at least one word, and no zero word on top of another.
abbrev pub IsTight : List ℕ → Type 0
IsTight [] = ⊥
IsTight (w ∷ []) = Unit
IsTight (w ∷ v ∷ ws) = (0 < magnitude (v ∷ ws)) × IsTight (v ∷ ws)

-- A tight list of three words or more is a number of more than 128 bits.
pub tight_ge :
    (w v u : ℕ) (ws : List ℕ) → IsTight (w ∷ v ∷ u ∷ ws) → 2 ^ 128 ≤ magnitude (w ∷ v ∷ u ∷ ws)
tight_ge w v u ws h = omega arith
