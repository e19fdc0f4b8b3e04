-- ===== src/BigInt/Signed.antt =====
-- `get_u64` and `get_i64` against the integer that the words stand for.
use ohos_rs.Common.{
  ℕ, ◌-◌, ◌<◌, ◌^◌, ◌≡◌, ◌≢◌, ◌↔◌, inl, inr, Bool, true, false, some, none, List, [], ◌∷◌, arith,
  not, ◌&&◌, Option-cases,
}
use ohos_rs.Common.Int.{ℤ, pos, InRange}
use ohos_rs.BigInt.{BigInt, get_u64, get_i64}
use ohos_rs.BigInt.Value.{magnitude, signed, IsValid, IsTight}

-- What a pair of a value and a `lossless` flag must say of the integer `n`.
abbrev pub IsExact : ℕ → ℤ → ℤ × Bool → Type 0
IsExact half n (v, lossless) = ((lossless ≡ true) ↔ InRange half n) × (lossless ≡ true → v ≡ n)

get_i64-one :
    (s : Bool) (w : ℕ) (r : ℤ × Bool)
    → w < 2 ^ 64
    → get_i64 (record { sign_bit = s; words = w ∷ [] }) ≡ some r
    → IsExact (2 ^ 63) (signed s (magnitude (w ∷ []))) r
unfolding get_i64
get_i64-one true w (v, l) b h = ground arith
get_i64-one false w (v, l) b h = ground arith

get_i64-many :
    (s : Bool) (w v : ℕ) (ws : List ℕ) (r : ℤ × Bool)
    → 0 < magnitude (v ∷ ws)
    → get_i64 (record { sign_bit = s; words = w ∷ v ∷ ws }) ≡ some r
    → IsExact (2 ^ 63) (signed s (magnitude (w ∷ v ∷ ws))) r
unfolding get_i64
get_i64-many true w v ws r b h = ground arith
get_i64-many false w v ws r b h = ground arith

get_i64-total :
    (s : Bool) (w : ℕ) (ws : List ℕ)
    → w < 2 ^ 64
    → get_i64 (record { sign_bit = s; words = w ∷ ws }) ≢ none
unfolding get_i64
get_i64-total true w ws b = ground arith
get_i64-total false w ws b = ground arith

-- On tight valid words `get_i64` does not panic; its flag is set exactly when the integer fits an
-- i64, and a value that is flagged is the integer.
pub get_i64-IsExact :
    (b : BigInt)
    → IsValid b.words
    → IsTight b.words
    → (r : ℤ × Bool) × (get_i64 b ≡ some r)
      × IsExact (2 ^ 63) (signed b.sign_bit (magnitude b.words)) r
get_i64-IsExact b valid tight = of_words b.sign_bit b.words valid tight
  where
    found :
        (s : Bool) (w : ℕ) (ws : List ℕ)
        → w < 2 ^ 64
        → (r : ℤ × Bool) × (get_i64 (record { sign_bit = s; words = w ∷ ws }) ≡ some r)
    found s w ws h = elim (Option-cases (get_i64 (record { sign_bit = s; words = w ∷ ws }))) [
      | inl e ↦ absurd (get_i64-total s w ws h e)
      | inr (r, e) ↦ (r, e)
    ]

    of_words :
        (s : Bool) (ws : List ℕ)
        → IsValid ws
        → IsTight ws
        → (r : ℤ × Bool) × (get_i64 (record { sign_bit = s; words = ws }) ≡ some r)
          × IsExact (2 ^ 63) (signed s (magnitude ws)) r
    of_words s [] va t = elim t [ ]
    of_words s (w ∷ []) va t = let (r, e) = found s w [] va.0 in (r, e, get_i64-one s w r va.0 e)
    of_words s (w ∷ v ∷ ws) va t =
        let (r, e) = found s w (v ∷ ws) va.0 in (r, e, get_i64-many s w v ws r t.0 e)

-- On tight valid words `get_u64` does not panic; its flag is set exactly when the integer is a u64,
-- and then the word is that integer.
pub get_u64_exact :
    (b : BigInt)
    → IsValid b.words
    → IsTight b.words
    → (w : ℕ) × (l : Bool) × (get_u64 b ≡ some (b.sign_bit, w, l))
      × ((l ≡ true) ↔ ((b.sign_bit ≡ false) × (magnitude b.words < 2 ^ 64)))
      × (l ≡ true → magnitude b.words ≡ w)
unfolding get_u64
get_u64_exact b valid tight = of_words b.sign_bit b.words valid tight
  where
    of_words :
        (s : Bool) (ws : List ℕ)
        → IsValid ws
        → IsTight ws
        → (w : ℕ) × (l : Bool) × (get_u64 (record { sign_bit = s; words = ws }) ≡ some (s, w, l))
          × ((l ≡ true) ↔ ((s ≡ false) × (magnitude ws < 2 ^ 64)))
          × (l ≡ true → magnitude ws ≡ w)
    of_words s [] va t = elim t [ ]
    of_words s (w ∷ []) va t = (w, not s && true, ground arith, ground arith, λ h. omega arith)
    of_words s (w ∷ v ∷ ws) va t =
        (w, not s && false, ground arith, ground arith, λ h. ground arith)

-- A word above 2 ^ 63 with the sign of a negative number is read as a positive one.
pub get_i64-wraps :
    (w : ℕ)
    → 2 ^ 63 < w
    → w < 2 ^ 64
    → get_i64 (record { sign_bit = true; words = w ∷ [] }) ≡ some (pos (2 ^ 64 - w), false)
unfolding get_i64
get_i64-wraps w h k = ground arith
