-- ===== src/BigInt/Wide.antt =====
-- `get_i128` and `get_u128` against the integer that the words stand for.
use ohos_rs.Common.{
  ℕ, ◌+◌, ◌-◌, ◌*◌, ◌<◌, ◌^◌, ◌≡◌, ◌≢◌, ◌↔◌, ◌⊎◌, inl, inr, Bool, true, false, some, none, List, [],
  ◌∷◌, arith, Option-cases,
}
use ohos_rs.Common.Int.{ℤ, negsuc}
use ohos_rs.BigInt.{BigInt, get_i128, get_u128}
use ohos_rs.BigInt.Value.{magnitude, signed, IsValid, IsTight}
use ohos_rs.BigInt.Signed.{IsExact}

get_i128-one :
    (s : Bool) (w : ℕ)
    → w < 2 ^ 64
    → get_i128 (record { sign_bit = s; words = w ∷ [] }) ≡ some (signed s w, true)
unfolding get_i128
get_i128-one true w b = ground arith
get_i128-one false w b = ground arith

get_i128-two :
    (s : Bool) (w v : ℕ) (r : ℤ × Bool)
    → w < 2 ^ 64
    → v < 2 ^ 64
    → (s ≡ false) ⊎ (w + v * 2 ^ 64 ≢ 2 ^ 127)
    → get_i128 (record { sign_bit = s; words = w ∷ v ∷ [] }) ≡ some r
    → IsExact (2 ^ 127) (signed s (magnitude (w ∷ v ∷ []))) r
unfolding get_i128
get_i128-two true w v (r, l) bw bv ne h = ground arith
get_i128-two false w v (r, l) bw bv ne h = ground arith

get_i128-many :
    (s : Bool) (w v u : ℕ) (ws : List ℕ) (r : ℤ × Bool)
    → w < 2 ^ 64
    → v < 2 ^ 64
    → 0 < magnitude (u ∷ ws)
    → (s ≡ false) ⊎ (w + v * 2 ^ 64 ≢ 2 ^ 127)
    → get_i128 (record { sign_bit = s; words = w ∷ v ∷ u ∷ ws }) ≡ some r
    → IsExact (2 ^ 127) (signed s (magnitude (w ∷ v ∷ u ∷ ws))) r
unfolding get_i128
get_i128-many true w v u ws (r, l) bw bv p ne h = ground arith
get_i128-many false w v u ws (r, l) bw bv p ne h = ground arith

get_i128-total :
    (s : Bool) (w : ℕ) (ws : List ℕ)
    → w < 2 ^ 64
    → IsValid ws
    → get_i128 (record { sign_bit = s; words = w ∷ ws }) ≢ none
unfolding get_i128
get_i128-total s w [] b va = ground arith
get_i128-total true w (v ∷ ws) b va = ground arith
get_i128-total false w (v ∷ ws) b va = ground arith

abbrev pub low : List ℕ → ℕ
low [] = 0
low (w ∷ []) = w
low (w ∷ v ∷ _) = w + v * 2 ^ 64

-- On tight valid words `get_i128` does not panic; its flag is set exactly when the integer fits an
-- i128, and a value that is flagged is the integer. The negative numbers whose low 128 bits are
-- 2 ^ 127 are excepted.
pub get_i128-IsExact :
    (b : BigInt)
    → IsValid b.words
    → IsTight b.words
    → (b.sign_bit ≡ false) ⊎ (low b.words ≢ 2 ^ 127)
    → (r : ℤ × Bool) × (get_i128 b ≡ some r)
      × IsExact (2 ^ 127) (signed b.sign_bit (magnitude b.words)) r
get_i128-IsExact b valid tight ne = of_words b.sign_bit b.words valid tight ne
  where
    found :
        (s : Bool) (w : ℕ) (ws : List ℕ)
        → IsValid (w ∷ ws)
        → (r : ℤ × Bool) × (get_i128 (record { sign_bit = s; words = w ∷ ws }) ≡ some r)
    found s w ws h = elim (Option-cases (get_i128 (record { sign_bit = s; words = w ∷ ws }))) [
      | inl e ↦ absurd (get_i128-total s w ws h.0 h.1 e)
      | inr (r, e) ↦ (r, e)
    ]

    of_words :
        (s : Bool) (ws : List ℕ)
        → IsValid ws
        → IsTight ws
        → (s ≡ false) ⊎ (low ws ≢ 2 ^ 127)
        → (r : ℤ × Bool) × (get_i128 (record { sign_bit = s; words = ws }) ≡ some r)
          × IsExact (2 ^ 127) (signed s (magnitude ws)) r
    of_words s [] va t ne = elim t [ ]
    of_words true (w ∷ []) va t ne = (_, get_i128-one true w va.0, ground arith)
    of_words false (w ∷ []) va t ne = (_, get_i128-one false w va.0, ground arith)
    of_words s (w ∷ v ∷ []) va t ne =
        let (r, e) = found s w (v ∷ []) va in (r, e, get_i128-two s w v r va.0 va.1.0 ne e)
    of_words s (w ∷ v ∷ u ∷ ws) va t ne =
        let (r, e) = found s w (v ∷ u ∷ ws) va in
        (r, e, get_i128-many s w v u ws r va.0 va.1.0 t.1.0 ne e)

-- On the excepted numbers the flag is inverted: the value is the least i128, and it is flagged as
-- lossless exactly when there are more than two words, that is, when it is not the integer.
pub get_i128_least_inverted :
    (w v : ℕ) (ws : List ℕ)
    → w + v * 2 ^ 64 ≡ 2 ^ 127
    → IsTight (w ∷ v ∷ ws)
    → (l : Bool) × (get_i128 (record { sign_bit = true; words = w ∷ v ∷ ws })
        ≡ some (negsuc (2 ^ 127 - 1), l))
      × ((l ≡ true) ↔ (signed true (magnitude (w ∷ v ∷ ws)) ≢ negsuc (2 ^ 127 - 1)))
unfolding get_i128
get_i128_least_inverted w v [] e t = (false, ground arith, ground arith)
get_i128_least_inverted w v (u ∷ ws) e t = (true, ground arith, ground arith)

-- On tight valid words `get_u128` does not panic and gives the sign; its flag is set exactly when
-- the magnitude is a u128, and then the value is the magnitude.
pub get_u128_exact :
    (b : BigInt)
    → IsValid b.words
    → IsTight b.words
    → (v : ℕ) × (l : Bool) × (get_u128 b ≡ some (b.sign_bit, v, l))
      × ((l ≡ true) ↔ (magnitude b.words < 2 ^ 128))
      × (l ≡ true → v ≡ magnitude b.words)
unfolding get_u128
get_u128_exact b valid tight = of_words b.sign_bit b.words valid tight
  where
    of_words :
        (s : Bool) (ws : List ℕ)
        → IsValid ws
        → IsTight ws
        → (v : ℕ) × (l : Bool) × (get_u128 (record { sign_bit = s; words = ws }) ≡ some (s, v, l))
          × ((l ≡ true) ↔ (magnitude ws < 2 ^ 128))
          × (l ≡ true → v ≡ magnitude ws)
    of_words s [] va t = elim t [ ]
    of_words s (w ∷ []) va t = (w, true, ground arith, ground arith, λ h. omega arith)
    of_words s (w ∷ v ∷ []) va t =
        (w + v * 2 ^ 64, true, ground arith, ground arith, λ h. omega arith)
    of_words s (w ∷ v ∷ u ∷ ws) va t =
        (w + v * 2 ^ 64, false, ground arith, ground arith, λ h. ground arith)
