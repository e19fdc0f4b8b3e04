-- ===== src/Serde/Integers.antt =====
-- The integers that `deserialize_any` of crates/napi/src/js_values/de.rs reads from a bigint.
use ohos_rs.Common.{
  ℕ, suc, ◌+◌, ◌-◌, ◌*◌, ◌^◌, ◌≤◌, ◌<◌, ◌≡◌, refl, ◌⊎◌, inr, ltb, if◌then◌else◌, true, false, List,
  [], ◌∷◌, arith, ◌∙◌, ap,
}
use native.Mathlib.Decide.{ℕ_discrete}
use ohos_rs.Common.Int.{ℤ, pos, negsuc}
use ohos_rs.BigInt.Value.{IsValid, IsTight, magnitude, tight_ge}
use ohos_rs.BigInt.Signed.{get_i64-IsExact, get_u64_exact, get_i64-wraps}
use ohos_rs.BigInt.Wide.{get_i128-IsExact, get_u128_exact, get_i128_least_inverted}
use ohos_rs.Serde.{
  IntType, i64, i128, u64, u128, visit_integer, done, Engine, IsDocumented, engine_words,
}
use ohos_rs.Serde.De.{deserialize_bigint, visit_bigint, visit_first, visit_second}

-- The method of the visitor that is called.
abbrev pub kind : ℤ → IntType
kind (pos n) = if ltb n (2 ^ 64) then u64 else u128
kind (negsuc n) = if ltb n (2 ^ 64 - 1) then i64 else i128

-- Between -2 ^ 64 and -2 ^ 63 one word holds the magnitude, but no i64 the number.
abbrev pub IsReadable : ℤ → Type 0
IsReadable (pos n) = n < 2 ^ 128
IsReadable (negsuc n) = (n < 2 ^ 63) ⊎ (2 ^ 64 - 1 ≤ n) × (n < 2 ^ 127)

-- The four methods of the visitor.
call_u64 :
    (w : ℕ)
    → w < 2 ^ 64
    → deserialize_bigint (record { sign_bit = false; words = w ∷ [] })
      ≡ done (visit_integer u64 (pos w))
unfolding deserialize_bigint visit_bigint visit_second
call_u64 w h =
    let (x, l, e, exact, value) =
      get_u64_exact (record { sign_bit = false; words = w ∷ [] }) (h, tt) tt in
    rw e (
      ap (λ (y : ℕ). done (visit_integer u64 (pos y)))
        (omega (arith, value (exact.1 (refl, omega arith)))))

call_u128 :
    (w u : ℕ)
    → w < 2 ^ 64
    → u < 2 ^ 64
    → 0 < u
    → deserialize_bigint (record { sign_bit = false; words = w ∷ u ∷ [] })
      ≡ done (visit_integer u128 (pos (w + u * 2 ^ 64)))
unfolding deserialize_bigint visit_bigint visit_second
call_u128 w u h k p =
    let (x, l, e, exact, value) =
      get_u128_exact (record { sign_bit = false; words = w ∷ u ∷ [] }) (h, (k, tt))
        (omega arith, tt) in
    rw e (
      ap (λ (y : ℕ). done (visit_integer u128 (pos y)))
        (omega (arith, value (exact.1 (omega arith)))))

call_i64 :
    (w : ℕ)
    → w < 2 ^ 63
    → deserialize_bigint (record { sign_bit = true; words = suc w ∷ [] })
      ≡ done (visit_integer i64 (negsuc w))
unfolding deserialize_bigint visit_bigint visit_first
call_i64 w h =
    let ((x, l), e, (exact, value)) =
      get_i64-IsExact (record { sign_bit = true; words = suc w ∷ [] }) (omega arith, tt) tt in
    rw e
      (ap (λ (y : ℤ). done (visit_integer i64 y)) (value (exact.1 (ground arith)) ∙ ground arith))

call_i128 :
    (w u : ℕ)
    → w < 2 ^ 64
    → u < 2 ^ 64
    → 0 < u
    → w + u * 2 ^ 64 ≤ 2 ^ 127
    → deserialize_bigint (record { sign_bit = true; words = w ∷ u ∷ [] })
      ≡ done (visit_integer i128 (negsuc (w + u * 2 ^ 64 - 1)))
unfolding deserialize_bigint visit_bigint visit_first
call_i128 w u h k p le = elim (ℕ_discrete (w + u * 2 ^ 64) (2 ^ 127)) [
  | yes least ↦
      let (l, e, flag) = get_i128_least_inverted w u [] least (omega arith, tt) in
      rw e (ap (λ (y : ℕ). done (visit_integer i128 (negsuc y))) (omega arith))
  | no other ↦
      let ((x, l), e, (exact, value)) =
        get_i128-IsExact (record { sign_bit = true; words = w ∷ u ∷ [] }) (h, (k, tt))
          (omega arith, tt) (inr other) in
      rw e (
        ap (λ (y : ℤ). done (visit_integer i128 y)) (value (exact.1 (ground arith)) ∙ ground arith))
]

read_pos :
    (ws : List ℕ) (n : ℕ)
    → IsValid ws
    → IsTight ws
    → magnitude ws ≡ n
    → n < 2 ^ 128
    → deserialize_bigint (record { sign_bit = false; words = ws })
      ≡ done (visit_integer (kind (pos n)) (pos n))
read_pos [] n v t e h = absurd t
read_pos (w ∷ []) n v t e h = call_u64 w v.0 ∙ ground arith
read_pos (w ∷ u ∷ []) n v t e h = call_u128 w u v.0 v.1.0 (omega arith) ∙ ground arith
read_pos (w ∷ u ∷ x ∷ ws) n v t e h = absurd (omega (arith, tight_ge w u x ws t))

read_negsuc :
    (ws : List ℕ) (n : ℕ)
    → IsValid ws
    → IsTight ws
    → magnitude ws ≡ suc n
    → IsReadable (negsuc n)
    → deserialize_bigint (record { sign_bit = true; words = ws })
      ≡ done (visit_integer (kind (negsuc n)) (negsuc n))
read_negsuc [] n v t e h = absurd t
read_negsuc (w ∷ []) n v t e h =
    let same : w ≡ suc n = omega arith in rw same (call_i64 n (ground arith) ∙ ground arith)
read_negsuc (w ∷ u ∷ []) n v t e h =
    call_i128 w u v.0 v.1.0 (omega arith) (ground arith) ∙ ground arith
read_negsuc (w ∷ u ∷ x ∷ ws) n v t e h = absurd (ground (arith, tight_ge w u x ws t))

-- Every bigint of at most 128 bits reaches the visitor as the integer that it is, by the narrowest
-- of its four methods, except for those between -2 ^ 64 and -2 ^ 63.
pub deserialize_bigint-IsReadable :
    (engine : Engine)
    → IsDocumented engine
    → (z : ℤ) → IsReadable z
    → deserialize_bigint (engine_words engine z) ≡ done (visit_integer (kind z) z)
deserialize_bigint-IsReadable engine doc (pos n) h =
    rw (doc.sign (pos n))
      (read_pos _ n (doc.valid (pos n)) (doc.tight (pos n)) (doc.read (pos n)) h)
deserialize_bigint-IsReadable engine doc (negsuc n) h =
    rw (doc.sign (negsuc n))
      (read_negsuc _ n (doc.valid (negsuc n)) (doc.tight (negsuc n)) (doc.read (negsuc n)) h)

wrapped :
    (ws : List ℕ) (n : ℕ)
    → IsValid ws
    → IsTight ws
    → magnitude ws ≡ suc n
    → 2 ^ 63 ≤ n
    → suc n < 2 ^ 64
    → deserialize_bigint (record { sign_bit = true; words = ws })
      ≡ done (visit_integer i64 (pos (2 ^ 64 - suc n)))
unfolding deserialize_bigint visit_bigint visit_first
wrapped [] n v t e h k = absurd t
wrapped (w ∷ []) n v t e h k =
    let same : w ≡ suc n = omega arith in
    rw (get_i64-wraps w (omega arith) (omega arith)) (rw same refl)
wrapped (w ∷ u ∷ ws) n v t e h k = absurd (omega arith)

-- A bigint between -2 ^ 64 and -2 ^ 63 reaches the visitor as a positive number: what is missing to
-- 2 ^ 64.
pub deserialize_bigint_wraps :
    (engine : Engine)
    → IsDocumented engine
    → (n : ℕ) → 2 ^ 63 ≤ n
    → suc n < 2 ^ 64
    → deserialize_bigint (engine_words engine (negsuc n))
      ≡ done (visit_integer i64 (pos (2 ^ 64 - suc n)))
deserialize_bigint_wraps engine doc n h k =
    rw (doc.sign (negsuc n))
      (wrapped _ n (doc.valid (negsuc n)) (doc.tight (negsuc n)) (doc.read (negsuc n)) h k)
