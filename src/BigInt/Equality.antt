-- ===== src/BigInt/Equality.antt =====
-- `eq` compares the numbers, whatever zero words stand on top.
use ohos_rs.Common.{
  ℕ, zero, suc, ◌+◌, ◌≤◌, ◌<◌, max, ◌≡◌, refl, ◌↔◌, ◌⊎◌, inl, inr, true, List, [], ◌∷◌, length,
  get_or, arith, ==_iff, bool_eq_iff, Bool-cases, ◌==◌, subst,
}
use ohos_rs.BigInt.{BigInt, eq_from, eq}
use ohos_rs.BigInt.Value.{magnitude, IsValid}

abbrev SameFrom : ℕ → ℕ → List ℕ → List ℕ → Type 0
SameFrom rounds i xs ys = (j : ℕ) → i ≤ j → j < i + rounds → get_or xs j 0 ≡ get_or ys j 0

here_or_later : (i j : ℕ) → i ≤ j → (j ≡ i) ⊎ (i + 1 ≤ j)
here_or_later i j h = grind arith

eq_from-to :
    (rounds i : ℕ) (a b : BigInt)
    → eq_from rounds i a b ≡ true
    → SameFrom rounds i a.words b.words × (a.sign_bit ≡ b.sign_bit)
unfolding eq_from
eq_from-to zero i a b h = (λ j p q. absurd (omega arith), (bool_eq_iff _ _).0 h)
eq_from-to (suc rounds) i a b h = elim (Bool-cases (get_or a.words i 0 == get_or b.words i 0)) [
  | inl same ↦
      let (rest, signs) = eq_from-to rounds (i + 1) a b (rw same at h) in
      (
        λ j p q. elim (here_or_later i j p) [
          | inl e ↦
              subst (λ k. get_or a.words k 0 ≡ get_or b.words k 0) (omega arith)
                ((==_iff _ _).0 same)
          | inr later ↦ rest j later (omega arith)
        ],
        signs,
      )
  | inr differ ↦ absurd (cc)
]

eq_from-of :
    (rounds i : ℕ) (a b : BigInt)
    → SameFrom rounds i a.words b.words
    → a.sign_bit ≡ b.sign_bit
    → eq_from rounds i a b ≡ true
unfolding eq_from
eq_from-of zero i a b same signs = (bool_eq_iff _ _).1 signs
eq_from-of (suc rounds) i a b same signs =
    rw ((==_iff (get_or a.words i 0) (get_or b.words i 0)).1 (same i (omega arith) (omega arith)))
      (eq_from-of rounds (i + 1) a b (λ j p q. same j (omega arith) (omega arith)) signs)

pub eq_of_digits :
    (a b : BigInt)
    → ((j : ℕ) → get_or a.words j 0 ≡ get_or b.words j 0)
    → a.sign_bit ≡ b.sign_bit
    → eq a b ≡ true
unfolding eq
eq_of_digits a b same signs = eq_from-of _ 0 a b (λ j p q. same j) signs

get_or-out : (xs : List ℕ) (j : ℕ) → length xs ≤ j → get_or xs j 0 ≡ 0
get_or-out [] j h = refl
get_or-out (x ∷ xs) zero h = absurd (omega arith)
get_or-out (x ∷ xs) (suc j) h = get_or-out xs j (omega arith)

magnitude_zero : (ys : List ℕ) → ((j : ℕ) → get_or ys j 0 ≡ 0) → magnitude ys ≡ 0
magnitude_zero [] h = refl
magnitude_zero (y ∷ ys) h = omega (arith, h 0, magnitude_zero ys (λ j. h (suc j)))

digits_zero : (ys : List ℕ) (j : ℕ) → magnitude ys ≡ 0 → get_or ys j 0 ≡ 0
digits_zero [] j h = refl
digits_zero (y ∷ ys) zero h = omega arith
digits_zero (y ∷ ys) (suc j) h = digits_zero ys j (omega arith)

magnitude_of_digits :
    (xs ys : List ℕ) → ((j : ℕ) → get_or xs j 0 ≡ get_or ys j 0) → magnitude xs ≡ magnitude ys
magnitude_of_digits [] ys h = omega (arith, magnitude_zero ys (λ j. omega (arith, h j)))
magnitude_of_digits (x ∷ xs) [] h = magnitude_zero (x ∷ xs) h
magnitude_of_digits (x ∷ xs) (y ∷ ys) h =
    omega (arith, h 0, magnitude_of_digits xs ys (λ j. h (suc j)))

digits_of_magnitude :
    (xs ys : List ℕ) (j : ℕ)
    → IsValid xs
    → IsValid ys
    → magnitude xs ≡ magnitude ys
    → get_or xs j 0 ≡ get_or ys j 0
digits_of_magnitude [] ys j vx vy h = omega (arith, digits_zero ys j (omega arith))
digits_of_magnitude (x ∷ xs) [] j vx vy h = digits_zero (x ∷ xs) j h
digits_of_magnitude (x ∷ xs) (y ∷ ys) zero vx vy h = omega arith
digits_of_magnitude (x ∷ xs) (y ∷ ys) (suc j) vx vy h =
    digits_of_magnitude xs ys j vx.1 vy.1 (omega arith)

below_or_out : (j m : ℕ) → (j < m) ⊎ (m ≤ j)
below_or_out j m = omega arith

-- Two values compare equal exactly when their signs agree and their words stand for the same
-- natural number, so zero words on top make no difference. Every word has to be a u64.
pub eq_iff_same_number :
    (a b : BigInt)
    → IsValid a.words
    → IsValid b.words
    → (eq a b ≡ true) ↔ ((magnitude a.words ≡ magnitude b.words) × (a.sign_bit ≡ b.sign_bit))
unfolding eq
eq_iff_same_number a b va vb = (
  λ h.
      let (same, signs) = eq_from-to _ 0 a b h in
      (
        magnitude_of_digits a.words b.words (λ j.
            elim (below_or_out j (max (length a.words) (length b.words))) [
              | inl p ↦ same j (omega arith) (omega arith)
              | inr q ↦
                  omega
                    (arith, get_or-out a.words j (omega arith), get_or-out b.words j (omega arith))
            ]),
        signs,
      ),
  λ h. eq_from-of _ 0 a b (λ j p q. digits_of_magnitude a.words b.words j va vb h.0) h.1,
)
