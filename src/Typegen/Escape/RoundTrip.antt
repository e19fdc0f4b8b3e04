-- ===== src/Typegen/Escape/RoundTrip.antt =====
-- A JSON reader gets back what `escape_json` was given.
use ohos_rs.Common.{
  ℕ, zero, suc, ◌+◌, ◌-◌, ◌*◌, ◌/◌, ◌%◌, ◌<◌, ltb, leb, ltb→lt, Bool-cases, inl, inr, ◌==◌,
  if◌then◌else◌, true, false, ◌&&◌, ◌||◌, Option, none, some, List, [], ◌∷◌, ◌++◌, ◌≡◌, refl, ap,
  ◌∙◌, arith, All,
}
use ohos_rs.Common.Text.{Text}
use ohos_rs.Typegen.Escape.{hex_digit, hex_4, encode_utf16, escape_units, escape_char, escape_json}

-- The inside of a JSON string, read into UTF-16 units: between characters, behind a backslash, or
-- with so many hexadecimal digits still to come.
pub data Reader : Type 0 where
  plain escaped : Reader
  hex : ℕ → ℕ → Reader

digit_value : ℕ → Option ℕ
digit_value c =
    if leb b'0' c && leb c b'9'
    then some (c - b'0')
    else if leb b'A' c && leb c b'F'
    then some (c - b'A' + 10)
    else if leb b'a' c && leb c b'f'
    then some (c - b'a' + 10)
    else none

abbrev emit : ℕ → Option (Reader × List ℕ)
emit u = some (plain, u ∷ [])

abbrev short_escape : ℕ → Option (Reader × List ℕ)
short_escape c =
    if c == b'b'
    then emit 8
    else if c == b'f'
    then emit 12
    else if c == b'n'
    then emit 10
    else if c == b'r'
    then emit 13
    else if c == b't'
    then emit 9
    else if c == b'"' || c == b'\\' || c == b'/'
    then emit c
    else if c == b'u'
    then some (hex 4 0, [])
    else none

read : Reader → ℕ → Option (Reader × List ℕ)
read plain c =
    if c == b'\\'
    then some (escaped, [])
    else if c == b'"' || ltb c 0x20
    then none
    else some (plain, encode_utf16 c)
read escaped c = short_escape c
read (hex zero acc) c = none
read (hex (suc n) acc) c = elim (digit_value c) [
  | none ↦ none
  | some d ↦ if n == 0 then emit (acc * 16 + d) else some (hex n (acc * 16 + d), [])
]

-- `out` read before the rest.
abbrev pub before : List ℕ → Option (List ℕ) → Option (List ℕ)
before out none = none
before out (some us) = some (out ++ us)

pub read_all : Reader → Text → Option (List ℕ)
read_all plain [] = some []
read_all escaped [] = none
read_all (hex _ _) [] = none
read_all r (c ∷ s) = elim (read r c) [ none ↦ none | some (r', out) ↦ before out (read_all r' s) ]

pub encode_all : Text → List ℕ
encode_all [] = []
encode_all (c ∷ s) = encode_utf16 c ++ encode_all s

digit_value-hex_digit : (d : ℕ) → d < 16 → digit_value (hex_digit d) ≡ some d
unfolding hex_digit digit_value
digit_value-hex_digit d h = ground arith

read_all-cons :
    (r r' : Reader) (c : ℕ) (out : List ℕ) (s : Text)
    → read r c ≡ some (r', out)
    → read_all r (c ∷ s) ≡ before out (read_all r' s)
unfolding read_all
read_all-cons plain r' c out s e = ground arith
read_all-cons escaped r' c out s e = ground arith
read_all-cons (hex n acc) r' c out s e = ground arith

before-nil : (o : Option (List ℕ)) → before [] o ≡ o
before-nil none = refl
before-nil (some us) = refl

read_hex :
    (n acc d : ℕ)
    → d < 16
    → read (hex (suc n) acc) (hex_digit d)
      ≡ (if n == 0 then emit (acc * 16 + d) else some (hex n (acc * 16 + d), []))
unfolding read
read_hex n acc d h = rw (digit_value-hex_digit d h, read)

step_hex :
    (n acc d : ℕ) (s : Text)
    → d < 16
    → read_all (hex (suc (suc n)) acc) (hex_digit d ∷ s) ≡ read_all (hex (suc n) (acc * 16 + d)) s
step_hex n acc d s h =
    read_all-cons (hex (suc (suc n)) acc) (hex (suc n) (acc * 16 + d)) (hex_digit d) [] s
      (read_hex (suc n) acc d h ∙ ground arith)
    ∙ before-nil (read_all (hex (suc n) (acc * 16 + d)) s)

last_hex :
    (acc d : ℕ) (s : Text)
    → d < 16
    → read_all (hex 1 acc) (hex_digit d ∷ s) ≡ before ((acc * 16 + d) ∷ []) (read_all plain s)
last_hex acc d s h =
    read_all-cons (hex 1 acc) plain (hex_digit d) ((acc * 16 + d) ∷ []) s (read_hex 0 acc d h)

read_all-hex_4 :
    (u : ℕ) (s : Text)
    → u < 0x10000
    → read_all (hex 4 0) (hex_4 u ++ s) ≡ before (u ∷ []) (read_all plain s)
unfolding hex_4
read_all-hex_4 u s h =
    rw
      (
        step_hex 2 0 (u / 4096)
            (hex_digit (u / 256 % 16) ∷ hex_digit (u / 16 % 16) ∷ hex_digit (u % 16) ∷ s)
            (omega arith),
        step_hex 1 (0 * 16 + u / 4096) (u / 256 % 16)
            (hex_digit (u / 16 % 16) ∷ hex_digit (u % 16) ∷ s) (omega arith),
        step_hex 0 ((0 * 16 + u / 4096) * 16 + u / 256 % 16) (u / 16 % 16) (hex_digit (u % 16) ∷ s)
            (omega arith),
        last_hex (((0 * 16 + u / 4096) * 16 + u / 256 % 16) * 16 + u / 16 % 16) (u % 16) s
            (omega arith),
      )
      (ap (λ (v : ℕ). before (v ∷ []) (read_all plain s)) (omega arith))

read_backslash :
    (l : ℕ) (r : Reader) (out : List ℕ) (s : Text)
    → short_escape l ≡ some (r, out)
    → read_all plain (b'\\' ∷ l ∷ s) ≡ before out (read_all r s)
unfolding read
read_backslash l r out s e =
    read_all-cons plain escaped b'\\' [] (l ∷ s) refl
    ∙ before-nil (read_all escaped (l ∷ s))
    ∙ read_all-cons escaped r l out s e

read_unit :
    (u : ℕ) (s : Text)
    → u < 0x10000
    → read_all plain (b'\\' ∷ b'u' ∷ (hex_4 u ++ s)) ≡ before (u ∷ []) (read_all plain s)
read_unit u s h =
    read_backslash b'u' (hex 4 0) [] (hex_4 u ++ s) refl
    ∙ before-nil (read_all (hex 4 0) (hex_4 u ++ s))
    ∙ read_all-hex_4 u s h

before-cons :
    (u v : ℕ) (o : Option (List ℕ)) → before (u ∷ []) (before (v ∷ []) o) ≡ before (u ∷ v ∷ []) o
before-cons u v none = refl
before-cons u v (some us) = refl

read_all-units :
    (c : ℕ) (s : Text)
    → c < 0x110000
    → read_all plain (escape_units (encode_utf16 c) ++ s)
      ≡ before (encode_utf16 c) (read_all plain s)
unfolding escape_units encode_utf16 hex_4
read_all-units c s h = elim (Bool-cases (ltb c 0x10000)) [
  | inl small ↦ rw small (read_unit c s (ltb→lt c 0x10000 small))
  | inr large ↦
      let hi : ℕ = 0xd800 + (c - 0x10000) / 0x400 in
      let lo : ℕ = 0xdc00 + (c - 0x10000) % 0x400 in
      rw large (
        read_unit hi (b'\\' ∷ b'u' ∷ (hex_4 lo ++ s)) (omega arith)
        ∙ ap (before (hi ∷ [])) (read_unit lo s (omega arith))
        ∙ before-cons hi lo (read_all plain s))
]

read_graphic :
    (c : ℕ) (s : Text)
    → leb 0x20 c ≡ true
    → leb c b'~' ≡ true
    → (c == b'\\') ≡ false
    → (c == b'"') ≡ false
    → read_all plain (c ∷ s) ≡ before (encode_utf16 c) (read_all plain s)
read_graphic c s lo hi p q =
    read_all-cons plain plain c (encode_utf16 c) s (unfold read in ground arith)

read_all-escape_char :
    (c : ℕ) (s : Text)
    → c < 0x110000
    → read_all plain (escape_char c ++ s) ≡ before (encode_utf16 c) (read_all plain s)
unfolding escape_char encode_utf16
read_all-escape_char c s h = ground (
  arith,
  read_backslash b'b' plain (8 ∷ []) s refl,
  read_backslash b'f' plain (12 ∷ []) s refl,
  read_backslash b'n' plain (10 ∷ []) s refl,
  read_backslash b'r' plain (13 ∷ []) s refl,
  read_backslash b't' plain (9 ∷ []) s refl,
  read_backslash b'"' plain (b'"' ∷ []) s refl,
  read_backslash b'\\' plain (b'\\' ∷ []) s refl,
  read_graphic c s,
  read_all-units c s,
)

-- A JSON reader takes what `escape_json` writes for exactly the UTF-16 units of the text, so nothing
-- is lost, whatever quotes, backslashes, control or other characters stand in it. The characters have
-- to be code points.
pub read_all-escape_json :
    (s : Text) → All (λ c. c < 0x110000) s → read_all plain (escape_json s) ≡ some (encode_all s)
unfolding escape_json encode_all
read_all-escape_json [] h = unfold read_all in refl
read_all-escape_json (c ∷ s) h =
    read_all-escape_char c (escape_json s) h.0
    ∙ ap (before (encode_utf16 c)) (read_all-escape_json s h.1)
