-- ===== src/Typegen/Escape.antt =====
-- `escape_json` and `format_js_property_name`, on the code points of a text.
pub mod RoundTrip
use ohos_rs.Common.{
  ℕ, suc, ◌+◌, ◌-◌, ◌*◌, ◌/◌, ◌%◌, ◌^◌, ltb, leb, ◌==◌, if◌then◌else◌, Bool, true, false, ◌&&◌,
  ◌||◌, List, [], ◌∷◌, ◌++◌,
}
use ohos_rs.Common.Text.{Text, codes}

-- An upper-case hexadecimal digit, and `{utf16:04X}` for a 16-bit number.
pub hex_digit : ℕ → ℕ
hex_digit d = if ltb d 10 then b'0' + d else b'A' + d - 10

pub hex_4 : ℕ → Text
unfolding hex_digit
hex_4 u =
    hex_digit (u / 4096)
    ∷ hex_digit (u / 256 % 16)
    ∷ hex_digit (u / 16 % 16)
    ∷ hex_digit (u % 16)
    ∷ []

-- `char::encode_utf16`.
pub encode_utf16 : ℕ → List ℕ
encode_utf16 c =
    if ltb c 0x10000
    then c ∷ []
    else (0xd800 + (c - 0x10000) / 0x400) ∷ (0xdc00 + (c - 0x10000) % 0x400) ∷ []

pub escape_units : List ℕ → Text
unfolding hex_4
escape_units [] = []
escape_units (u ∷ us) = b'\\' ∷ b'u' ∷ (hex_4 u ++ escape_units us)

is_ascii_graphic : ℕ → Bool
is_ascii_graphic c = leb b'!' c && leb c b'~'

-- The match of one character.
pub escape_char : ℕ → Text
unfolding is_ascii_graphic encode_utf16 escape_units
escape_char c =
    if c == 0x08
    then codes "\\b"
    else if c == 0x0c
    then codes "\\f"
    else if c == 0x0a
    then codes "\\n"
    else if c == 0x0d
    then codes "\\r"
    else if c == 0x09
    then codes "\\t"
    else if c == 0x22
    then codes "\\\""
    else if c == 0x5c
    then codes "\\\\"
    else if c == 0x20
    then codes " "
    else if is_ascii_graphic c
    then c ∷ []
    else escape_units (encode_utf16 c)

pub escape_json : Text → Text
unfolding escape_char
escape_json [] = []
escape_json (c ∷ s) = escape_char c ++ escape_json s

one_of : ℕ → List ℕ → Bool
one_of c [] = false
one_of c (d ∷ ds) = c == d || one_of c ds

-- The characters of the `matches!`.
abbrev pub invalid_chars : Text
invalid_chars = codes "-: .[]@#$%^&*()+={}|\\;'\"<>,?/~`!"

any_invalid : Text → Bool
unfolding one_of
any_invalid [] = false
any_invalid (c ∷ s) = one_of c invalid_chars || any_invalid s

starts_with_digit : Text → Bool
starts_with_digit [] = false
starts_with_digit (c ∷ _) = leb b'0' c && leb c b'9'

pub format_js_property_name : Text → Text
unfolding any_invalid starts_with_digit
format_js_property_name s =
    if starts_with_digit s || any_invalid s then b'\'' ∷ (s ++ b'\'' ∷ []) else s
