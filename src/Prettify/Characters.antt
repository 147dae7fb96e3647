-- ===== src/Prettify/Characters.antt =====
-- `decodeEscape` and `encodeEscape`: a character of a character set and how it is written.

use java_study_project.Base.{
  ℕ, ◌+◌, ◌-◌, ◌/◌, ◌%◌, ◌&&◌, ◌||◌, Option, none, some, [], ◌∷◌, ◌++◌, ltb, leb, ◌==◌,
  if◌then◌else◌, drop,
}
use java_study_project.Text.{Text, codes}
use java_study_project.Text.Number.{Signed, parse_int}

-- `parseInt(...) || other` on a number that is not negative: 0 and NaN give way.
abbrev pub number_or : Option Signed → ℕ → ℕ
number_or none other = other
number_or (some n) other = if n.size == 0 then other else n.size

abbrev pub number : Option Signed → ℕ
number none = 0
number (some n) = n.size

-- The escape after its backslash; `part` is the escape whole.
unfoldable pub decode_escaped : Text → ℕ → ℕ
unfolding parse_int
decode_escaped part c =
    if c == b'b'
    then 8
    else if c == b't'
    then 9
    else if c == b'n'
    then 0xa
    else if c == b'v'
    then 0xb
    else if c == b'f'
    then 0xc
    else if c == b'r'
    then 0xd
    else if c == b'u' || c == b'x'
    then number_or (parse_int (drop 2 part) 16) c
    else if leb b'0' c && leb c b'7'
    then number (parse_int (drop 1 part) 8)
    else c

-- The parts that `caseFoldCharset` finds are not empty, and a backslash never stands alone.
unfoldable pub decode_escape : Text → ℕ
unfolding decode_escaped
decode_escape [] = 0
decode_escape (c ∷ []) = c
decode_escape (c ∷ d ∷ s) = if c == b'\\' then decode_escaped (c ∷ d ∷ s) d else c

abbrev pub hex_digit : ℕ → ℕ
hex_digit n = if ltb n 10 then b'0' + n else b'a' + n - 10

-- `n.toString(16)` for `n < 0x20`.
abbrev pub to_hex : ℕ → Text
to_hex n = if ltb n 16 then hex_digit n ∷ [] else hex_digit (n / 16) ∷ hex_digit (n % 16) ∷ []

unfoldable pub encode_escape : ℕ → Text
encode_escape char_code =
    if ltb char_code 0x20
    then (if ltb char_code 0x10 then codes "\\x0" else codes "\\x") ++ to_hex char_code
    else if char_code == b'\\' || char_code == b'-' || char_code == b'[' || char_code == b']'
    then b'\\' ∷ char_code ∷ []
    else char_code ∷ []
