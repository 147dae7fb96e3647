-- ===== src/Text/Number.antt =====
-- `parseInt`, `String.fromCharCode` and the decimal text of a number.
use java_study_project.Base.{
  ℕ, zero, suc, ◌+◌, ◌-◌, ◌*◌, ◌/◌, ◌%◌, Bool, true, false, ◌&&◌, ◌||◌, Option, none, some, [], ◌∷◌,
  ltb, leb, ◌==◌, if◌then◌else◌,
}
use java_study_project.Text.{Text}

-- WhiteSpace and LineTerminator of the language, the class `\s` of its patterns.
abbrev pub is_space : ℕ → Bool
is_space c =
    leb 9 c && leb c 13
    || c == 32
    || c == 0xa0
    || c == 0x1680
    || leb 0x2000 c && leb c 0x200a
    || c == 0x2028
    || c == 0x2029
    || c == 0x202f
    || c == 0x205f
    || c == 0x3000
    || c == 0xfeff

-- The value of a digit or letter, 36 for any other character.
abbrev pub digit_value : ℕ → ℕ
digit_value c =
    if leb b'0' c && leb c b'9'
    then c - b'0'
    else if leb b'a' c && leb c b'z'
    then c - b'a' + 10
    else if leb b'A' c && leb c b'Z'
    then c - b'A' + 10
    else 36

-- The digits up to the first character that is none.
unfoldable pub scan_digits : ℕ → ℕ → Text → ℕ
scan_digits radix acc [] = acc
scan_digits radix acc (c ∷ s) =
    let rest = scan_digits radix (acc * radix + digit_value c) s in
    if ltb (digit_value c) radix then rest else acc

abbrev pub read_digits : ℕ → Text → Option ℕ
read_digits radix [] = none
read_digits radix (c ∷ s) =
    if ltb (digit_value c) radix then some (scan_digits radix 0 (c ∷ s)) else none

abbrev pub strip_hex : Text → Text
strip_hex [] = []
strip_hex (c ∷ []) = c ∷ []
strip_hex (c ∷ d ∷ s) = if c == b'0' && (d == b'x' || d == b'X') then s else c ∷ d ∷ s

abbrev pub skip_space : Text → Text
skip_space [] = []
skip_space (c ∷ s) = if is_space c then skip_space s else c ∷ s

-- A number with its sign. The digits are read exactly; a script's number is rounded from 2^53 on.
pub record Signed : Type 0 where
  pub negative : Bool
  pub size : ℕ

abbrev pub signed : Bool → Option ℕ → Option Signed
signed n none = none
signed n (some k) = some (record { negative = n; size = k })

abbrev pub parse_radix : ℕ → Text → Option ℕ
parse_radix radix s = read_digits radix (if radix == 16 then strip_hex s else s)

abbrev pub parse_signed : ℕ → Text → Option Signed
parse_signed radix [] = none
parse_signed radix (c ∷ s) =
    if c == b'-'
    then signed true (parse_radix radix s)
    else if c == b'+'
    then signed false (parse_radix radix s)
    else signed false (parse_radix radix (c ∷ s))

-- `parseInt(s, radix)`, `none` for NaN.
unfoldable pub parse_int : Text → ℕ → Option Signed
unfolding scan_digits
parse_int s radix = parse_signed radix (skip_space s)

-- `String.fromCharCode(n)`: the number modulo 2^16.
abbrev pub from_char_code : Signed → ℕ
from_char_code n = if n.negative then (65536 - n.size % 65536) % 65536 else n.size % 65536

unfoldable pub digits_of : ℕ → ℕ → Text → Text
digits_of zero n acc = acc
digits_of (suc f) n acc =
    let d = b'0' + n % 10 in
    let rest = digits_of f (n / 10) (d ∷ acc) in if ltb n 10 then d ∷ acc else rest

-- A number as text.
abbrev pub number_text : ℕ → Text
number_text n = digits_of (n + 1) n []
