-- ===== src/Prettify/Parts.antt =====
-- The parts of a pattern, as `allowAnywhereFoldCaseAndRenumberGroups` cuts it.

use mathlib.Core.Option
use java_study_project.Base.{
  ℕ, zero, suc, ◌+◌, ◌-◌, Bool, not, ◌&&◌, ◌||◌, Option, none, some, List, [], ◌∷◌, leb, ◌==◌,
  if◌then◌else◌, take,
}
use java_study_project.Text.{Text}
use java_study_project.Prettify.Charset.{all_hex}

abbrev pub is_digit_char : ℕ → Bool
is_digit_char c = leb b'0' c && leb c b'9'

abbrev pub is_latin : ℕ → Bool
is_latin c = leb b'a' c && leb c b'z' || leb b'A' c && leb c b'Z'

-- How far it is to the end of a character set, behind its bracket; `none` if it does not end.
unfoldable pub charset_length : Text → Option ℕ
charset_length [] = none
charset_length (c ∷ []) = if c == b']' then some 1 else none
charset_length (c ∷ d ∷ s) =
    let past_one = Option.map (λ n. n + 1) (charset_length (d ∷ s)) in
    let past_two = Option.map (λ n. n + 2) (charset_length s) in
    if c == b']' then some 1 else if c == b'\\' then past_two else past_one

-- The digits at the head of a text.
abbrev pub digits_length : Text → ℕ
digits_length [] = 0
digits_length (c ∷ s) = if is_digit_char c then suc (digits_length s) else 0

-- A run of characters that begin none of the other parts.
abbrev pub is_ordinary : ℕ → Bool
is_ordinary c =
    not (c == b'[') && not (c == b'\\') && not (c == b'(') && not (c == b')') && not (c == b'^')

abbrev pub ordinary_length : Text → ℕ
ordinary_length [] = 0
ordinary_length (c ∷ s) = if is_ordinary c then suc (ordinary_length s) else 0

-- What follows a backslash, with it; 0 for an escape that is not complete.
unfoldable pub regex_escape_length : Text → ℕ
regex_escape_length [] = 0
regex_escape_length (c ∷ s) =
    if c == b'u'
    then (if all_hex 4 s then 6 else 0)
    else if c == b'x'
    then (if all_hex 2 s then 4 else 0)
    else if is_digit_char c
    then suc (digits_length (c ∷ s))
    else 2

-- `(?:`, `(?!` and `(?=`, or the parenthesis alone.
abbrev pub opening_length : Text → ℕ
opening_length [] = 1
opening_length (c ∷ []) = 1
opening_length (c ∷ d ∷ s) = if c == b'?' && (d == b':' || d == b'!' || d == b'=') then 3 else 1

-- The length of the part at the head of a pattern, 0 if there is none.
unfoldable pub pattern_part_length : Text → ℕ
unfolding charset_length regex_escape_length
pattern_part_length [] = 0
pattern_part_length (c ∷ s) =
    if c == b'['
    then Option.get_or (Option.map suc (charset_length s)) 0
    else if c == b'\\'
    then regex_escape_length s
    else if c == b'('
    then opening_length s
    else if c == b')' || c == b'^'
    then 1
    else suc (ordinary_length s)

-- `regex.source.match(...)`; the number counts the characters of the last part still to be passed.
unfoldable pub pattern_parts : Text → ℕ → List Text
unfolding pattern_part_length
pattern_parts [] k = []
pattern_parts (c ∷ s) (suc k) = pattern_parts s k
pattern_parts (c ∷ s) zero =
    let n = pattern_part_length (c ∷ s) in
    let rest = pattern_parts s (n - 1) in if n == 0 then rest else take n (c ∷ s) ∷ rest
