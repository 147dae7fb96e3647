-- ===== src/TableSort/Kinds.antt =====
-- `determineSortFunction`: which comparator a column gets, by the text of its first filled cell.
use java_study_project.Base.{
  ℕ, Bool, true, false, ◌&&◌, ◌||◌, List, [], ◌∷◌, leb, ◌==◌, if◌then◌else◌,
}
use java_study_project.Text.{Text}
use java_study_project.Text.Split.{split}

-- The comparators, by the functions' names.
pub data SortKind : Type 0 where
  case_insensitive date currency numeric ip : SortKind

abbrev pub is_digit : ℕ → Bool
is_digit c = leb b'0' c && leb c b'9'

abbrev pub is_separator : ℕ → Bool
is_separator c = c == b'/' || c == b'-'

-- `^` classes `$`.
unfoldable pub fits : List (ℕ → Bool) → Text → Bool
fits [] [] = true
fits [] (c ∷ s) = false
fits (p ∷ ps) [] = false
fits (p ∷ ps) (c ∷ s) = p c && fits ps s

-- `/^\d\d[\/-]\d\d[\/-]\d\d\d\d$/` and the same with a year of two digits.
unfoldable pub is_long_date : Text → Bool
unfolding fits
is_long_date = fits (
    is_digit ∷ is_digit ∷ is_separator ∷ is_digit ∷ is_digit ∷ is_separator ∷ is_digit ∷ is_digit
    ∷ is_digit ∷ is_digit ∷ [])

unfoldable pub is_short_date : Text → Bool
unfolding fits
is_short_date = fits (
    is_digit ∷ is_digit ∷ is_separator ∷ is_digit ∷ is_digit ∷ is_separator ∷ is_digit ∷ is_digit
    ∷ [])

-- `/^[£$]/`. In the file the first sign is a byte of another encoding, which is read as U+FFFD.
abbrev pub is_currency : Text → Bool
is_currency [] = false
is_currency (c ∷ s) = c == 0xfffd || c == b'$'

-- `\d+$`.
unfoldable pub digits_to_end : Text → Bool
digits_to_end [] = false
digits_to_end (c ∷ []) = is_digit c
digits_to_end (c ∷ d ∷ s) = is_digit c && digits_to_end (d ∷ s)

-- `\.?\d+$`.
abbrev pub dot_digits : Text → Bool
dot_digits [] = false
dot_digits (c ∷ s) = digits_to_end (c ∷ s) || c == b'.' && digits_to_end s

-- `/^\d?\.?\d+$/`.
unfoldable pub is_plain_number : Text → Bool
unfolding digits_to_end
is_plain_number [] = false
is_plain_number (c ∷ s) = dot_digits (c ∷ s) || is_digit c && dot_digits s

-- `-?\d+$`.
abbrev pub exponent_digits : Text → Bool
exponent_digits [] = false
exponent_digits (c ∷ s) = digits_to_end (c ∷ s) || c == b'-' && digits_to_end s

-- `([eE]-?\d+)?$`.
abbrev pub opt_exponent : Text → Bool
opt_exponent [] = true
opt_exponent (c ∷ s) = (c == b'e' || c == b'E') && exponent_digits s

-- `\d+([eE]-?\d+)?$`.
unfoldable pub digits_exponent : Text → Bool
unfolding digits_to_end
digits_exponent [] = false
digits_exponent (c ∷ s) = is_digit c && (opt_exponent s || digits_exponent s)

-- `\d*\.?\d+([eE]-?\d+)?$`.
unfoldable pub decimal : Text → Bool
unfolding digits_exponent
decimal [] = false
decimal (c ∷ s) =
    c == b'.' && digits_exponent s || digits_exponent (c ∷ s) || is_digit c && decimal s

-- `/^[+-]?\d*\.?\d+([eE]-?\d+)?$/`.
unfoldable pub is_number : Text → Bool
unfolding decimal
is_number [] = false
is_number (c ∷ s) = decimal (c ∷ s) || (c == b'+' || c == b'-') && decimal s

-- `[01]?\d\d?|2[0-4]\d|25[0-5]`.
unfoldable pub is_octet : Text → Bool
is_octet [] = false
is_octet (c ∷ []) = is_digit c
is_octet (c ∷ d ∷ []) = is_digit c && is_digit d
is_octet (c ∷ d ∷ e ∷ []) =
    (c == b'0' || c == b'1') && (is_digit d && is_digit e)
    || c == b'2' && (leb b'0' d && leb d b'4' && is_digit e)
    || c == b'2' && (d == b'5' && (leb b'0' e && leb e b'5'))
is_octet (c ∷ d ∷ e ∷ f ∷ s) = false

abbrev pub four_octets : List Text → Bool
four_octets [] = false
four_octets (a ∷ []) = false
four_octets (a ∷ b ∷ []) = false
four_octets (a ∷ b ∷ c ∷ []) = false
four_octets (a ∷ b ∷ c ∷ d ∷ []) = is_octet a && (is_octet b && (is_octet c && is_octet d))
four_octets (a ∷ b ∷ c ∷ d ∷ e ∷ r) = false

unfoldable pub is_ip : Text → Bool
unfolding is_octet split
is_ip itm = four_octets (split b'.' itm)

-- The tests in their order: a later one that holds takes the place of an earlier one.
unfoldable pub determine_sort_function : Text → SortKind
unfolding is_long_date is_short_date is_plain_number is_number is_ip
determine_sort_function itm =
    if is_ip itm
    then ip
    else if is_number itm
    then numeric
    else if is_plain_number itm
    then numeric
    else if is_currency itm
    then currency
    else if is_short_date itm
    then date
    else if is_long_date itm
    then date
    else case_insensitive
