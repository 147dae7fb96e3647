-- ===== src/TableSort/Keys.antt =====
-- The comparators that read text: `sortCaseInsensitive`, `sortDate` and `sortIP`. A comparator's
-- answers -1, 0 and 1 are `lt`, `eq` and `gt`.
use Prim.Native.Nat.{compare, Ordering}
use java_study_project.Base.{
  ℕ, zero, suc, ◌-◌, Bool, false, ◌&&◌, ◌||◌, Option, none, some, List, [], ◌∷◌, ◌++◌, ltb, ◌==◌,
  if◌then◌else◌, length, take, drop,
}
use java_study_project.Text.{Text, codes}
use java_study_project.Text.Number.{Signed, parse_int}
use java_study_project.Text.Split.{split, join}

-- `a < b` and `a == b` on strings: by code units.
unfoldable pub text_compare : Text → Text → Ordering
text_compare [] [] = Ordering.eq
text_compare [] (d ∷ t) = Ordering.lt
text_compare (c ∷ s) [] = Ordering.gt
text_compare (c ∷ s) (d ∷ t) =
    let rest = text_compare s t in
    elim (compare c d) [
      | Ordering.lt ↦ Ordering.lt
      | Ordering.eq ↦ rest
      | Ordering.gt ↦ Ordering.gt
    ]

-- `s.substr(start, count)`.
abbrev pub substr : Text → ℕ → ℕ → Text
substr s start count = take count (drop start s)

-- `parseInt(s)` with no radix: hexadecimal after 0x, else decimal.
abbrev pub parse_auto : Text → Option Signed
parse_auto [] = parse_int [] 10
parse_auto (c ∷ []) = parse_int (c ∷ []) 10
parse_auto (c ∷ d ∷ s) =
    if c == b'0' && (d == b'x' || d == b'X')
    then parse_int (c ∷ d ∷ s) 16
    else parse_int (c ∷ d ∷ s) 10

-- `parseInt(yr) < 50`; no comparison with NaN holds.
abbrev pub below_50 : Option Signed → Bool
below_50 none = false
below_50 (some n) = n.negative && ltb 0 n.size || ltb n.size 50

-- A year of two digits with its century.
unfoldable pub full_year : Text → Text
unfolding parse_int
full_year yr = if below_50 (parse_auto yr) then codes "20" ++ yr else codes "19" ++ yr

-- `dt1` and `dt2`: year, month and day.
unfoldable pub date_key : Text → Text
unfolding full_year
date_key aa =
    if length aa == 10
    then substr aa 6 4 ++ (substr aa 3 2 ++ substr aa 0 2)
    else full_year (substr aa 6 2) ++ (substr aa 3 2 ++ substr aa 0 2)

unfoldable pub sort_date : Text → Text → Ordering
unfolding date_key text_compare
sort_date aa bb = text_compare (date_key aa) (date_key bb)

-- `while (3 > val.length) val = '0' + val`, by the rounds that are left.
unfoldable pub pad : ℕ → Text → Text
pad zero val = val
pad (suc n) val = pad n (b'0' ∷ val)

unfoldable pub pad_all : List Text → List Text
unfolding pad
pad_all [] = []
pad_all (v ∷ vals) = pad (3 - length v) v ∷ pad_all vals

unfoldable pub make_standard_ip_address : Text → Text
unfolding split join pad_all
make_standard_ip_address val = join b'.' (pad_all (split b'.' val))

-- `toLowerCase` follows the tables of Unicode, which are the runtime's.
module _ (to_lower_case : Text → Text) where
  unfoldable pub sort_case_insensitive : Text → Text → Ordering
  unfolding text_compare
  sort_case_insensitive a b = text_compare (to_lower_case a) (to_lower_case b)

  unfoldable pub sort_ip : Text → Text → Ordering
  unfolding text_compare make_standard_ip_address
  sort_ip a b =
      text_compare (make_standard_ip_address (to_lower_case a))
        (make_standard_ip_address (to_lower_case b))
