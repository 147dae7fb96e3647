-- ===== src/Prettify/Charset.antt =====
-- `decodeEscape`, `encodeEscape` and `caseFoldCharset` of `combinePrefixPatterns`: a character class
-- of a pattern is rewritten so that it ignores case.
pub mod Escapes
pub mod Ranges
pub mod Folding
pub mod Written
pub mod Class
pub mod Ordered
pub mod Caret
pub mod Meaning
use Prim.Native.Nat.{bit_and, bit_or}
use mathlib.Core.List.{flatten}
use java_study_project.Base.{
  ℕ, zero, suc, ◌+◌, ◌-◌, min, max, Bool, true, false, not, ◌&&◌, ◌||◌, Option, none, some, List,
  [], ◌∷◌, ◌++◌, ltb, leb, ◌==◌, if◌then◌else◌, length, take, drop,
}
use java_study_project.Text.{Text, codes, eq_text, substring}
use java_study_project.Prettify.Characters.{decode_escape, encode_escape}

abbrev pub is_hex : ℕ → Bool
is_hex c = leb b'0' c && leb c b'9' || leb b'A' c && leb c b'F' || leb b'a' c && leb c b'f'

abbrev pub is_octal : ℕ → Bool
is_octal c = leb b'0' c && leb c b'7'

abbrev pub head_is : (ℕ → Bool) → Text → Bool
head_is p [] = false
head_is p (c ∷ s) = p c

abbrev pub all_hex : ℕ → Text → Bool
all_hex zero s = true
all_hex (suc n) [] = false
all_hex (suc n) (c ∷ s) = is_hex c && all_hex n s

-- The length of the escape that starts with a backslash; `c` and `s` stand behind it.
abbrev pub escape_length : ℕ → Text → ℕ
escape_length c s =
    if c == b'u' && all_hex 4 s
    then 6
    else if c == b'x' && all_hex 2 s
    then 4
    else if leb b'0' c && leb c b'3'
    then (if head_is is_octal s then (if head_is is_octal (drop 1 s) then 4 else 3) else 2)
    else if is_octal c
    then (if head_is is_octal s then 3 else 2)
    else 2

-- The length of the part at the head of a text: a character, or a backslash with what belongs to it.
-- A backslash at the very end is no part.
abbrev pub part_length : Text → ℕ
part_length [] = 0
part_length (c ∷ []) = if c == b'\\' then 0 else 1
part_length (c ∷ d ∷ s) = if c == b'\\' then escape_length d s else 1

-- `match` with the global pattern; the number counts the characters of the last part that are
-- still to be passed.
unfoldable pub charset_parts : Text → ℕ → List Text
charset_parts [] k = []
charset_parts (c ∷ s) (suc k) = charset_parts s k
charset_parts (c ∷ s) zero =
    let n = part_length (c ∷ s) in
    let rest = charset_parts s (n - 1) in if n == 0 then rest else take n (c ∷ s) ∷ rest

pub record Range : Type 0 where
  pub lo : ℕ
  pub hi : ℕ

-- The range, and the ranges of the other case that it makes necessary.
unfoldable pub expand_range : ℕ → ℕ → List Range
expand_range start end =
    record { lo = start; hi = end }
    ∷ (if not (ltb end 65 || ltb 122 start)
        then (if not (ltb end 65 || ltb 90 start)
            then record { lo = bit_or (max 65 start) 32; hi = bit_or (min end 90) 32 } ∷ []
            else [])
          ++ (if not (ltb end 97 || ltb 122 start)
              then record {
                lo = bit_and (max 97 start) 0xffffffdf;
                hi = bit_and (min end 122) 0xffffffdf;
              }
                ∷ []
              else [])
        else [])

abbrev pub is_group : Text → Bool
is_group p =
    eq_text p (codes "\\B")
    || eq_text p (codes "\\b")
    || eq_text p (codes "\\D")
    || eq_text p (codes "\\d")
    || eq_text p (codes "\\S")
    || eq_text p (codes "\\s")
    || eq_text p (codes "\\W")
    || eq_text p (codes "\\w")

pub record Collected : Type 0 where
  pub groups : List Text
  pub ranges : List Range

abbrev pub add_group : Text → Collected → Collected
add_group p c = record c { groups = p ∷ c.groups }

abbrev pub add_range : ℕ → ℕ → Collected → Collected
add_range start end c = record c { ranges = expand_range start end ++ c.ranges }

abbrev pub nothing : Collected
nothing = record { groups = []; ranges = [] }

-- The loop over the parts, in order.
unfoldable pub collect : List Text → Collected
collect [] = nothing
collect (p ∷ []) =
    if is_group p
    then add_group p nothing
    else add_range (decode_escape p) (decode_escape p) nothing
collect (p ∷ q ∷ []) =
    let rest = collect (q ∷ []) in
    if is_group p then add_group p rest else add_range (decode_escape p) (decode_escape p) rest
collect (p ∷ q ∷ r ∷ parts) =
    let rest = collect (q ∷ r ∷ parts) in
    let beyond = collect parts in
    if is_group p
    then add_group p rest
    else if eq_text q (codes "-")
    then add_range (decode_escape p) (decode_escape r) beyond
    else add_range (decode_escape p) (decode_escape p) rest

-- `(a[0] - b[0]) || (b[1] - a[1])` is not positive.
abbrev pub range_le : Range → Range → Bool
range_le a b = ltb a.lo b.lo || a.lo == b.lo && leb b.hi a.hi

unfoldable pub insert_range : Range → List Range → List Range
insert_range r [] = r ∷ []
insert_range r (s ∷ rs) =
    let rest = insert_range r rs in if range_le r s then r ∷ s ∷ rs else s ∷ rest

-- `ranges.sort`: ranges that compare as equal are equal, so every sort gives this order.
unfoldable pub sort_ranges : List Range → List Range
unfolding insert_range
sort_ranges [] = []
sort_ranges (r ∷ rs) = insert_range r (sort_ranges rs)

-- The loop that joins ranges, after `lastRange` was pushed. It is changed in place, so it stands in
-- the result as it is when the next range starts a new one.
unfoldable pub join_ranges : Range → List Range → List Range
join_ranges last [] = last ∷ []
join_ranges last (r ∷ rs) =
    let joined = join_ranges (record last { hi = max last.hi r.hi }) rs in
    let apart = last ∷ join_ranges r rs in if leb r.lo (last.hi + 1) then joined else apart

unfoldable pub consolidate : List Range → List Range
unfolding join_ranges
consolidate [] = []
consolidate (r ∷ rs) = join_ranges r rs

abbrev pub range_text : Range → Text
range_text r =
    encode_escape r.lo
    ++ (if ltb r.lo r.hi
        then (if ltb r.lo (r.hi + 1) then codes "-" else []) ++ encode_escape r.hi
        else [])

abbrev pub ranges_text : List Range → Text
ranges_text [] = []
ranges_text (r ∷ rs) = range_text r ++ ranges_text rs

abbrev pub charset_text : Bool → Collected → Text
charset_text inverse c =
    codes "["
    ++ ((if inverse then codes "^" else [])
        ++ (flatten c.groups ++ (ranges_text (consolidate (sort_ranges c.ranges)) ++ codes "]")))

-- `charsetParts[0] === '^'` is read before the loop; with no parts at all that throws.
abbrev pub fold_parts : List Text → Option Text
fold_parts [] = none
fold_parts (p ∷ parts) = some (
    if eq_text p (codes "^")
    then charset_text true (collect parts)
    else charset_text false (collect (p ∷ parts)))

-- `none` stands for the TypeError on a class with no parts, `[]`.
unfoldable pub case_fold_charset : Text → Option Text
unfolding charset_parts collect decode_escape expand_range sort_ranges consolidate encode_escape
    flatten
case_fold_charset char_set =
    fold_parts (charset_parts (substring char_set 1 (length char_set - 1)) 0)
