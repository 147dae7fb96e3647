-- ===== src/Prettify/Combine.antt =====
-- `combinePrefixPatterns`: many patterns become one global pattern that matches anywhere.
pub mod Groups
pub mod Case
pub mod Flags
pub mod References
use Prim.Native.Nat.{bit_and, bit_or}
use mathlib.Core.List.{flatten}
use mathlib.Core.Option
use java_study_project.Base.{
  ℕ, zero, suc, ◌+◌, ◌-◌, ◌*◌, Bool, true, false, not, ◌&&◌, ◌||◌, Option, none, some, List, [],
  ◌∷◌, ◌++◌, leb, ◌==◌, if◌then◌else◌,
}
use java_study_project.Text.{Text, codes, eq_text}
use java_study_project.Text.Number.{digits_of, number_text}
use java_study_project.Prettify.RegExp.{RegExp}
use java_study_project.Prettify.Charset.{all_hex, case_fold_charset}
use java_study_project.Prettify.Parts.{is_digit_char, is_latin, pattern_parts}

abbrev pub all_digits : Text → Bool
all_digits [] = true
all_digits (c ∷ s) = is_digit_char c && all_digits s

abbrev pub decimal_from : ℕ → Text → ℕ
decimal_from acc [] = acc
decimal_from acc (c ∷ s) = decimal_from (acc * 10 + c - b'0') s

-- `+p.substring(1)` of an escape; NaN counts as 0, since both are falsy.
abbrev pub decimal_value : Text → ℕ
decimal_value s = if all_digits s then decimal_from 0 s else 0

abbrev pub is_open : Text → Bool
is_open p = eq_text p (codes "(")

-- The number behind the backslash, 0 for a part that is no escape.
abbrev pub reference_of : Text → ℕ
reference_of [] = 0
reference_of (c ∷ s) = if c == b'\\' then decimal_value s else 0

-- The group that a part refers back to, 0 for none, if `group_index` groups were opened before it.
abbrev pub back_reference : ℕ → Text → ℕ
back_reference group_index p = let d = reference_of p in if leb d group_index then d else 0

-- The first walk: the entries of `capturedGroups` that are set to -1.
unfoldable pub captured : ℕ → List Text → List ℕ
captured group_index [] = []
captured group_index (p ∷ parts) =
    let inside = captured (group_index + 1) parts in
    let beside = captured group_index parts in
    let d = back_reference group_index p in
    if is_open p then inside else if d == 0 then beside else d ∷ beside

abbrev pub has_number : ℕ → List ℕ → Bool
has_number n [] = false
has_number n (m ∷ ms) = m == n || has_number n ms

-- How many entries from 1 to `i` are captured: the loop that counts `capturedGroupIndex` on.
unfoldable pub rank_of : List ℕ → ℕ → ℕ
rank_of groups zero = 0
rank_of groups (suc i) = (if has_number (suc i) groups then 1 else 0) + rank_of groups i

unfoldable pub largest : List ℕ → ℕ
largest [] = 0
largest (n ∷ ns) = let m = largest ns in if leb n m then m else n

-- `'\\' + capturedGroups[groupIndex]`: it is the group that was opened last that is read.
unfoldable pub new_reference : ℕ → List ℕ → ℕ → Text
unfolding rank_of digits_of
new_reference base groups group_index =
    b'\\'
    ∷ (if has_number group_index groups
        then number_text (base + rank_of groups group_index)
        else codes "undefined")

-- The second walk.
unfoldable pub renumber : ℕ → List ℕ → ℕ → List Text → List Text
unfolding new_reference
renumber base groups group_index [] = []
renumber base groups group_index (p ∷ parts) =
    let inside = renumber base groups (group_index + 1) parts in
    let beside = renumber base groups group_index parts in
    if is_open p
    then (if has_number (group_index + 1) groups then p else codes "(?:") ∷ inside
    else (if back_reference group_index p == 0 then p else new_reference base groups group_index)
      ∷ beside

abbrev pub starts_anchor : List Text → Bool
starts_anchor [] = false
starts_anchor (p ∷ parts) = eq_text p (codes "^")

-- An anchor that no other follows is emptied.
unfoldable pub remove_anchors : List Text → List Text
remove_anchors [] = []
remove_anchors (p ∷ parts) =
    (if eq_text p (codes "^") && not (starts_anchor parts) then [] else p) ∷ remove_anchors parts

abbrev pub both_cases : ℕ → Text
both_cases c = b'[' ∷ bit_and c 0xffffffdf ∷ bit_or c 32 ∷ b']' ∷ []

abbrev pub fold_letters : Text → Text
fold_letters [] = []
fold_letters (c ∷ s) = (if is_latin c then both_cases c else c ∷ []) ++ fold_letters s

-- A part without case; `none` stands for the TypeError of an empty class.
unfoldable pub fold_part : Text → Option Text
unfolding case_fold_charset
fold_part [] = some []
fold_part (c ∷ []) = some (if c == b'\\' then c ∷ [] else fold_letters (c ∷ []))
fold_part (c ∷ d ∷ s) =
    if c == b'['
    then case_fold_charset (c ∷ d ∷ s)
    else some (if c == b'\\' then c ∷ d ∷ s else fold_letters (c ∷ d ∷ s))

abbrev pub prepend : Option Text → Option (List Text) → Option (List Text)
prepend none ps = none
prepend (some p) none = none
prepend (some p) (some ps) = some (p ∷ ps)

unfoldable pub fold_parts_case : List Text → Option (List Text)
unfolding fold_part
fold_parts_case [] = some []
fold_parts_case (p ∷ parts) = prepend (fold_part p) (fold_parts_case parts)

-- `capturedGroupIndex` after a pattern.
unfoldable pub next_index : ℕ → List Text → ℕ
unfolding captured rank_of largest
next_index base parts = base + rank_of (captured 0 parts) (largest (captured 0 parts))

unfoldable pub rewritten_parts : ℕ → List Text → List Text
unfolding captured renumber remove_anchors
rewritten_parts base parts = remove_anchors (renumber base (captured 0 parts) 0 parts)

-- `allowAnywhereFoldCaseAndRenumberGroups(regex)` for a pattern whose source has parts.
unfoldable pub allow_anywhere : Bool → ℕ → RegExp → Option Text
unfolding pattern_parts rewritten_parts fold_parts_case
allow_anywhere need_to_fold_case base regex =
    let parts = rewritten_parts base (pattern_parts regex.source 0) in
    if regex.ignore_case && need_to_fold_case
    then Option.map flatten (fold_parts_case parts)
    else some (flatten parts)

-- The letters that are left when the escapes are taken out of a source.
unfoldable pub stripped_length : Text → ℕ
stripped_length [] = 0
stripped_length (c ∷ s) =
    if c == b'u' || c == b'U'
    then (if all_hex 4 s then 6 else 0)
    else if c == b'x' || c == b'X'
    then (if all_hex 2 s then 4 else 0)
    else 2

-- `/[a-z]/i.test(regex.source.replace(..., ''))`.
unfoldable pub has_letter : Text → ℕ → Bool
unfolding stripped_length
has_letter [] k = false
has_letter (c ∷ s) (suc k) = has_letter s k
has_letter (c ∷ s) zero =
    let behind = has_letter s (stripped_length s - 1) in
    let next = has_letter s 0 in if c == b'\\' then behind else is_latin c || next

-- `needToFoldCase` and `ignoreCase`.
unfoldable pub case_flags : List RegExp → Bool → Bool × Bool
unfolding has_letter
case_flags [] ignore_case = (false, ignore_case)
case_flags (r ∷ rs) ignore_case =
    let on = case_flags rs true in
    let rest = case_flags rs ignore_case in
    if r.ignore_case then on else if has_letter r.source 0 then (true, false) else rest

-- The rewritten patterns; `none` where one is global or multiline, which throws.
unfoldable pub rewrite_all : Bool → ℕ → List RegExp → Option (List Text)
unfolding allow_anywhere next_index
rewrite_all need base [] = some []
rewrite_all need base (r ∷ rs) =
    let rest = rewrite_all need (next_index base (pattern_parts r.source 0)) rs in
    if r.global || r.multiline
    then none
    else prepend (Option.map (λ t. codes "(?:" ++ (t ++ codes ")")) (allow_anywhere need base r))
        rest

unfoldable pub join_bar : List Text → Text
join_bar [] = []
join_bar (p ∷ []) = p
join_bar (p ∷ q ∷ ps) = p ++ b'|' ∷ join_bar (q ∷ ps)

abbrev pub combined_regexp : Bool → List Text → RegExp
combined_regexp ignore_case rewritten = record {
  source = join_bar rewritten;
  ignore_case = ignore_case;
  global = true;
  multiline = false;
}

unfoldable pub combine_prefix_patterns : List RegExp → Option RegExp
unfolding case_flags rewrite_all join_bar
combine_prefix_patterns regexs =
    let flags = case_flags regexs false in
    Option.map (combined_regexp flags.1) (rewrite_all flags.0 0 regexs)
