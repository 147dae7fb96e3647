-- ===== src/Prettify/NoCode.antt =====
-- `isNoCodeTag`: the test of a tag for the class nocode.
use java_study_project.Base.{
  ℕ, zero, suc, ◌+◌, ◌-◌, Bool, true, false, not, ◌&&◌, ◌||◌, Option, none, some, [], ◌∷◌, ◌++◌,
  leb, ◌==◌, if◌then◌else◌, length, drop,
}
use java_study_project.Text.{Text, codes}
use java_study_project.Text.Number.{is_space, skip_space}
use java_study_project.Css.{is_word, word_here}

-- `\w+`, as long as it goes.
abbrev pub word_of : Text → Text
word_of [] = []
word_of (c ∷ s) = let rest = word_of s in if is_word c then c ∷ rest else []

-- `\S+`, as long as it goes.
abbrev pub solid_of : Text → Text
solid_of [] = []
solid_of (c ∷ s) = let rest = solid_of s in if is_space c then [] else c ∷ rest

-- What stands in front of the next quote, if there is one.
unfoldable pub up_to_quote : ℕ → Text → Option Text
up_to_quote quote [] = none
up_to_quote quote (c ∷ s) =
    if c == quote
    then some []
    else elim (up_to_quote quote s) [ none ↦ none | some value ↦ some (c ∷ value) ]

-- An attribute as it was found: name, value, and how much of the text is behind it.
pub record Found : Type 0 where
  pub name : Text
  pub value : Text
  pub left : ℕ

abbrev pub quoted : Text → Text → Option Text → Found
quoted name s (some value) = record {
  name = name;
  value = value;
  left = length s - (length value + 2);
}
quoted name s none = record {
  name = name;
  value = solid_of s;
  left = length s - length (solid_of s);
}

-- Behind the sign: a value in quotes, or else a run without white space. A quote that does not end is
-- part of such a run.
abbrev pub value_of : Text → Text → Option Found
value_of name [] = none
value_of name (c ∷ s) =
    if c == b'"' || c == b'\''
    then some (quoted name (c ∷ s) (up_to_quote c s))
    else some (quoted name (c ∷ s) none)

abbrev pub sign_of : Text → Text → Option Found
sign_of name [] = none
sign_of name (c ∷ s) = if c == b'=' then value_of name (skip_space s) else none

abbrev pub named_attribute : Text → Text → Option Found
named_attribute [] s = none
named_attribute (c ∷ name) s = sign_of (c ∷ name) (skip_space s)

-- `(\w+)\s*=\s*(?:\"([^\"]*)\"|'([^\']*)'|(\S+))` at the head of a text.
unfoldable pub attribute_of : Text → Option Found
unfolding up_to_quote
attribute_of s = named_attribute (word_of s) (drop (length (word_of s)) s)

abbrev pub canonical_attribute : Found → Text
canonical_attribute a = b' ' ∷ (a.name ++ (codes "=\"" ++ (a.value ++ codes "\"")))

-- `tag.replace(/\s(\w+).../g, ' $1="$2$3$4"')`; the number counts the characters of a match that are still
-- to be passed over.
unfoldable pub canonical : Text → ℕ → Text
unfolding attribute_of
canonical [] skip = []
canonical (c ∷ s) (suc skip) = canonical s skip
canonical (c ∷ s) zero =
    let next = canonical s 0 in
    if is_space c
    then (elim (attribute_of s) [
      | none ↦ c ∷ next
      | some a ↦ canonical_attribute a ++ canonical s (length s - a.left)
    ])
    else c ∷ next

-- A pattern of small letters at the head of a text in whatever case.
abbrev pub starts_any_case : Text → Text → Bool
starts_any_case [] s = true
starts_any_case (p ∷ pattern) [] = false
starts_any_case (p ∷ pattern) (c ∷ s) =
    (c == p || leb b'a' p && leb p b'z' && c + 32 == p) && starts_any_case pattern s

-- `[^\"]*\bnocode\b`; the test tells whether the character in front is one of a word.
unfoldable pub nocode_in : Bool → Text → Bool
nocode_in before [] = false
nocode_in before (c ∷ s) =
    let rest = nocode_in (is_word c) s in
    word_here (codes "nocode") before (c ∷ s) || (not (c == b'"') && rest)

-- `match(/[cC][lL][aA][sS][sS]=\"[^\"]*\bnocode\b/)`.
unfoldable pub has_nocode_class : Text → Bool
unfolding nocode_in
has_nocode_class [] = false
has_nocode_class (c ∷ s) =
    starts_any_case (codes "class=\"") (c ∷ s) && nocode_in false (drop 7 (c ∷ s))
    || has_nocode_class s

unfoldable pub is_no_code_tag : Text → Bool
unfolding canonical has_nocode_class
is_no_code_tag tag = has_nocode_class (canonical tag 0)
