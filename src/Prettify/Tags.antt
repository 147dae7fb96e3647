-- ===== src/Prettify/Tags.antt =====
-- `extractTags`: the html of an element is cut into chunks, and its tags are taken out of the text.
pub mod Shape
pub mod Positions
pub mod Run
pub mod Places
use mathlib.Core.List.{flatten}
use mathlib.Core.Option
use java_study_project.Base.{
  ℕ, zero, suc, ◌+◌, ◌-◌, Bool, true, false, not, ◌&&◌, ◌||◌, Option, none, some, List, [], ◌∷◌,
  ◌++◌, leb, ◌==◌, if◌then◌else◌, length, take, drop,
}
use java_study_project.Text.{Text, codes, eq_text, starts_with, index_of, substring}
use java_study_project.Css.{is_word}
use java_study_project.Prettify.NoCode.{is_no_code_tag}
use java_study_project.Prettify.Html.{html_to_text}
use java_study_project.Prettify.Recombine.{Mark}

abbrev pub is_letter : ℕ → Bool
is_letter c = leb b'A' c && leb c b'Z' || leb b'a' c && leb c b'z'

abbrev pub head_is_letter : Text → Bool
head_is_letter [] = false
head_is_letter (c ∷ s) = is_letter c

-- `[^<]+`: how long the run is that `s` starts with.
abbrev pub run_length : Text → ℕ
run_length [] = 0
run_length (c ∷ s) = if c == b'<' then 0 else suc (run_length s)

-- The length of a chunk behind its `<`: `opening` characters, and on to the end of `closing`.
abbrev pub up_to : ℕ → Text → Text → ℕ
up_to opening closing s = elim (index_of closing (drop opening s)) [
  | none ↦ 0
  | some k ↦ opening + k + length closing
]

abbrev pub is_tag_start : Text → Bool
is_tag_start [] = false
is_tag_start (c ∷ s) = is_letter c || c == b'/' && head_is_letter s

-- The part of the text behind a `<` decides which alternative of the pattern matches; a comment or a
-- section that does not end is cut at its `<`.
unfoldable pub markup_length : Text → ℕ
markup_length s =
    if starts_with (codes "!--") s
    then up_to 3 (codes "-->") s
    else if starts_with (codes "![CDATA[") s
    then up_to 8 (codes "]]>") s
    else if is_tag_start s
    then up_to 1 (codes ">") s
    else 0

-- `s.match(pr_chunkPattern)`; the number counts the characters of the last chunk still to be passed.
unfoldable pub chunks : Text → ℕ → List Text
unfolding markup_length
chunks [] k = []
chunks (c ∷ s) (suc k) = chunks s k
chunks (c ∷ s) zero =
    let n = if c == b'<' then markup_length s else run_length s in (c ∷ take n s) ∷ chunks s n

pub record Extracted : Type 0 where
  pub source_buf : List Text
  pub source_buf_len : ℕ
  pub extracted_tags : List Mark

abbrev pub add_source : Text → ℕ → Extracted → Extracted
add_source s n e = record e { source_buf = e.source_buf ++ s ∷ []; source_buf_len = n }

abbrev pub add_tag : Text → Extracted → Extracted
add_tag t e = record e {
  extracted_tags = e.extracted_tags ++ record { at = e.source_buf_len; text = t } ∷ [];
}

abbrev pub letters : Text → Text
letters [] = []
letters (c ∷ s) = if is_letter c then c ∷ letters s else []

abbrev pub named : Bool → Text → Option (Bool × Text)
named closing [] = none
named closing (c ∷ name) = some (closing, c ∷ name)

-- `match(pr_tagNameRe)`: whether the tag closes, and its name.
abbrev pub tag_name : Text → Option (Bool × Text)
tag_name [] = none
tag_name (c ∷ []) = none
tag_name (c ∷ d ∷ s) =
    if c == b'<'
    then (if d == b'/' then named true (letters s) else named false (letters (d ∷ s)))
    else none

-- `end_tag_loop`: how many chunks are passed up to the end tag, with it.
unfoldable pub find_end : Text → ℕ → List Text → Option ℕ
find_end name depth [] = none
find_end name depth (m ∷ ms) =
    let deeper = Option.map suc (find_end name (depth + 1) ms) in
    let higher = Option.map suc (find_end name (depth - 1) ms) in
    let level = Option.map suc (find_end name depth ms) in
    elim (tag_name m) [
      | none ↦ level
      | some (closing, name2) ↦
          if eq_text name2 name
          then (if closing then (if depth == 1 then some 1 else higher) else deeper)
          else level
    ]

-- What one round of the loop leaves, and how many of the chunks that follow it passes over.
abbrev pub Round : Type 0
Round = Extracted × ℕ

abbrev pub skip_section : Text → List Text → Extracted → Option ℕ → Round
skip_section m ms e none = (add_tag m e, 0)
skip_section m ms e (some n) = (add_tag (flatten (m ∷ take n ms)) e, n)

-- `/^<br\b/i`.
abbrev pub is_br : Text → Bool
is_br [] = false
is_br (a ∷ []) = false
is_br (a ∷ b ∷ []) = false
is_br (a ∷ b ∷ c ∷ []) = a == b'<' && ((b == b'b' || b == b'B') && (c == b'r' || c == b'R'))
is_br (a ∷ b ∷ c ∷ d ∷ s) =
    a == b'<' && ((b == b'b' || b == b'B') && (c == b'r' || c == b'R')) && not (is_word d)

abbrev pub is_cdata : Text → Bool
is_cdata = starts_with (codes "<[CDATA[")

abbrev pub is_markup_chunk : Text → Bool
is_markup_chunk [] = false
is_markup_chunk (c ∷ []) = false
is_markup_chunk (c ∷ d ∷ s) = c == b'<'

abbrev pub is_found : Option ℕ → Bool
is_found none = false
is_found (some k) = true

-- `none`: the name of what is no tag is asked for, a TypeError.
unfoldable pub consume : Text → List Text → Extracted → Option Round
unfolding html_to_text find_end is_no_code_tag
consume m ms e =
    if is_markup_chunk m
    then if starts_with (codes "<!--") m
      then some (e, 0)
      else if is_cdata m
      then some (add_source (substring m 9 (length m - 3)) (e.source_buf_len + length m - 12) e, 0)
      else if is_br m
      then some (add_source (codes "\n") (e.source_buf_len + 1) e, 0)
      else if is_found (index_of (codes "nocode") m) && is_no_code_tag m
      then Option.map (λ (name : Bool × Text). skip_section m ms e (find_end name.1 1 ms))
          (tag_name m)
      else some (add_tag m e, 0)
    else some (add_source (html_to_text m) (e.source_buf_len + length (html_to_text m)) e, 0)

-- The loop over the chunks; the number counts those that are to be passed over.
unfoldable pub extract_loop : List Text → ℕ → Extracted → Option Extracted
unfolding consume
extract_loop [] k e = some e
extract_loop (m ∷ ms) (suc k) e = extract_loop ms k e
extract_loop (m ∷ ms) zero e = elim (consume m ms e) [
  | none ↦ none
  | some round ↦ extract_loop ms round.1 round.0
]

unfoldable pub extract_tags : Text → Option Extracted
unfolding extract_loop chunks
extract_tags s =
    extract_loop (chunks s 0) 0
      (record { source_buf = []; source_buf_len = 0; extracted_tags = [] })
