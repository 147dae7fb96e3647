-- ===== src/Prettify/Html.antt =====
-- Escaping and unescaping of html: `attribToHtml`, `textToHtml` and `htmlToText`.
pub mod Escape
pub mod Entities
pub mod RoundTrip
use mathlib.Core.Option
use java_study_project.Base.{
  ℕ, zero, suc, ◌+◌, Option, none, some, [], ◌∷◌, ◌++◌, ◌==◌, if◌then◌else◌, length, drop,
}
use java_study_project.Text.{
  Text, codes, index_of, index_of_from, substring, replace_char, replace_from, replace_all,
}
use java_study_project.Text.Number.{Signed, parse_int, from_char_code}

unfoldable pub attrib_to_html : Text → Text
unfolding replace_char
attrib_to_html str = replace_char b'"' (codes "&quot;") (
    replace_char b'>' (codes "&gt;")
      (replace_char b'<' (codes "&lt;") (replace_char b'&' (codes "&amp;") str)))

unfoldable pub text_to_html : Text → Text
unfolding replace_char
text_to_html str =
    replace_char b'>' (codes "&gt;")
      (replace_char b'<' (codes "&lt;") (replace_char b'&' (codes "&amp;") str))

-- `num` and `radix` of `htmlToText`: a leading x asks for hexadecimal digits.
unfoldable pub entity_code : Text → Option Signed
unfolding parse_int
entity_code [] = parse_int [] 10
entity_code (c ∷ num) = if c == b'x' then parse_int num 16 else parse_int (c ∷ num) 10

-- The body of the loop: the entity at `pos`, if it ends at all and is a number.
abbrev pub splice : ℕ → ℕ → Text → Option Signed → Text
splice pos end html none = html
splice pos end html (some n) = substring html 0 pos ++ from_char_code n ∷ drop (end + 1) html

unfoldable pub decode_entity : ℕ → Text → Text
unfolding entity_code
decode_entity pos html = elim (index_of_from (codes ";") pos html) [
  | none ↦ html
  | some end ↦ splice pos end html (entity_code (substring html (pos + 3) end))
]

-- `for (; (pos = html.indexOf('&#', pos + 1)) >= 0;)`, from the index where the search goes on.
-- `none` means that the fuel ran out.
unfoldable pub decode_numeric : ℕ → ℕ → Text → Option Text
unfolding decode_entity
decode_numeric zero start html = none
decode_numeric (suc f) start html = elim (index_of_from (codes "&#") start html) [
  | none ↦ some html
  | some pos ↦ decode_numeric f (pos + 1) (decode_entity pos html)
]

abbrev pub named_entities : Text → Text
named_entities html = replace_all (codes "&nbsp;") (codes " ") (
    replace_all (codes "&amp;") (codes "&") (
      replace_all (codes "&quot;") (codes "\"") (
        replace_all (codes "&apos;") (codes "'")
          (replace_all (codes "&gt;") (codes ">") (replace_all (codes "&lt;") (codes "<") html)))))

unfoldable pub html_to_text : Text → Text
unfolding decode_numeric replace_from
html_to_text html = elim (index_of (codes "&") html) [
  | none ↦ html
  | some pos ↦ named_entities (Option.get_or (decode_numeric (length html + 1) pos html) html)
]
