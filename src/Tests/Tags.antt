-- ===== src/Tests/Tags.antt =====
-- Taking tags out of html, `webapps/admin/js/prettify.js`.
use mathlib.Core.List.{flatten}
use java_study_project.Base.{
  ◌≡◌, refl, Bool, true, false, not, ◌&&◌, none, some, List, [], ◌∷◌, length, All, and_split,
}
use java_study_project.Text.{Text, codes}
use java_study_project.Prettify.Lexer.Order.{IsOrdered}
use java_study_project.Prettify.Tags.{Extracted, chunks, extract_tags}
use java_study_project.Prettify.NoCode.{is_no_code_tag}
use java_study_project.Prettify.Tags.Places.{is_tag}
use java_study_project.Prettify.Tags.Shape.{is_section}
use java_study_project.Prettify.Tags.Positions.{IsSectionFree, extract_tags_total}

abbrev html : Text
html = codes "a<b>c</b><br>&lt;<span class=nocode>x<span>y</span></span>"

-- A text without CDATA sections.
abbrev pub has_no_section : List Text → Bool
has_no_section [] = true
has_no_section (m ∷ ms) = not (is_section m) && has_no_section ms

pub has_no_section-IsSectionFree :
    (ms : List Text) → has_no_section ms ≡ true → All IsSectionFree ms
has_no_section-IsSectionFree [] h = tt
has_no_section-IsSectionFree (m ∷ ms) h =
    let (none_here, rest) = and_split (not (is_section m)) (has_no_section ms) h in
    (
      λ section. let e : false ≡ true = rw section at none_here in cc,
      has_no_section-IsSectionFree ms rest,
    )

html_sections : All IsSectionFree (chunks html 0)
html_sections = has_no_section-IsSectionFree (chunks html 0) (unfold chunks in refl)

extract_tags_total_example :
    (e : Extracted) × (extract_tags html ≡ some e)
    × (e.source_buf_len ≡ length (flatten e.source_buf))
    × IsOrdered 0 (length (flatten e.source_buf)) e.extracted_tags
extract_tags_total_example = extract_tags_total html html_sections

-- A section that is not to be coloured is kept whole.
sections :
    extract_tags html
    ≡ some (record {
      source_buf = codes "a" ∷ codes "c" ∷ codes "\n" ∷ codes "<" ∷ [];
      source_buf_len = 4;
      extracted_tags =
          record { at = 1; text = codes "<b>" }
          ∷ record { at = 2; text = codes "</b>" }
          ∷ record { at = 4; text = codes "<span class=nocode>x<span>y</span></span>" }
          ∷ [];
    })
unfolding extract_tags flatten
sections = refl

-- A CDATA section is taken for a tag.
cdata :
    extract_tags (codes "<![CDATA[x]]>")
    ≡ some (record {
      source_buf = [];
      source_buf_len = 0;
      extracted_tags = record { at = 0; text = codes "<![CDATA[x]]>" } ∷ [];
    })
unfolding extract_tags
cdata = refl

-- A CDATA section that passes for a tag of the class nocode has no name: a TypeError.
nocode_cdata : extract_tags (codes "<![CDATA[ class='nocode' ]]>") ≡ none
unfolding extract_tags is_no_code_tag
nocode_cdata = refl

-- The class is found in quotes of either kind, without quotes, and in the value of another attribute.
nocode_tags :
    (is_no_code_tag (codes "<span class=nocode>") ≡ true)
    × (is_no_code_tag (codes "<span id=x CLASS = 'a nocode b'>") ≡ true)
    × (is_no_code_tag (codes "<span class=\"nocodes\">") ≡ false)
    × (is_no_code_tag (codes "<span title='class=\"nocode\"'>") ≡ true)
unfolding is_no_code_tag
nocode_tags = (refl, refl, refl, refl)

-- The last chunk is a text that looks like an attribute.
abbrev commented : Text
commented = codes "a<b>c</b><BR>&lt;<!-- <i> -->d class=nocode"

abbrev all_coloured : List Text → Bool
all_coloured [] = true
all_coloured (m ∷ ms) = not (is_tag m && is_no_code_tag m) && all_coloured ms
