-- ===== src/Tests/Apply.antt =====
-- A whole page of html coloured, `webapps/admin/js/prettify.js`.

use java_study_project.Base.{◌≡◌, refl, some, [], ◌∷◌, All}
use java_study_project.Text.{Text, codes}
use java_study_project.Prettify.Tags.{Extracted, chunks, extract_tags}
use java_study_project.Prettify.Tags.Positions.{IsSectionFree}
use java_study_project.Tests.Tags.{has_no_section-IsSectionFree}

abbrev pub html : Text
html = codes "a<b>x</b>"

abbrev pub extracted : Extracted
extracted = record {
  source_buf = codes "a" ∷ codes "x" ∷ [];
  source_buf_len = 2;
  extracted_tags =
      record { at = 1; text = codes "<b>" } ∷ record { at = 2; text = codes "</b>" } ∷ [];
}

pub extracted_tags_of : extract_tags html ≡ some extracted
unfolding extract_tags
extracted_tags_of = refl

pub html_sections : All IsSectionFree (chunks html 0)
html_sections = has_no_section-IsSectionFree (chunks html 0) (unfold chunks in refl)
