-- ===== src/Tests/Html.antt =====
-- Escaping and unescaping of html, `webapps/admin/js/prettify.js`.
use java_study_project.Base.{◌≤◌, ◌≡◌, refl, some, [], ◌∷◌, length, All, arith}
use java_study_project.Text.{Text, codes, replace_all}
use java_study_project.Prettify.Html.{attrib_to_html, text_to_html, html_to_text, decode_numeric}
use java_study_project.Prettify.Html.Escape.{IsInert, attrib_to_html-IsInert}
use java_study_project.Prettify.Html.Entities.{decode_numeric_total}
use java_study_project.Prettify.Html.RoundTrip.{html_to_text-text_to_html}

html_to_text-text_to_html_example :
    html_to_text (text_to_html (codes "a&nbsp;<b>"))
    ≡ replace_all (codes "&nbsp;") (codes " ") (codes "a&nbsp;<b>")
html_to_text-text_to_html_example = html_to_text-text_to_html (codes "a&nbsp;<b>")

attrib_to_html-IsInert_example : All IsInert (attrib_to_html (codes "\"><b>"))
attrib_to_html-IsInert_example = attrib_to_html-IsInert (codes "\"><b>")

decode_numeric_total_example :
    (t : Text) × (decode_numeric 9 0 (codes "a&#10;b") ≡ some t)
    × (length t ≤ length (codes "a&#10;b"))
decode_numeric_total_example = decode_numeric_total 9 0 (codes "a&#10;b") (omega arith)

-- The first character of the number is passed over: `&#10;` is read as the code 0.
numeric_entity : html_to_text (codes "a&#10;b") ≡ b'a' ∷ 0 ∷ b'b' ∷ []
unfolding html_to_text
numeric_entity = refl

-- So an x in front of the number is never seen.
hexadecimal_entity : html_to_text (codes "&apos;&#x41;&lt;") ≡ codes "')<"
unfolding html_to_text
hexadecimal_entity = refl
