-- ===== src/Tests/Charset.antt =====
-- Character classes without case, `webapps/admin/js/prettify.js`.
use java_study_project.Base.{◌≡◌, ◌≢◌, arith, refl, some, none, [], ◌==◌, if◌then◌else◌}
use java_study_project.Text.{Text, codes}
use java_study_project.Prettify.Charset.{charset_parts, collect, case_fold_charset}
use java_study_project.Prettify.Characters.{decode_escape, encode_escape}
use java_study_project.Prettify.Charset.Escapes.{decode_escape-encode_escape}
use java_study_project.Prettify.Charset.Ranges.{covered}
use java_study_project.Prettify.Charset.Caret.{class_parts, class_of, IsReadable, behind}
use java_study_project.Prettify.Charset.Meaning.{IsFolded, case_fold_charset-IsFolded}
use java_study_project.Prettify.Charset.Folding.{spelled}

decode_escape-encode_escape_example : decode_escape (encode_escape 0) ≡ (if 0 == 0 then b'x' else 0)
decode_escape-encode_escape_example = decode_escape-encode_escape 0

-- A class with a group, a range of letters and a caret.
abbrev char_set : Text
char_set = codes "[\\dx-z\\^]"

char_set_parts : class_parts char_set ≢ []
unfolding charset_parts
char_set_parts e = cc

char_set-IsReadable : IsReadable (class_of char_set)
unfolding charset_parts spelled collect decode_escape covered
char_set-IsReadable = record {
  forward = omega arith;
  no_null = refl;
  caret = behind b'X' (omega arith) refl;
}

case_fold_charset-IsFolded_example :
    (out : Text) × (case_fold_charset char_set ≡ some out)
    × IsFolded (class_of char_set) (class_of out)
case_fold_charset-IsFolded_example =
    case_fold_charset-IsFolded char_set char_set_parts char_set-IsReadable

char_set_folded : case_fold_charset char_set ≡ some (codes "[\\dX-Z^x-z]")
unfolding case_fold_charset
char_set_folded = refl

-- Alone, the caret comes to stand first, and the class is all characters.
caret_alone : case_fold_charset (codes "[\\^]") ≡ some (codes "[^]")
unfolding case_fold_charset
caret_alone = refl

letters : case_fold_charset (codes "[a-f\\d_]") ≡ some (codes "[\\dA-F_a-f]")
unfolding case_fold_charset
letters = refl

no_parts : case_fold_charset (codes "[]") ≡ none
unfolding case_fold_charset
no_parts = refl
