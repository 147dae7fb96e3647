-- ===== src/Prettify/Preceders.antt =====
-- `REGEXP_PRECEDER_PATTERN`, what may stand before a regular expression literal, and the literal.

use java_study_project.Base.{ℕ, Bool, ◌&&◌, ◌||◌, List, [], ◌∷◌, ◌++◌, leb, ◌==◌, if◌then◌else◌}
use java_study_project.Text.{Text, codes}

abbrev pub is_unescaped : ℕ → Bool
is_unescaped c =
    c == b'=' || c == b'<' || c == b'>' || c == b':' || c == b'&' || leb b'a' c && leb c b'z'

-- `replace(/([^=<>:&a-z])/g, '\\$1')`.
unfoldable pub escape_preceder : Text → Text
escape_preceder [] = []
escape_preceder (c ∷ s) =
    if is_unescaped c then c ∷ escape_preceder s else b'\\' ∷ c ∷ escape_preceder s

abbrev pub preceders : List Text
preceders =
    codes "!"
    ∷ codes "!="
    ∷ codes "!=="
    ∷ codes "#"
    ∷ codes "%"
    ∷ codes "%="
    ∷ codes "&"
    ∷ codes "&&"
    ∷ codes "&&="
    ∷ codes "&="
    ∷ codes "("
    ∷ codes "*"
    ∷ codes "*="
    ∷ codes "+="
    ∷ codes ","
    ∷ codes "-="
    ∷ codes "->"
    ∷ codes "/"
    ∷ codes "/="
    ∷ codes ":"
    ∷ codes "::"
    ∷ codes ";"
    ∷ codes "<"
    ∷ codes "<<"
    ∷ codes "<<="
    ∷ codes "<="
    ∷ codes "="
    ∷ codes "=="
    ∷ codes "==="
    ∷ codes ">"
    ∷ codes ">="
    ∷ codes ">>"
    ∷ codes ">>="
    ∷ codes ">>>"
    ∷ codes ">>>="
    ∷ codes "?"
    ∷ codes "@"
    ∷ codes "["
    ∷ codes "^"
    ∷ codes "^="
    ∷ codes "^^"
    ∷ codes "^^="
    ∷ codes "{"
    ∷ codes "|"
    ∷ codes "|="
    ∷ codes "||"
    ∷ codes "||="
    ∷ codes "~"
    ∷ codes "break"
    ∷ codes "case"
    ∷ codes "continue"
    ∷ codes "delete"
    ∷ codes "do"
    ∷ codes "else"
    ∷ codes "finally"
    ∷ codes "instanceof"
    ∷ codes "return"
    ∷ codes "throw"
    ∷ codes "try"
    ∷ codes "typeof"
    ∷ []

unfoldable pub preceder_alternatives : List Text → Text
unfolding escape_preceder
preceder_alternatives [] = []
preceder_alternatives (p ∷ ps) = b'|' ∷ (escape_preceder p ++ preceder_alternatives ps)

unfoldable pub regexp_preceder_pattern : Text
unfolding preceder_alternatives
regexp_preceder_pattern = codes "(?:^^|[+-]" ++ (preceder_alternatives preceders ++ codes ")\\s*")

unfoldable pub regex_literal : Text
regex_literal =
    codes "/(?=[^/*])"
    ++ (codes "(?:[^/\\x5B\\x5C]"
        ++ (codes "|\\x5C[\\s\\S]"
            ++ (codes "|\\x5B(?:[^\\x5C\\x5D]|\\x5C[\\s\\S])*(?:\\x5D|$))+" ++ codes "/")))
