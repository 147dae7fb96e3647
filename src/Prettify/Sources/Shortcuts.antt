-- ===== src/Prettify/Sources/Shortcuts.antt =====
-- A character decides on at most one pattern.

use java_study_project.Base.{
  ◌≡◌, refl, sym, ap, Bool, true, not, ◌&&◌, List, [], ◌∷◌, ◌++◌, ◌⊎◌, inl, inr, Bool-cases,
  append_assoc,
}
use java_study_project.Text.{Text, codes, eq_text}
use java_study_project.Prettify.Lexer.{includes}
use java_study_project.Prettify.Simple.{StylePattern}
use java_study_project.Prettify.Sources.{
  Options, string_pattern, hash_patterns, source_shortcuts, source_patterns, common_patterns,
  comment_patterns, regex_patterns, keyword_patterns, trim, space_pattern,
}

-- The shortcut characters of the patterns, one behind the other.
unfoldable pub shortcut_characters : List StylePattern → Text
shortcut_characters [] = []
shortcut_characters (p ∷ ps) = p.shortcut ++ shortcut_characters ps

abbrev pub has_no_repeat : Text → Bool
has_no_repeat [] = true
has_no_repeat (c ∷ s) = not (includes c s) && has_no_repeat s

characters-append :
    (ps qs : List StylePattern)
    → shortcut_characters (ps ++ qs) ≡ shortcut_characters ps ++ shortcut_characters qs
unfolding shortcut_characters
characters-append [] qs = refl
characters-append (p ∷ ps) qs =
    rw (characters-append ps qs)
      (sym (append_assoc p.shortcut (shortcut_characters ps) (shortcut_characters qs)))

comments_none : (o : Options) → shortcut_characters (comment_patterns o) ≡ []
unfolding shortcut_characters
comments_none o = elim (Bool-cases o.c_style_comments) [ inl h ↦ rw h | inr h ↦ rw h ]

regex_none : (o : Options) → shortcut_characters (regex_patterns o) ≡ []
unfolding shortcut_characters
regex_none o = elim (Bool-cases o.regex_literals) [ inl h ↦ rw h | inr h ↦ rw h ]

keywords_none : (s : Text) → shortcut_characters (keyword_patterns s) ≡ []
unfolding shortcut_characters
keywords_none s = elim (Bool-cases (eq_text s [])) [ inl h ↦ rw h | inr h ↦ rw h ]

source_none : (o : Options) → shortcut_characters (source_patterns o) ≡ []
unfolding source_patterns
source_none o = rw (
  characters-append (comment_patterns o) (regex_patterns o ++ keyword_patterns (trim o.keywords)),
  characters-append (regex_patterns o) (keyword_patterns (trim o.keywords)),
  comments_none o,
  regex_none o,
  keywords_none (trim o.keywords),
)

-- The characters of the strings' pattern, and of the comments that begin with a hash.
string_characters : Options → Text
string_characters o = (string_pattern o).shortcut

hash_characters : Options → Text
hash_characters o = shortcut_characters (hash_patterns o)

string_cases :
    (o : Options)
    → (string_characters o ≡ codes "'\"")
      ⊎ (string_characters o ≡ codes "'\"`")
      ⊎ (string_characters o ≡ codes "\"'")
unfolding string_characters
string_cases o = elim (Bool-cases o.triple_quoted_strings) [
  | inl h ↦ rw h (inl refl)
  | inr h ↦ rw h (elim (Bool-cases o.multi_line_strings) [
    | inl k ↦ rw k (inr (inl refl))
    | inr k ↦ rw k (inr (inr refl))
  ])
]

hash_cases : (o : Options) → (hash_characters o ≡ codes "#") ⊎ (hash_characters o ≡ [])
unfolding hash_characters shortcut_characters
hash_cases o = elim (Bool-cases o.hash_comments) [
  | inr h ↦ rw h (inr refl)
  | inl h ↦
      rw h
        (elim (Bool-cases o.c_style_comments) [ inl k ↦ rw k (inl refl) | inr k ↦ rw k (inl refl) ])
]

all_characters : Text → Text → Text
all_characters strings hashes =
    strings ++ (hashes ++ (codes " " ++ (13 ∷ 10 ∷ 9 ∷ 0xa0 ∷ codes "@0123456789")))

abbrev space_characters : Text
space_characters = codes " " ++ 13 ∷ 10 ∷ 9 ∷ 0xa0 ∷ []

front :
    (o : Options)
    → shortcut_characters (string_pattern o ∷ (hash_patterns o ++ space_pattern ∷ []))
      ≡ string_characters o ++ (hash_characters o ++ space_characters)
unfolding shortcut_characters string_characters hash_characters
front o =
    ap (λ (s : Text). (string_pattern o).shortcut ++ s)
      (characters-append (hash_patterns o) (space_pattern ∷ []))

common : shortcut_characters common_patterns ≡ codes "@0123456789"
unfolding shortcut_characters common_patterns
common = refl

three : (a b c d : Text) → (a ++ (b ++ c)) ++ d ≡ a ++ (b ++ (c ++ d))
three a b c d = simp append_assoc

characters_of :
    (o : Options)
    → shortcut_characters (source_shortcuts o ++ (source_patterns o ++ common_patterns))
      ≡ all_characters (string_characters o) (hash_characters o)
unfolding source_shortcuts all_characters
characters_of o =
    rw
      (
        characters-append (string_pattern o ∷ (hash_patterns o ++ space_pattern ∷ []))
            (source_patterns o ++ common_patterns),
        characters-append (source_patterns o) common_patterns,
        source_none o,
        front o,
        common,
      )
      (three (string_characters o) (hash_characters o) space_characters (codes "@0123456789"))

-- Whatever the options, no character is a shortcut of two patterns of the decorator, or twice of one.
pub source_decorator-shortcuts :
    (o : Options)
    → has_no_repeat
        (shortcut_characters (source_shortcuts o ++ (source_patterns o ++ common_patterns)))
      ≡ true
unfolding all_characters
source_decorator-shortcuts o = rw (characters_of o) (elim (hash_cases o) [
  | inl h ↦ rw h (elim (string_cases o) [ inl k ↦ rw k | inr (inl k) ↦ rw k | inr (inr k) ↦ rw k ])
  | inr h ↦ rw h (elim (string_cases o) [ inl k ↦ rw k | inr (inl k) ↦ rw k | inr (inr k) ↦ rw k ])
])
