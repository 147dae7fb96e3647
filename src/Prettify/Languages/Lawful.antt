-- ===== src/Prettify/Languages/Lawful.antt =====
-- The ranks of the handlers of the script, and what is relied on of the browser's expressions.
use mathlib.Core.List.{flatten}
use java_study_project.Base.{
  ℕ, ◌<◌, ◌≡◌, ◌≢◌, Bool, true, false, ◌||◌, none, some, List, [], ◌∷◌, ◌++◌, length, All,
  if◌then◌else◌,
}
use java_study_project.Text.{Text, codes, eq_text, index_of, starts_with}
use java_study_project.Prettify.Lexer.{Match, Pattern, Lexer, all_patterns}
use java_study_project.Prettify.RegExp.{RegExp}
use java_study_project.Prettify.Simple.{StylePattern, Engine}
use java_study_project.Prettify.Sources.{source_shortcuts, source_patterns, common_patterns}
use java_study_project.Prettify.Languages.{registrations}
use java_study_project.Prettify.Markup.{Maker, decorator, simple, make, Registration}

-- The styles of patterns that hand a whole token on to another language.
abbrev pub hands_over : Text → Bool
hands_over style = eq_text style (codes "lang-in.tag") || eq_text style (codes "lang-regex")

abbrev pub any_hands_over : List Pattern → Bool
any_hands_over [] = false
any_hands_over (p ∷ ps) = hands_over p.style || any_hands_over ps

-- A lexer that hands tokens over stands above those that do not.
abbrev pub handler_rank : Lexer → ℕ
handler_rank lx = if any_hands_over (all_patterns lx) then 1 else 0

abbrev pub patterns_of : Maker → List StylePattern
patterns_of (decorator o) = source_shortcuts o ++ (source_patterns o ++ common_patterns)
patterns_of (simple shortcuts first others) = shortcuts ++ first ∷ others

-- A pattern for a piece of another language has more around its group 1, but for those that hand over.
abbrev pub IsEnclosing : Engine → StylePattern → Type 0
IsEnclosing engine p =
    starts_with (codes "lang-") p.style ≡ true
    → hands_over p.style ≡ false
    → (token : Text) (m : Match) → engine.exec p.regexp token ≡ some m
    → length m.group < length token

-- What is relied on of the browser: group 1 is a part of its text, the patterns of the script enclose it,
-- and the tokens of a source are the source cut in pieces.
pub record IsLawful (engine : Engine) : Type 0 where
  pub inside :
      (r : RegExp) (token : Text) (m : Match)
      → engine.exec r token ≡ some m
      → index_of m.group token ≢ none
  pub shorter :
      All (λ (r : Registration). All (IsEnclosing engine) (patterns_of r.maker)) registrations
  pub cuts :
      All
        (λ (r : Registration).
          (lexer : Lexer)
          → make engine r.maker ≡ some lexer
          → (source : Text) → flatten (lexer.tokenize source) ≡ source)
        registrations
