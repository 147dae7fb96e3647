-- ===== src/Prettify/Simple.antt =====
-- `createSimpleLexer` from its call: the patterns' tokenizer is made by `combinePrefixPatterns`.
use mathlib.Core.Option
use java_study_project.Base.{Bool, false, ◌||◌, Option, List, [], ◌∷◌, ◌++◌, map, if◌then◌else◌}
use java_study_project.Text.{Text, codes, eq_text}
use java_study_project.Prettify.RegExp.{RegExp, reg_exp, regexp_text}
use java_study_project.Prettify.Combine.{combine_prefix_patterns}
use java_study_project.Prettify.Lexer.{Match, Pattern, Lexer}

-- `[style, pattern, context, shortcut]`; the context is not used, and no shortcut is the empty text.
pub record StylePattern : Type 0 where
  pub style : Text
  pub regexp : RegExp
  pub shortcut : Text

-- The browser's regular expressions: `token.match(regex)` and `source.match(regex)` for a global one.
pub record Engine : Type 0 where
  pub exec : RegExp → Text → Option Match
  pub match_all : RegExp → Text → List Text

abbrev pub compile : Engine → StylePattern → Pattern
compile engine p = record { style = p.style; matches = engine.exec p.regexp; shortcut = p.shortcut }

abbrev pub has_key : Text → List Text → Bool
has_key k [] = false
has_key k (j ∷ js) = eq_text j k || has_key k js

-- `allRegexs`: each expression once, by its text.
unfoldable pub unique_regexs : List Text → List StylePattern → List RegExp
unique_regexs keys [] = []
unique_regexs keys (p ∷ ps) =
    let k = regexp_text p.regexp in
    let again = unique_regexs keys ps in
    let first = unique_regexs (k ∷ keys) ps in if has_key k keys then again else p.regexp ∷ first

-- `[\0-\uffff]` is the last alternative.
abbrev pub any_character : RegExp
any_character = reg_exp (codes "[\\0-\\uffff]")

abbrev pub lexer_with :
    Engine → List StylePattern → StylePattern → List StylePattern → RegExp → Lexer
lexer_with engine shortcut_patterns first others tokenizer = record {
  shortcut_patterns = map (compile engine) shortcut_patterns;
  first = compile engine first;
  others = map (compile engine) others;
  tokenize = engine.match_all tokenizer;
}

-- `none` where the patterns cannot be combined, which throws.
unfoldable pub create_simple_lexer :
    Engine → List StylePattern → StylePattern → List StylePattern → Option Lexer
unfolding unique_regexs combine_prefix_patterns
create_simple_lexer engine shortcut_patterns first others =
    Option.map (lexer_with engine shortcut_patterns first others) (
      combine_prefix_patterns
        (unique_regexs [] (shortcut_patterns ++ first ∷ others) ++ any_character ∷ []))
