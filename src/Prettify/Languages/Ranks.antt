-- ===== src/Prettify/Languages/Ranks.antt =====
-- The registry of the script, handler by handler.

use mathlib.Core.Option
use java_study_project.Base.{
  ℕ, ◌≡◌, refl, Option, none, some, List, [], ◌∷◌, All, inl, inr, Option-cases,
}
use java_study_project.Text.{Text, codes}
use java_study_project.Prettify.Lexer.{
  Lexer, Handlers, registered, register_one, register_lang_handler,
}
use java_study_project.Prettify.Lexer.Sound.{AllHandlers}
use java_study_project.Prettify.Combine.{combine_prefix_patterns}
use java_study_project.Prettify.Keywords.{
  all_keywords, cpp_keywords, common_keywords, c_keywords, flow_control_keywords, csharp_keywords,
  java_keywords, sh_keywords, python_keywords, perl_keywords, ruby_keywords, jscript_keywords,
}
use java_study_project.Prettify.Simple.{Engine, unique_regexs, create_simple_lexer}
use java_study_project.Prettify.Sources.{
  source_decorator, source_shortcuts, source_patterns, common_patterns,
}
use java_study_project.Prettify.Languages.{then_register, registry}
use java_study_project.Prettify.Markup.{make, Registration}
use java_study_project.Prettify.Languages.Lawful.{handler_rank}

unfoldable pub rank_at : Text → Option Handlers → Option ℕ
rank_at ext none = none
rank_at ext (some hs) = Option.map handler_rank (registered ext hs)

pub in_tag_rank : (engine : Engine) → rank_at (codes "in.tag") (registry engine) ≡ some 0
unfolding rank_at registry source_decorator create_simple_lexer register_lang_handler
    source_shortcuts common_patterns source_patterns unique_regexs combine_prefix_patterns
    all_keywords cpp_keywords common_keywords c_keywords flow_control_keywords csharp_keywords
    java_keywords sh_keywords python_keywords perl_keywords ruby_keywords jscript_keywords
in_tag_rank engine = refl

pub regex_rank : (engine : Engine) → rank_at (codes "regex") (registry engine) ≡ some 0
unfolding rank_at registry source_decorator create_simple_lexer register_lang_handler
    source_shortcuts common_patterns source_patterns unique_regexs combine_prefix_patterns
    all_keywords cpp_keywords common_keywords c_keywords flow_control_keywords csharp_keywords
    java_keywords sh_keywords python_keywords perl_keywords ruby_keywords jscript_keywords
regex_rank engine = refl

module _ (P : Lexer → Type 0) where
  register_one-AllHandlers :
      (lexer : Lexer) (ext : Text) (hs : Handlers)
      → P lexer
      → AllHandlers P hs
      → AllHandlers P (register_one lexer ext hs)
  unfolding register_one
  register_one-AllHandlers lexer ext hs h all = elim (Option-cases (registered ext hs)) [
    | inl e ↦ rw (register_one, e) (h, all)
    | inr (old, e) ↦ rw (register_one, e) all
  ]

  register_lang_handler-AllHandlers :
      (lexer : Lexer) (exts : List Text) (hs : Handlers)
      → P lexer
      → AllHandlers P hs
      → AllHandlers P (register_lang_handler lexer exts hs)
  unfolding register_lang_handler
  register_lang_handler-AllHandlers lexer [] hs h all = all
  register_lang_handler-AllHandlers lexer (ext ∷ exts) hs h all =
      register_one-AllHandlers lexer ext (register_lang_handler lexer exts hs) h
        (register_lang_handler-AllHandlers lexer exts hs h all)

  module _ (engine : Engine) where
    abbrev pub MakesGood : Registration → Type 0
    MakesGood r = (lexer : Lexer) → make engine r.maker ≡ some lexer → P lexer

    pub then_register-AllHandlers :
        (rs : List Registration) (before after : Handlers)
        → All MakesGood rs
        → AllHandlers P before
        → then_register engine rs (some before) ≡ some after
        → AllHandlers P after
    then_register-AllHandlers [] before after good all e =
        let same : before ≡ after = cc in rw (← same) all
    then_register-AllHandlers (r ∷ rs) before after good all e =
        elim (Option-cases (make engine r.maker)) [
          | inl h ↦ let n : none ≡ some after = rw (h, then_register) at e in cc
          | inr (lexer, h) ↦
              then_register-AllHandlers rs (register_lang_handler lexer r.extensions before) after
                good.1
                (register_lang_handler-AllHandlers lexer r.extensions before (good.0 lexer h) all)
                (rw (h, then_register) at e)
        ]
