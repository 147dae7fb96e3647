-- ===== src/Prettify/Languages/Registered.antt =====
-- Every call of the script makes a handler, and every extension that is asked for finds one.

use java_study_project.Base.{
  ◌≡◌, ◌≢◌, refl, ◌∙◌, Bool, true, false, ◌&&◌, ◌||◌, Option, none, some, List, [], ◌∷◌, ◌++◌, inl,
  inr, Bool-cases, Option-cases, if◌then◌else◌, and_split,
}
use java_study_project.Text.{Text, codes, eq_text}
use java_study_project.Prettify.Lexer.{
  Lexer, Handlers, registered, register_lang_handler, lang_handler_for_extension, default_extension,
  is_markup,
}
use java_study_project.Prettify.Lexer.Registry.{or_else, names, registered-register_lang_handler}
use java_study_project.Prettify.Combine.{combine_prefix_patterns}
use java_study_project.Prettify.Keywords.{
  all_keywords, cpp_keywords, common_keywords, c_keywords, flow_control_keywords, csharp_keywords,
  java_keywords, sh_keywords, python_keywords, perl_keywords, ruby_keywords, jscript_keywords,
}
use java_study_project.Prettify.Simple.{
  StylePattern, Engine, any_character, unique_regexs, lexer_with, create_simple_lexer,
}
use java_study_project.Prettify.Sources.{
  decorator_with, source_decorator, source_shortcuts, source_patterns, common_patterns,
}
use java_study_project.Prettify.Languages.{registrations, then_register, registry}
use java_study_project.Prettify.Markup.{Maker, decorator, simple, make, Registration}

abbrev pub is_made {ℓ} : {A : Type ℓ} → Option A → Bool
is_made none = false
is_made (some a) = true

-- Whether the patterns of a call can be combined; it does not depend on the browser.
combines : List StylePattern → StylePattern → List StylePattern → Bool
combines shortcuts first others =
    is_made (
      combine_prefix_patterns
        (unique_regexs [] (shortcuts ++ first ∷ others) ++ any_character ∷ []))

combines_with : List StylePattern → List StylePattern → Bool
combines_with shortcuts [] = false
combines_with shortcuts (p ∷ ps) = combines shortcuts p ps

can_make : Maker → Bool
can_make (decorator o) = combines_with (source_shortcuts o) (source_patterns o ++ common_patterns)
can_make (simple shortcuts first others) = combines shortcuts first others

all_can : List Registration → Bool
all_can [] = true
all_can (r ∷ rs) = can_make r.maker && all_can rs

every_call : all_can registrations ≡ true
unfolding all_can can_make combines combines_with source_decorator source_shortcuts common_patterns
    source_patterns unique_regexs combine_prefix_patterns all_keywords cpp_keywords common_keywords
    c_keywords flow_control_keywords csharp_keywords java_keywords sh_keywords python_keywords
    perl_keywords ruby_keywords jscript_keywords
every_call = refl

-- The extensions of the calls.
abbrev pub named_by : Text → List Registration → Bool
named_by ext [] = false
named_by ext (r ∷ rs) = names ext r.extensions || named_by ext rs

made_or :
    (x : Option Lexer) (b : Bool) (lexer : Lexer)
    → is_made (or_else x (if b then some lexer else none)) ≡ (is_made x || b)
made_or none true lexer = refl
made_or none false lexer = refl
made_or (some y) b lexer = refl

or_false : (a : Bool) → a ≡ (a || false)
or_false true = refl
or_false false = refl

or_assoc : (a b c : Bool) → ((a || b) || c) ≡ (a || (b || c))
or_assoc true b c = refl
or_assoc false b c = refl

module _ (engine : Engine) where
  create-made :
      (shortcuts : List StylePattern) (first : StylePattern) (others : List StylePattern)
      → combines shortcuts first others ≡ true
      → (lexer : Lexer) × (create_simple_lexer engine shortcuts first others ≡ some lexer)
  unfolding create_simple_lexer combines
  create-made shortcuts first others h =
      elim (Option-cases (
        combine_prefix_patterns
          (unique_regexs [] (shortcuts ++ first ∷ others) ++ any_character ∷ []))) [
            | inl e ↦ let n : false ≡ true = rw e at h in cc
            | inr (r, e) ↦ (lexer_with engine shortcuts first others r, rw e)
          ]

  decorator-made :
      (shortcuts ps : List StylePattern)
      → combines_with shortcuts ps ≡ true
      → (lexer : Lexer) × (decorator_with engine shortcuts ps ≡ some lexer)
  unfolding combines_with
  decorator-made shortcuts [] h = cc
  decorator-made shortcuts (p ∷ ps) h = create-made shortcuts p ps h

  make-made : (m : Maker) → can_make m ≡ true → (lexer : Lexer) × (make engine m ≡ some lexer)
  unfolding can_make source_decorator
  make-made (decorator o) h =
      decorator-made (source_shortcuts o) (source_patterns o ++ common_patterns) h
  make-made (simple shortcuts first others) h = create-made shortcuts first others h

  is_made-register :
      (ext : Text) (lexer : Lexer) (exts : List Text) (hs : Handlers)
      → is_made (registered ext (register_lang_handler lexer exts hs))
        ≡ (is_made (registered ext hs) || names ext exts)
  is_made-register ext lexer exts hs =
      rw (registered-register_lang_handler lexer exts hs ext)
        (made_or (registered ext hs) (names ext exts) lexer)

  then_register-made :
      (rs : List Registration) (hs : Handlers)
      → all_can rs ≡ true
      → (after : Handlers) × (then_register engine rs (some hs) ≡ some after)
        × ((ext : Text)
            → is_made (registered ext after) ≡ (is_made (registered ext hs) || named_by ext rs))
  unfolding all_can
  then_register-made [] hs h = (hs, refl, λ ext. or_false (is_made (registered ext hs)))
  then_register-made (r ∷ rs) hs h =
      let (own, rest) = and_split (can_make r.maker) (all_can rs) h in
      let (lexer, made) = make-made r.maker own in
      let (after, done, found) =
        then_register-made rs (register_lang_handler lexer r.extensions hs) rest in
      (
        after,
        rw (made, then_register) done,
        λ ext.
            found ext
            ∙ rw (is_made-register ext lexer r.extensions hs)
                (or_assoc (is_made (registered ext hs)) (names ext r.extensions) (named_by ext rs)),
      )

found-made : (x : Option Lexer) → is_made x ≡ true → x ≢ none
found-made none h e = cc
found-made (some x) h e = cc

default-either :
    (hs : Handlers) (source : Text)
    → registered (codes "default-markup") hs ≢ none
    → registered (codes "default-code") hs ≢ none
    → registered (default_extension source) hs ≢ none
default-either hs source m c = elim (Bool-cases (is_markup source)) [
  | inl b ↦ rw b m
  | inr b ↦ rw b c
]

default-found :
    (hs : Handlers) (ext source : Text)
    → registered (codes "default-markup") hs ≢ none
    → registered (codes "default-code") hs ≢ none
    → lang_handler_for_extension hs ext source ≢ none
unfolding lang_handler_for_extension
default-found hs ext source m c = elim (Option-cases (registered ext hs)) [
  | inl e ↦ rw (e, lang_handler_for_extension) (default-either hs source m c)
  | inr (x, e) ↦ elim (Bool-cases (eq_text ext [])) [
    | inl b ↦ rw (e, lang_handler_for_extension, b) (default-either hs source m c)
    | inr b ↦ rw (e, lang_handler_for_extension, b) (λ n. cc)
  ]
]

-- The script loads: every handler is made. An extension has a handler just when a call names it, and
-- whatever the extension and the source, `langHandlerForExtension` finds a handler.
pub registry_total :
    (engine : Engine)
    → (hs : Handlers) × (registry engine ≡ some hs)
      × ((ext : Text) → is_made (registered ext hs) ≡ named_by ext registrations)
      × ((ext source : Text) → lang_handler_for_extension hs ext source ≢ none)
unfolding registry
registry_total engine =
    let (hs, done, found) = then_register-made engine registrations [] every_call in
    (
      hs,
      done,
      found,
      λ ext source.
          default-found hs ext source
            (found-made (registered (codes "default-markup") hs) (found (codes "default-markup")))
            (found-made (registered (codes "default-code") hs) (found (codes "default-code"))),
    )
