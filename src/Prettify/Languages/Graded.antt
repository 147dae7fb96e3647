-- ===== src/Prettify/Languages/Graded.antt =====
-- The handlers of the script are graded, where the browser's expressions keep their laws.
use mathlib.Core.List.{flatten}
use mathlib.Core.Path.{subst}
use java_study_project.Base.{
  ◌≤◌, ◌<◌, ◌≡◌, ◌≢◌, refl, sym, ap, ◌∙◌, arith, Bool, true, false, ◌||◌, none, some, List, [], ◌∷◌,
  ◌++◌, map, length, drop, All, ◌⊎◌, inl, inr, Bool-cases, Option-cases,
}
use java_study_project.Text.{Text, codes, eq_text, index_of, starts_with}
use java_study_project.Text.Search.{eq_text-true}
use java_study_project.Prettify.Lexer.{
  Match, Pattern, Lexer, Handlers, all_patterns, registered, lang_handler_for_extension,
}
use java_study_project.Prettify.Lexer.Sound.{GroupsInside}
use java_study_project.Prettify.Lexer.Fuel.{IsGraded}
use java_study_project.Prettify.Lexer.Chosen.{classify-pattern}
use java_study_project.Prettify.Combine.{combine_prefix_patterns}
use java_study_project.Prettify.RegExp.{RegExp}
use java_study_project.Prettify.Simple.{
  StylePattern, Engine, compile, any_character, unique_regexs, lexer_with, create_simple_lexer,
}
use java_study_project.Prettify.Sources.{
  decorator_with, source_decorator, source_shortcuts, source_patterns, common_patterns,
}
use java_study_project.Prettify.Markup.{Maker, decorator, simple, make}
use java_study_project.Prettify.Languages.Lawful.{
  hands_over, any_hands_over, handler_rank, patterns_of, IsEnclosing,
}

map-append_compile :
    (engine : Engine) (ps qs : List StylePattern)
    → map (compile engine) (ps ++ qs) ≡ map (compile engine) ps ++ map (compile engine) qs
map-append_compile engine [] qs = refl
map-append_compile engine (p ∷ ps) qs = rw (map-append_compile engine ps qs)

module _ (engine : Engine) where
  created-patterns :
      (shortcuts : List StylePattern) (first : StylePattern) (others : List StylePattern)
      (lexer : Lexer)
      → create_simple_lexer engine shortcuts first others ≡ some lexer
      → all_patterns lexer ≡ map (compile engine) (shortcuts ++ first ∷ others)
  unfolding create_simple_lexer
  created-patterns shortcuts first others lexer e =
      elim (Option-cases (
        combine_prefix_patterns
          (unique_regexs [] (shortcuts ++ first ∷ others) ++ any_character ∷ []))) [
            | inl h ↦ let n : none ≡ some lexer = rw h at e in cc
            | inr (r, h) ↦
                let same : some (lexer_with engine shortcuts first others r) ≡ some lexer =
                  rw h at e in
                let eq : lexer_with engine shortcuts first others r ≡ lexer = cc in
                sym (ap all_patterns eq)
                ∙ sym (map-append_compile engine shortcuts (first ∷ others))
          ]

  decorator-patterns :
      (shortcuts ps : List StylePattern) (lexer : Lexer)
      → decorator_with engine shortcuts ps ≡ some lexer
      → all_patterns lexer ≡ map (compile engine) (shortcuts ++ ps)
  decorator-patterns shortcuts [] lexer e = cc
  decorator-patterns shortcuts (p ∷ ps) lexer e = created-patterns shortcuts p ps lexer e

  made-patterns :
      (m : Maker) (lexer : Lexer)
      → make engine m ≡ some lexer
      → all_patterns lexer ≡ map (compile engine) (patterns_of m)
  unfolding source_decorator
  made-patterns (decorator o) lexer e =
      decorator-patterns (source_shortcuts o) (source_patterns o ++ common_patterns) lexer e
  made-patterns (simple shortcuts first others) lexer e =
      created-patterns shortcuts first others lexer e

  -- A pattern for a piece of another language hands over to a lower lexer, or gives less than its token.
  abbrev IsFine : Lexer → Pattern → Type 0
  IsFine lx p =
      starts_with (codes "lang-") p.style ≡ true
      → ((hands_over p.style ≡ true) × (handler_rank lx ≡ 1))
        ⊎ ((token : Text) (m : Match) → p.matches token ≡ some m → length m.group < length token)

  enclosing-IsFine :
      (lx : Lexer) (p : StylePattern)
      → IsEnclosing engine p
      → (hands_over p.style ≡ true → handler_rank lx ≡ 1)
      → IsFine lx (compile engine p)
  enclosing-IsFine lx p enclosing over lang = elim (Bool-cases (hands_over p.style)) [
    | inl h ↦ inl (h, over h)
    | inr h ↦ inr (enclosing lang h)
  ]

  or_left : (a b : Bool) → a ≡ true → (a || b) ≡ true
  or_left true b h = refl
  or_left false b h = cc

  or_right : (a b : Bool) → b ≡ true → (a || b) ≡ true
  or_right true b h = refl
  or_right false b h = h

  enclosing-All :
      (lx : Lexer) (ps : List StylePattern)
      → All (IsEnclosing engine) ps
      → (any_hands_over (map (compile engine) ps) ≡ true → handler_rank lx ≡ 1)
      → All (IsFine lx) (map (compile engine) ps)
  enclosing-All lx [] enclosing over = tt
  enclosing-All lx (p ∷ ps) enclosing over = (
    enclosing-IsFine lx p enclosing.0 (λ h. over (or_left (hands_over p.style) _ h)),
    enclosing-All lx ps enclosing.1 (λ h. over (or_right (hands_over p.style) _ h)),
  )

  any_hands_over-rank : (lx : Lexer) → any_hands_over (all_patterns lx) ≡ true → handler_rank lx ≡ 1
  any_hands_over-rank lx h = rw h

  made-IsFine :
      (m : Maker) (lexer : Lexer)
      → make engine m ≡ some lexer
      → All (IsEnclosing engine) (patterns_of m)
      → All (IsFine lexer) (all_patterns lexer)
  made-IsFine m lexer e enclosing =
      let same = made-patterns m lexer e in
      subst (All (IsFine lexer)) (sym same) (
        enclosing-All lexer (patterns_of m) enclosing
          (λ h. any_hands_over-rank lexer (ap any_hands_over same ∙ h)))

  compiled-GroupsInside :
      ((r : RegExp) (token : Text) (m : Match)
        → engine.exec r token ≡ some m
        → index_of m.group token ≢ none)
      → (ps : List StylePattern) → All GroupsInside (map (compile engine) ps)
  compiled-GroupsInside inside [] = tt
  compiled-GroupsInside inside (p ∷ ps) = (inside p.regexp, compiled-GroupsInside inside ps)

  rank-bound : (lx : Lexer) → handler_rank lx ≤ 1
  rank-bound lx = elim (Bool-cases (any_hands_over (all_patterns lx))) [
    | inl e ↦ rw e (omega arith)
    | inr e ↦ rw e (omega arith)
  ]

  -- The handler of an extension, if it stands at the bottom.
  abbrev pub IsBottom : Text → Handlers → Type 0
  IsBottom ext hs = (h : Lexer) × (registered ext hs ≡ some h) × (handler_rank h ≡ 0)

  bottom-found :
      (ext source : Text) (hs : Handlers)
      → eq_text ext [] ≡ false
      → IsBottom ext hs
      → (h : Lexer) × (lang_handler_for_extension hs ext source ≡ some h) × (handler_rank h ≡ 0)
  unfolding lang_handler_for_extension
  bottom-found ext source hs full (h, found, low) =
      (h, rw (lang_handler_for_extension, found, full), low)

  module _ (hs : Handlers) (in_tag : IsBottom (codes "in.tag") hs)
      (regex : IsBottom (codes "regex") hs)
      (total : (ext source : Text) → lang_handler_for_extension hs ext source ≢ none) where
    handed-found :
        (style source : Text)
        → hands_over style ≡ true
        → (h : Lexer) × (lang_handler_for_extension hs (drop 5 style) source ≡ some h)
          × (handler_rank h ≡ 0)
    handed-found style source over = elim (Bool-cases (eq_text style (codes "lang-in.tag"))) [
      | inl e ↦
          rw (eq_text-true style (codes "lang-in.tag") e)
            (bottom-found (codes "in.tag") source hs refl in_tag)
      | inr e ↦
          let other : eq_text style (codes "lang-regex") ≡ true = rw e at over in
          rw (eq_text-true style (codes "lang-regex") other)
            (bottom-found (codes "regex") source hs refl regex)
    ]

    some-found :
        (lang source : Text) → (h : Lexer) × (lang_handler_for_extension hs lang source ≡ some h)
    some-found lang source = elim (Option-cases (lang_handler_for_extension hs lang source)) [
      | inl e ↦ absurd (total lang source e)
      | inr (h, e) ↦ (h, e)
    ]

    pub made-IsGraded :
        (m : Maker) (lexer : Lexer)
        → make engine m ≡ some lexer
        → ((r : RegExp) (token : Text) (m : Match)
            → engine.exec r token ≡ some m
            → index_of m.group token ≢ none)
        → All (IsEnclosing engine) (patterns_of m)
        → ((source : Text) → flatten (lexer.tokenize source) ≡ source)
        → IsGraded hs handler_rank 1 lexer
    made-IsGraded m lexer e inside enclosing cuts = record {
      sound = record {
        cuts = cuts;
        inside =
            subst (All GroupsInside) (sym (made-patterns m lexer e))
              (compiled-GroupsInside inside (patterns_of m));
      };
      within = rank-bound lexer;
      falls = λ c token lang source embeds.
          let (p, found, fine, matched, group, styled, named) =
            classify-pattern (IsFine lexer) lexer c token lang source
              (made-IsFine m lexer e enclosing) embeds in
          elim (fine styled) [
            | inl (over, high) ↦
                let (h, there, low) = handed-found p.style source over in
                (h, rw named there, inr (omega (arith, high, low)))
            | inr shorter ↦
                let (h, there) = some-found lang source in
                (h, there, inl (rw (← group) (shorter token found matched)))
          ];
    }
