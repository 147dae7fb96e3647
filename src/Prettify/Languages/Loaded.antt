-- ===== src/Prettify/Languages/Loaded.antt =====
-- The registry as the script leaves it, with a browser that keeps the laws.
use mathlib.Core.List.{flatten}
use mathlib.Core.Path.{subst}
use java_study_project.Base.{
  ◌≡◌, ◌≢◌, sym, ap, ◌∙◌, none, some, List, [], ◌∷◌, All, inl, inr, Option-cases,
}
use java_study_project.Text.{Text, codes}
use java_study_project.Prettify.Lexer.{Lexer, Handlers, registered, lang_handler_for_extension}
use java_study_project.Prettify.Lexer.Sound.{AllHandlers}
use java_study_project.Prettify.Lexer.Fuel.{IsGraded}
use java_study_project.Prettify.Simple.{Engine}
use java_study_project.Prettify.Languages.{registrations, registry}
use java_study_project.Prettify.Markup.{make, Registration}
use java_study_project.Prettify.Languages.Registered.{registry_total}
use java_study_project.Prettify.Languages.Graded.{IsBottom, made-IsGraded}
use java_study_project.Prettify.Languages.Lawful.{handler_rank, patterns_of, IsEnclosing, IsLawful}
use java_study_project.Prettify.Languages.Ranks.{
  rank_at, in_tag_rank, regex_rank, MakesGood, then_register-AllHandlers,
}

module _ (engine : Engine) where
  rank_at-IsBottom :
      (ext : Text) (hs : Handlers) → rank_at ext (some hs) ≡ some 0 → IsBottom engine ext hs
  unfolding rank_at
  rank_at-IsBottom ext hs low = elim (Option-cases (registered ext hs)) [
    | inl e ↦ let n : rank_at ext none ≡ some 0 = rw e at low in cc
    | inr (h, e) ↦ let same : some (handler_rank h) ≡ some 0 = rw e at low in (h, e, cc)
  ]

  abbrev Cuts : Registration → Type 0
  Cuts r =
      (lexer : Lexer)
      → make engine r.maker ≡ some lexer
      → (source : Text) → flatten (lexer.tokenize source) ≡ source

  module _ (lawful : IsLawful engine) (hs : Handlers) (loaded : registry engine ≡ some hs) where
    -- Whatever the extension and the source, the registry has a handler.
    pub loaded_total : (ext source : Text) → lang_handler_for_extension hs ext source ≢ none
    loaded_total =
        let (made, done, named, total) = registry_total engine in
        let same : some made ≡ some hs = sym done ∙ loaded in
        let eq : made ≡ hs = cc in
        subst (λ x. (ext source : Text) → lang_handler_for_extension x ext source ≢ none) eq total

    lawful-MakesGood :
        (rs : List Registration)
        → All (λ (r : Registration). All (IsEnclosing engine) (patterns_of r.maker)) rs
        → All Cuts rs
        → All (MakesGood (IsGraded hs handler_rank 1) engine) rs
    lawful-MakesGood [] shorter cuts = tt
    lawful-MakesGood (r ∷ rs) shorter cuts = (
      λ lexer e.
          made-IsGraded engine hs
            (rank_at-IsBottom (codes "in.tag") hs
              (sym (ap (rank_at (codes "in.tag")) loaded) ∙ in_tag_rank engine))
            (rank_at-IsBottom (codes "regex") hs
              (sym (ap (rank_at (codes "regex")) loaded) ∙ regex_rank engine))
            loaded_total r.maker lexer e lawful.inside shorter.0 (cuts.0 lexer e),
      lawful-MakesGood rs shorter.1 cuts.1,
    )

    -- Every handler of the script is graded: what it hands on is shorter, or goes to a lower handler.
    pub loaded-IsGraded : AllHandlers (IsGraded hs handler_rank 1) hs
    unfolding registry
    loaded-IsGraded =
        then_register-AllHandlers (IsGraded hs handler_rank 1) engine registrations [] hs
          (lawful-MakesGood registrations lawful.shorter lawful.cuts) tt loaded
