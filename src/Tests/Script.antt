-- ===== src/Tests/Script.antt =====
-- A page of html coloured with the registered handlers, `webapps/admin/js/prettify.js`.
use mathlib.Core.List.{flatten}
use mathlib.Core.Path.{subst}
use java_study_project.Base.{
  false, refl, ◌+◌, ◌*◌, ◌<◌, ◌≡◌, ◌≢◌, ap, sym, ◌∙◌, arith, Option, Option-cases, true, none, some,
  List, [], ◌∷◌, ◌++◌, append-nil, map, length, All, inl, inr,
}
use java_study_project.Text.{replace_char, Lacks, Text, codes, index_of}
use java_study_project.Prettify.Combine.{combine_prefix_patterns}
use java_study_project.Prettify.Recombine.{Mark, recombined, render_all}
use java_study_project.Prettify.Recombine.Reading.{painted, read}
use java_study_project.Prettify.Lexer.{Match, Lexer, Handlers, decorate, lang_handler_for_extension}
use java_study_project.Prettify.Lexer.Order.{IsOrdered}
use java_study_project.Prettify.Simple.{
  StylePattern, Engine, unique_regexs, any_character, lexer_with, create_simple_lexer,
}
use java_study_project.Prettify.Sources.{
  decorator_with, source_decorator, source_shortcuts, source_patterns, common_patterns,
}
use java_study_project.Prettify.Languages.{registrations, registry}
use java_study_project.Prettify.Markup.{Maker, decorator, simple, make, Registration}
use java_study_project.Prettify.Languages.Registered.{registry_total}
use java_study_project.Prettify.Languages.Lawful.{patterns_of, IsEnclosing, IsLawful}
use java_study_project.Prettify.Tags.{Extracted, extract_tags}
use java_study_project.Prettify.Apply.{apply_decorator, pretty_print_one}
use java_study_project.Prettify.Apply.PlainText.{pretty_print_one-seen}
use java_study_project.Prettify.Recombine.Seen.{seen}
use java_study_project.Prettify.Html.{text_to_html}
use java_study_project.Prettify.Tabs.{tab_expander}
use java_study_project.Prettify.Apply.Script.{apply_decorator-registry}
use java_study_project.Tests.Apply.{html, html_sections, extracted_tags_of, extracted}

abbrev before : Text → Option Match
before [] = none
before (c ∷ s) = some (record { group = [] })

-- A browser whose expressions match the empty text before any other, and whose tokenizers cut nothing.
abbrev engine : Engine
engine = record { exec = λ r s. before s; match_all = λ r s. s ∷ [] }

every : {A : Type 0} (P : A → Type 0) → ((x : A) → P x) → (xs : List A) → All P xs
every P h [] = tt
every P h (x ∷ xs) = (h x, every P h xs)

before-inside : (token : Text) (m : Match) → before token ≡ some m → index_of m.group token ≢ none
before-inside [] m e = cc
before-inside (c ∷ s) m e = let same : record { group = [] } ≡ m = cc in rw (← same) (λ n. cc)

before-shorter : (token : Text) (m : Match) → before token ≡ some m → length m.group < length token
before-shorter [] m e = cc
before-shorter (c ∷ s) m e = let same : record { group = [] } ≡ m = cc in rw (← same) (omega arith)

created-whole :
    (shortcuts : List StylePattern) (first : StylePattern) (others : List StylePattern)
    (lexer : Lexer)
    → create_simple_lexer engine shortcuts first others ≡ some lexer
    → (source : Text) → flatten (lexer.tokenize source) ≡ source
unfolding create_simple_lexer flatten
created-whole shortcuts first others lexer e source =
    elim (Option-cases (
      combine_prefix_patterns
        (unique_regexs [] (shortcuts ++ first ∷ others) ++ any_character ∷ []))) [
          | inl h ↦ let n : none ≡ some lexer = rw h at e in cc
          | inr (r, h) ↦
              let same : some (lexer_with engine shortcuts first others r) ≡ some lexer =
                rw h at e in
              let eq : lexer_with engine shortcuts first others r ≡ lexer = cc in
              ap (λ (x : Lexer). flatten (x.tokenize source)) (sym eq) ∙ append-nil source
        ]

decorator-whole :
    (shortcuts ps : List StylePattern) (lexer : Lexer)
    → decorator_with engine shortcuts ps ≡ some lexer
    → (source : Text) → flatten (lexer.tokenize source) ≡ source
decorator-whole shortcuts [] lexer e = cc
decorator-whole shortcuts (p ∷ ps) lexer e = created-whole shortcuts p ps lexer e

made-whole :
    (m : Maker) (lexer : Lexer)
    → make engine m ≡ some lexer
    → (source : Text) → flatten (lexer.tokenize source) ≡ source
unfolding source_decorator
made-whole (decorator o) lexer e =
    decorator-whole (source_shortcuts o) (source_patterns o ++ common_patterns) lexer e
made-whole (simple shortcuts first others) lexer e = created-whole shortcuts first others lexer e

engine-IsLawful : IsLawful engine
engine-IsLawful = record {
  inside = λ r token m e. before-inside token m e;
  shorter =
      every (λ r. All (IsEnclosing engine) (patterns_of r.maker))
        (λ r.
          every (IsEnclosing engine) (λ p lang other token m e. before-shorter token m e)
            (patterns_of r.maker))
        registrations;
  cuts =
      every
        (λ (r : Registration).
          (lexer : Lexer)
          → make engine r.maker ≡ some lexer
          → (source : Text) → flatten (lexer.tokenize source) ≡ source)
        (λ r lexer e source. made-whole r.maker lexer e source) registrations;
}

abbrev handlers_of : Option Handlers → Handlers
handlers_of none = []
handlers_of (some hs) = hs

abbrev script_handlers : Handlers
script_handlers = handlers_of (registry engine)

loaded : registry engine ≡ some script_handlers
loaded =
    let (hs, done, named, found) = registry_total engine in
    done ∙ ap (λ x. some (handlers_of x)) (sym done)

enough : (e : Extracted) → extract_tags html ≡ some e → length (flatten e.source_buf) * 2 + 1 < 10
unfolding flatten
enough e h =
    let found : some extracted ≡ some e = rw extracted_tags_of at h in
    let same : extracted ≡ e = cc in
    subst (λ x. length (flatten x.source_buf) * 2 + 1 < 10) same (omega arith)

apply_decorator-registry_example :
    (e : Extracted) × (lx : Lexer) × (decorations : List Mark) × (extract_tags html ≡ some e)
    × (lang_handler_for_extension script_handlers (codes "java") (flatten e.source_buf) ≡ some lx)
    × (decorate script_handlers 10 lx (flatten e.source_buf) 0 ≡ some decorations)
    × IsOrdered 0 (length (flatten e.source_buf)) e.extracted_tags
    × IsOrdered 0 (length (flatten e.source_buf)) decorations
    × (apply_decorator script_handlers 10 true 8 html (codes "java")
        ≡ render_all (recombined true 8 (flatten e.source_buf) e.extracted_tags decorations).html)
    × (read (recombined true 8 (flatten e.source_buf) e.extracted_tags decorations).html ≡ record {
      well_nested = true;
      style = [];
      shown = painted [] decorations 0 (flatten e.source_buf);
      tags = map (λ m. m.text) e.extracted_tags;
    })
apply_decorator-registry_example =
    apply_decorator-registry engine engine-IsLawful script_handlers loaded 10 true 8 html
      (codes "java") html_sections enough

abbrev listing : Text
listing = codes "if (a < b) {\n\tc  = d;\n}"

no_return : Lacks 0xd listing
no_return = ground arith

pretty_print_one-seen_example :
    (lx : Lexer) × (decorations : List Mark) × (lang_handler_for_extension script_handlers []
        listing
      ≡ some lx)
    × (decorate script_handlers 60 lx listing 0 ≡ some decorations)
    × IsOrdered 0 (length listing) decorations
    × let ps = (recombined false 4 listing [] decorations).html in
      (pretty_print_one script_handlers 60 false 4 (text_to_html listing) [] ≡ render_all ps)
      × (seen ps ≡ codes "if (a < b) {\n    c  = d;\n}")
      × (read ps ≡ record {
        well_nested = true;
        style = [];
        shown = painted [] decorations 0 listing;
        tags = [];
      })
unfolding replace_char tab_expander flatten
pretty_print_one-seen_example =
    pretty_print_one-seen engine engine-IsLawful script_handlers loaded 60 false 4 listing []
      no_return refl (omega arith)
