-- ===== src/Prettify/Apply/PlainText.antt =====
-- `prettyPrintOne` of a text without tags, from its escaped form to what is seen of the answer.
use mathlib.Core.Path.{subst₂}
use java_study_project.Base.{ℕ, ◌+◌, ◌*◌, ◌<◌, ◌≡◌, Bool, true, none, some, List, [], length, map}
use java_study_project.Text.{Text, codes, index_of, replace_char, Lacks}
use java_study_project.Prettify.Html.{text_to_html}
use java_study_project.Prettify.Tabs.{tab_expander}
use java_study_project.Prettify.Recombine.{Mark, recombined, render_all}
use java_study_project.Prettify.Recombine.Reading.{painted, read}
use java_study_project.Prettify.Recombine.Displayed.{line_end}
use java_study_project.Prettify.Recombine.Seen.{seen}
use java_study_project.Prettify.Recombine.Screen.{recombined-seen}
use java_study_project.Prettify.Lexer.{Lexer, Handlers, decorate, lang_handler_for_extension}
use java_study_project.Prettify.Lexer.Order.{IsOrdered}
use java_study_project.Prettify.Simple.{Engine}
use java_study_project.Prettify.Languages.{registry}
use java_study_project.Prettify.Languages.Lawful.{IsLawful}
use java_study_project.Prettify.Tags.Run.{text_to_html-Lacks, chunks-IsSectionFree, found_again}
use java_study_project.Prettify.Apply.{apply_decorator, pretty_print_one}
use java_study_project.Prettify.Apply.Script.{apply_decorator-registry}

-- What is known of an answer for a text and tags.
abbrev Answer :
    Handlers → ℕ → Bool → ℕ → Text → Text → Lexer → Text → List Mark → List Mark → Type 0
Answer hs fuel is_ie6 tab_width html ext lx source tags ds =
    let ps = (recombined is_ie6 tab_width source tags ds).html in
    (lang_handler_for_extension hs ext source ≡ some lx)
    × (decorate hs fuel lx source 0 ≡ some ds)
    × IsOrdered 0 (length source) ds
    × (apply_decorator hs fuel is_ie6 tab_width html ext ≡ render_all ps)
    × (read ps ≡ record {
      well_nested = true;
      style = [];
      shown = painted [] ds 0 source;
      tags = map (λ m. m.text) tags;
    })

-- Where a text that stands escaped in the page is given to the script, the answer shows it with its tabs
-- expanded, in spans that nest and are closed, each character in the style of the decoration that holds
-- there, of those that the handler found for the extension makes of the text. The browser's expressions
-- keep the laws, the text has no carriage return and no `&nbsp;` spelled out, and the fuel is above
-- twice its length, and one. In IE 6 a blank stands before each line end.
pub pretty_print_one-seen :
    (engine : Engine)
    → IsLawful engine
    → (hs : Handlers) → registry engine ≡ some hs
    → (fuel : ℕ) (is_ie6 : Bool) (tab_width : ℕ) (s ext : Text) → Lacks 0xd s
    → index_of (codes "&nbsp;") s ≡ none
    → length s * 2 + 1 < fuel
    → (lx : Lexer) × (decorations : List Mark) × (lang_handler_for_extension hs ext s ≡ some lx)
      × (decorate hs fuel lx s 0 ≡ some decorations)
      × IsOrdered 0 (length s) decorations
      × let ps = (recombined is_ie6 tab_width s [] decorations).html in
        (pretty_print_one hs fuel is_ie6 tab_width (text_to_html s) ext ≡ render_all ps)
        × (seen ps ≡ replace_char 0xa (line_end is_ie6) (tab_expander tab_width 0 s).0)
        × (read ps ≡ record {
          well_nested = true;
          style = [];
          shown = painted [] decorations 0 s;
          tags = [];
        })
pretty_print_one-seen engine lawful hs loaded fuel is_ie6 tab_width s ext free spelled enough =
    let (e, lx, ds, extracted, h, made, t, o, a, r) =
      apply_decorator-registry engine lawful hs loaded fuel is_ie6 tab_width (text_to_html s) ext
        (chunks-IsSectionFree (text_to_html s) (text_to_html-Lacks s))
        (λ e x. rw ((found_again s e spelled x).0) enough) in
    let (text, tags) = found_again s e spelled extracted in
    let (handler, done, ordered, out, shown) =
      subst₂ (λ t ts. Answer hs fuel is_ie6 tab_width (text_to_html s) ext lx t ts ds) text tags
        (h, made, o, a, r) in
    (
      lx,
      ds,
      handler,
      done,
      ordered,
      (unfold pretty_print_one in out, recombined-seen is_ie6 tab_width s [] ds free, shown),
    )
