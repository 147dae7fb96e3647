-- ===== src/Prettify/Apply/Script.antt =====
-- `applyDecorator` with the handlers that the script registers.
use mathlib.Core.List.{flatten}
use java_study_project.Base.{All, ℕ, ◌+◌, ◌*◌, ◌<◌, ◌≡◌, Bool, true, some, List, [], map, length}
use java_study_project.Text.{Text}
use java_study_project.Prettify.Recombine.{Mark, recombined, render_all}
use java_study_project.Prettify.Recombine.Reading.{painted, read}
use java_study_project.Prettify.Lexer.{Lexer, Handlers, decorate, lang_handler_for_extension}
use java_study_project.Prettify.Lexer.Order.{IsOrdered}
use java_study_project.Prettify.Simple.{Engine}
use java_study_project.Prettify.Languages.{registry}
use java_study_project.Prettify.Languages.Lawful.{handler_rank, IsLawful}
use java_study_project.Prettify.Languages.Loaded.{loaded_total, loaded-IsGraded}
use java_study_project.Prettify.Tags.{Extracted, chunks, extract_tags}
use java_study_project.Prettify.Tags.Positions.{IsSectionFree}
use java_study_project.Prettify.Apply.{apply_decorator}
use java_study_project.Prettify.Apply.Total.{apply_decorator_total}

-- With the handlers that the script registers the html is replaced by that of the text and the tags
-- that were found in it, both inside the text in the order of their positions, and of the decorations
-- that the handler found for the extension makes of the text: spans and tags nest, the text is shown as
-- it was, each character in the style of the decoration that holds there, and the tags are kept in their
-- order. The browser's expressions keep the laws, no CDATA section of the html passes for a tag of the
-- class nocode, and the fuel is above twice the length of the text found, and one.
pub apply_decorator-registry :
    (engine : Engine)
    → IsLawful engine
    → (hs : Handlers) → registry engine ≡ some hs
    → (fuel : ℕ) (is_ie6 : Bool) (tab_width : ℕ) (html ext : Text)
    → All IsSectionFree (chunks html 0)
    → ((e : Extracted) → extract_tags html ≡ some e → length (flatten e.source_buf) * 2 + 1 < fuel)
    → (e : Extracted) × (lx : Lexer) × (decorations : List Mark) × (extract_tags html ≡ some e)
      × (lang_handler_for_extension hs ext (flatten e.source_buf) ≡ some lx)
      × (decorate hs fuel lx (flatten e.source_buf) 0 ≡ some decorations)
      × IsOrdered 0 (length (flatten e.source_buf)) e.extracted_tags
      × IsOrdered 0 (length (flatten e.source_buf)) decorations
      × (apply_decorator hs fuel is_ie6 tab_width html ext
          ≡ render_all
              (recombined is_ie6 tab_width
                (flatten e.source_buf)
                e.extracted_tags
                decorations).html)
      × (read (recombined is_ie6 tab_width (flatten e.source_buf) e.extracted_tags decorations).html
          ≡ record {
            well_nested = true;
            style = [];
            shown = painted [] decorations 0 (flatten e.source_buf);
            tags = map (λ m. m.text) e.extracted_tags;
          })
apply_decorator-registry engine lawful hs loaded fuel is_ie6 tab_width html ext sections enough =
    apply_decorator_total hs handler_rank 1 (loaded-IsGraded engine lawful hs loaded) fuel is_ie6
      tab_width html ext sections (loaded_total engine lawful hs loaded ext) enough
