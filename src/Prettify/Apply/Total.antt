-- ===== src/Prettify/Apply/Total.antt =====
-- `applyDecorator` as a whole: what it answers, and that it answers.
use mathlib.Core.Path.{subst}
use mathlib.Core.List.{flatten}
use java_study_project.Base.{
  All, ℕ, ◌+◌, ◌*◌, ◌<◌, ◌≡◌, ◌≢◌, arith, Bool, true, none, some, List, [], map, length, inl, inr,
  Option-cases,
}
use java_study_project.Text.{Text}
use java_study_project.Prettify.Recombine.{Mark, recombine, recombined, render_all}
use java_study_project.Prettify.Recombine.Reading.{painted, read}
use java_study_project.Prettify.Recombine.Result.{recombined-read}
use java_study_project.Prettify.Lexer.{Lexer, Handlers, decorate, lang_handler_for_extension}
use java_study_project.Prettify.Lexer.Sound.{AllHandlers, lang_handler-AllHandlers}
use java_study_project.Prettify.Lexer.Order.{IsOrdered}
use java_study_project.Prettify.Lexer.Fuel.{IsGraded, decorate_total}
use java_study_project.Prettify.Tags.{Extracted, chunks, extract_tags}
use java_study_project.Prettify.Tags.Positions.{IsSectionFree, extract_tags_total}
use java_study_project.Prettify.Apply.{apply_decorator}

zero_add : (n : ℕ) → 0 + n ≡ n
zero_add n = omega arith

module _ (hs : Handlers) (rank : Lexer → ℕ) (top : ℕ)
    (all : AllHandlers (IsGraded hs rank top) hs) where
  -- The html is replaced by that of the text and tags that were found in it, in the decorations that the
  -- handler of the extension makes of the text. The handlers are graded, the
  -- extension and the source have one, no CDATA section of the html passes for a tag of the class nocode,
  -- and the fuel is above the length of the text found weighted by the ranks.
  pub apply_decorator_total :
      (fuel : ℕ) (is_ie6 : Bool) (tab_width : ℕ) (html ext : Text)
      → All IsSectionFree (chunks html 0)
      → ((source : Text) → lang_handler_for_extension hs ext source ≢ none)
      → ((e : Extracted)
          → extract_tags html ≡ some e
          → length (flatten e.source_buf) * (top + 1) + top < fuel)
      → (e : Extracted) × (lx : Lexer) × (decorations : List Mark) × (extract_tags html ≡ some e)
        × (lang_handler_for_extension hs ext (flatten e.source_buf) ≡ some lx)
        × (decorate hs fuel lx (flatten e.source_buf) 0 ≡ some decorations)
        × IsOrdered 0 (length (flatten e.source_buf)) e.extracted_tags
        × IsOrdered 0 (length (flatten e.source_buf)) decorations
        × (apply_decorator hs fuel is_ie6 tab_width html ext
            ≡ render_all
                (recombined is_ie6 tab_width
                  (flatten e.source_buf)
                  e.extracted_tags
                  decorations).html)
        × (read
              (recombined is_ie6 tab_width (flatten e.source_buf) e.extracted_tags decorations).html
            ≡ record {
              well_nested = true;
              style = [];
              shown = painted [] decorations 0 (flatten e.source_buf);
              tags = map (λ m. m.text) e.extracted_tags;
            })
  unfolding apply_decorator recombine
  apply_decorator_total fuel is_ie6 tab_width html ext sections found enough =
      let (e, extracted, counted, ordered) = extract_tags_total html sections in
      let source = flatten e.source_buf in
      elim (Option-cases (lang_handler_for_extension hs ext source)) [
        | inl h ↦ absurd (found source h)
        | inr (lx, h) ↦
            let graded : IsGraded hs rank top lx =
              lang_handler-AllHandlers (IsGraded hs rank top) hs ext source lx all h in
            let (decorations, done, inside) =
              decorate_total hs rank top all fuel lx source 0 graded
                (omega (arith, enough e extracted, graded.within)) in
            (
              e,
              lx,
              decorations,
              extracted,
              h,
              done,
              ordered,
              subst (λ n. IsOrdered 0 n decorations) (zero_add (length source)) inside,
              rw (extracted, h, done),
              recombined-read is_ie6 tab_width source e.extracted_tags decorations,
            )
      ]
