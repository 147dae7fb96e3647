-- ===== src/Prettify/Apply.antt =====
-- `applyDecorator` and `prettyPrintOne`: the tags are taken out, the text is styled, and both are woven
-- together. An exception, of which one is that the stack is exhausted, leaves the html as it was.
pub mod Script
pub mod Total
pub mod PlainText
use mathlib.Core.List.{flatten}
use java_study_project.Base.{ℕ, Bool, Option, none, some, List}
use java_study_project.Text.{Text}
use java_study_project.Prettify.Recombine.{Mark, recombine}
use java_study_project.Prettify.Lexer.{Lexer, Handlers, decorate, lang_handler_for_extension}
use java_study_project.Prettify.Tags.{Extracted, extract_tags}

module _ (hs : Handlers) (fuel : ℕ) (is_ie6 : Bool) (tab_width : ℕ) where
  -- `langHandlerForExtension(...)(job)`: an extension without a handler is called, which throws.
  abbrev pub run_handler : Option Lexer → Text → Option (List Mark)
  run_handler none source = none
  run_handler (some lx) source = decorate hs fuel lx source 0

  abbrev pub with_decorations : Text → Text → List Mark → Option (List Mark) → Text
  with_decorations html source tags none = html
  with_decorations html source tags (some decorations) =
      recombine is_ie6 tab_width source tags decorations

  abbrev pub with_source : Text → Text → Option Extracted → Text
  with_source html ext none = html
  with_source html ext (some e) = with_decorations html (flatten e.source_buf) e.extracted_tags (
      run_handler (lang_handler_for_extension hs ext (flatten e.source_buf)) (flatten e.source_buf))

  -- `job.prettyPrintedHtml` for `job.sourceCodeHtml` and `job.langExtension`; no extension is the empty text.
  unfoldable pub apply_decorator : Text → Text → Text
  unfolding extract_tags lang_handler_for_extension decorate recombine flatten
  apply_decorator html ext = with_source html ext (extract_tags html)

  unfoldable pub pretty_print_one : Text → Text → Text
  unfolding apply_decorator
  pretty_print_one source_code_html opt_lang_extension =
      apply_decorator source_code_html opt_lang_extension
