-- ===== src/Prettify/Recombine.antt =====
-- `recombineTagsAndDecorations`: the source text is escaped, cut where the style changes and woven
-- together again with the tags that were taken out of it.
pub mod Chunk
pub mod Reading
pub mod Emit
pub mod Weaving
pub mod Result
pub mod Displayed
pub mod Adjacent
pub mod Blanks
pub mod Seen
pub mod Screen
pub mod TagText
pub mod TagPlaces
use java_study_project.Base.{
  ℕ, ◌+◌, Bool, true, false, not, ◌&&◌, List, [], ◌∷◌, ◌++◌, ltb, leb, if◌then◌else◌, length,
}
use java_study_project.Text.{Text, codes, eq_text, substring}
use java_study_project.Prettify.Html.{text_to_html}
use java_study_project.Prettify.Tabs.{tab_expander}
use Chunk.{adjacent_spaces, start_or_spaces, trailing_space, break_lines}

-- A tag of `extractedTags` or a style of `decorations`, with the position in front of it.
pub record Mark : Type 0 where
  pub at : ℕ
  pub text : Text

-- What one `html.push` adds. A chunk keeps beside its html the source text that it was made from.
pub data Piece : Type 0 where
  open_span : Text → Piece
  close_span : Piece
  tag : Text → Piece
  chunk : Text → Text → Piece

abbrev pub render : Piece → Text
render (open_span style) = codes "<span class=\"" ++ (style ++ codes "\">")
render close_span = codes "</span>"
render (tag t) = t
render (chunk source html) = html

abbrev pub render_all : List Piece → Text
render_all [] = []
render_all (p ∷ ps) = render p ++ render_all ps

-- The variables of the function. `null` is the empty text in the two decorations: both are falsy.
pub record Weaver : Type 0 where
  pub html : List Piece
  pub output_idx : ℕ
  pub open_decoration : Text
  pub current_decoration : Text
  pub last_was_space : Bool
  pub char_in_line : ℕ

abbrev pub truthy : Text → Bool
truthy [] = false
truthy (c ∷ s) = true

abbrev pub push : Piece → Weaver → Weaver
push p v = record v { html = v.html ++ p ∷ [] }

-- Closes the span that is open, if its style is not the current one.
unfoldable pub close_stale : Weaver → Weaver
close_stale v =
    if truthy v.open_decoration && not (eq_text v.open_decoration v.current_decoration)
    then record (push close_span v) { open_decoration = [] }
    else v

-- Opens a span for the current style, if none is open.
unfoldable pub open_current : Weaver → Weaver
open_current v =
    if not (truthy v.open_decoration) && truthy v.current_decoration
    then record (push (open_span v.current_decoration) v) { open_decoration = v.current_decoration }
    else v

-- The html of a slice and whether it ends with a space.
unfoldable pub chunk_html : Bool → Text → Text
unfolding adjacent_spaces start_or_spaces text_to_html
chunk_html last_was_space expanded =
    if last_was_space
    then start_or_spaces true (text_to_html expanded)
    else adjacent_spaces (text_to_html expanded)

abbrev pub line_break : Bool → Text
line_break is_ie6 = if is_ie6 then codes "&nbsp;<br />" else codes "<br />"

unfoldable pub push_chunk : Bool → ℕ → Text → ℕ → Weaver → Weaver
unfolding chunk_html tab_expander trailing_space break_lines
push_chunk is_ie6 tab_width slice source_idx v =
    let (expanded, column) = tab_expander tab_width v.char_in_line slice in
    let html = chunk_html v.last_was_space expanded in
    record (push (chunk slice (break_lines (line_break is_ie6) html)) v) {
      last_was_space = trailing_space html;
      char_in_line = column;
      output_idx = source_idx;
    }

-- `emitTextUpTo(sourceIdx)`.
unfoldable pub emit_text_up_to : Bool → ℕ → Text → ℕ → Weaver → Weaver
emit_text_up_to is_ie6 tab_width source_text source_idx v =
    if ltb v.output_idx source_idx
    then push_chunk is_ie6 tab_width (substring source_text v.output_idx source_idx) source_idx
        (open_current (close_stale v))
    else v

unfoldable pub close_open : Weaver → Weaver
close_open v =
    if truthy v.open_decoration then record (push close_span v) { open_decoration = [] } else v

module _ (is_ie6 : Bool) (tab_width : ℕ) (source_text : Text) where
  -- A tag of the markup is put back.
  unfoldable pub consume_tag : Mark → Weaver → Weaver
  consume_tag m v =
      push (tag m.text) (close_open (emit_text_up_to is_ie6 tab_width source_text m.at v))

  -- From here on the style is another one.
  unfoldable pub consume_decoration : Mark → Weaver → Weaver
  consume_decoration m v = record (emit_text_up_to is_ie6 tab_width source_text m.at v) {
    current_decoration = m.text;
  }

  -- `while (true)`: a tag goes before a decoration at the same position.
  unfoldable pub weave : List Mark → List Mark → Weaver → Weaver
  weave [] [] v = v
  weave [] (d ∷ ds) v = weave [] ds (consume_decoration d v)
  weave (t ∷ ts) [] v = weave ts [] (consume_tag t v)
  weave (t ∷ ts) (d ∷ ds) v =
      let by_tag = weave ts (d ∷ ds) (consume_tag t v) in
      let by_decoration = weave (t ∷ ts) ds (consume_decoration d v) in
      if leb t.at d.at then by_tag else by_decoration

abbrev pub start : Weaver
start = record {
  html = [];
  output_idx = 0;
  open_decoration = [];
  current_decoration = [];
  last_was_space = true;
  char_in_line = 0;
}

unfoldable pub recombined : Bool → ℕ → Text → List Mark → List Mark → Weaver
recombined is_ie6 tab_width source_text tags decorations = close_open (
    emit_text_up_to is_ie6 tab_width source_text (length source_text)
      (weave is_ie6 tab_width source_text tags decorations start))

-- `job.prettyPrintedHtml`.
unfoldable pub recombine : Bool → ℕ → Text → List Mark → List Mark → Text
unfolding recombined weave consume_tag consume_decoration emit_text_up_to close_stale open_current
    push_chunk close_open
recombine is_ie6 tab_width source_text tags decorations =
    render_all (recombined is_ie6 tab_width source_text tags decorations).html
