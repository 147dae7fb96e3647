-- ===== src/Prettify/Recombine/Reading.antt =====
-- Reading the pieces from left to right: whether spans and tags nest, which style every character of
-- the source has, and which tags there are.
use mathlib.Core.List.{foldl, foldl-append}
use java_study_project.Base.{
  ℕ, ◌-◌, max, Bool, true, not, ◌&&◌, ◌≡◌, refl, List, [], ◌∷◌, ◌++◌, take, drop,
}
use java_study_project.Text.{Text}
use java_study_project.Prettify.Recombine.{Piece, open_span, close_span, tag, chunk, Mark, truthy}

-- A character of the source with the style in which it is shown, empty for none.
abbrev pub Painted : Type 0
Painted = List (ℕ × Text)

unfoldable pub paint : Text → Text → Painted
paint style [] = []
paint style (c ∷ s) = (c, style) ∷ paint style s

pub record Reading : Type 0 where
  pub well_nested : Bool
  pub style : Text
  pub shown : Painted
  pub tags : List Text

-- A span opens and a tag stands only where no span is open; a span closes only where one is.
abbrev pub read_piece : Reading → Piece → Reading
read_piece r (open_span style) = record r {
  well_nested = r.well_nested && (not (truthy r.style) && truthy style);
  style = style;
}
read_piece r close_span = record r { well_nested = r.well_nested && truthy r.style; style = [] }
read_piece r (tag t) = record r {
  well_nested = r.well_nested && not (truthy r.style);
  tags = r.tags ++ t ∷ [];
}
read_piece r (chunk source html) = record r { shown = r.shown ++ paint r.style source }

abbrev pub unread : Reading
unread = record { well_nested = true; style = []; shown = []; tags = [] }

unfoldable pub read : List Piece → Reading
read = foldl read_piece unread

pub read-push : (ps : List Piece) (p : Piece) → read (ps ++ p ∷ []) ≡ read_piece (read ps) p
unfolding read
read-push ps p = foldl-append read_piece unread ps (p ∷ [])

-- The reference: a decoration holds from its position, or from the place that was reached if that is
-- behind it, up to where the next one does. `i` is the index at which `s` starts.
unfoldable pub painted : Text → List Mark → ℕ → Text → Painted
unfolding paint
painted style [] i s = paint style s
painted style (d ∷ ds) i s =
    paint style (take (d.at - i) s) ++ painted d.text ds (max i d.at) (drop (d.at - i) s)

pub paint-append : (style s t : Text) → paint style (s ++ t) ≡ paint style s ++ paint style t
unfolding paint
paint-append style [] t = refl
paint-append style (c ∷ s) t = rw (paint-append style s t)

-- The characters without their styles.
unfoldable pub plain : Painted → Text
plain [] = []
plain (c ∷ cs) = c.0 ∷ plain cs
