-- ===== src/Prettify/Recombine/Seen.antt =====
-- What is seen of the pieces, the source text that they were made from, and the operations that push
-- nothing to be seen.
use mathlib.Core.List.{foldl}
use java_study_project.Base.{
  ◌++◌, not, ◌&&◌, ◌≡◌, refl, sym, ap, ◌∙◌, List, [], ◌∷◌, append-nil, append_assoc, inl, inr,
  Bool-cases,
}
use java_study_project.Text.{Text, eq_text}
use java_study_project.Prettify.Recombine.{
  Piece, open_span, close_span, tag, chunk, Weaver, truthy, close_stale, open_current, close_open,
}
use java_study_project.Prettify.Recombine.Reading.{Reading, read_piece, unread, read, plain}
use java_study_project.Prettify.Recombine.Result.{plain-append, plain-paint}
use java_study_project.Prettify.Recombine.Displayed.{displayed}

-- The text that is seen of a piece: tags and spans show nothing.
abbrev pub seen_piece : Piece → Text
seen_piece (open_span style) = []
seen_piece close_span = []
seen_piece (tag t) = []
seen_piece (chunk source html) = displayed html

abbrev pub source_piece : Piece → Text
source_piece (open_span style) = []
source_piece close_span = []
source_piece (tag t) = []
source_piece (chunk source html) = source

unfoldable pub seen : List Piece → Text
seen [] = []
seen (p ∷ ps) = seen_piece p ++ seen ps

unfoldable pub sources : List Piece → Text
sources [] = []
sources (p ∷ ps) = source_piece p ++ sources ps

pub seen-push : (ps : List Piece) (p : Piece) → seen (ps ++ p ∷ []) ≡ seen ps ++ seen_piece p
unfolding seen
seen-push [] p = append-nil (seen_piece p)
seen-push (q ∷ ps) p =
    rw (seen-push ps p) (sym (append_assoc (seen_piece q) (seen ps) (seen_piece p)))

pub sources-push :
    (ps : List Piece) (p : Piece) → sources (ps ++ p ∷ []) ≡ sources ps ++ source_piece p
unfolding sources
sources-push [] p = append-nil (source_piece p)
sources-push (q ∷ ps) p =
    rw (sources-push ps p) (sym (append_assoc (source_piece q) (sources ps) (source_piece p)))

-- Nothing to be seen was pushed.
pub record Silent (v w : Weaver) : Type 0 where
  pub seen_same : seen w.html ≡ seen v.html
  pub sources_same : sources w.html ≡ sources v.html
  pub column_same : w.char_in_line ≡ v.char_in_line

Silent-refl : (v : Weaver) → Silent v v
Silent-refl v = record { seen_same = refl; sources_same = refl; column_same = refl }

Silent-trans : {u v w : Weaver} → Silent u v → Silent v w → Silent u w
Silent-trans a b = record {
  seen_same = b.seen_same ∙ a.seen_same;
  sources_same = b.sources_same ∙ a.sources_same;
  column_same = b.column_same ∙ a.column_same;
}

-- A piece that shows nothing is pushed.
pub pushed-Silent :
    (v w : Weaver) (p : Piece)
    → w.html ≡ v.html ++ p ∷ []
    → w.char_in_line ≡ v.char_in_line
    → seen_piece p ≡ []
    → source_piece p ≡ []
    → Silent v w
pushed-Silent v w p html column a b = record {
  seen_same = ap seen html ∙ seen-push v.html p ∙ rw (a, append-nil);
  sources_same = ap sources html ∙ sources-push v.html p ∙ rw (b, append-nil);
  column_same = column;
}

pub close_open-Silent : (v : Weaver) → Silent v (close_open v)
unfolding close_open
close_open-Silent v = elim (Bool-cases (truthy v.open_decoration)) [
  | inl e ↦ rw e (pushed-Silent v _ close_span refl refl refl refl)
  | inr e ↦ rw e (Silent-refl v)
]

pub close_stale-Silent : (v : Weaver) → Silent v (close_stale v)
unfolding close_stale
close_stale-Silent v =
    elim (Bool-cases
      (truthy v.open_decoration && not (eq_text v.open_decoration v.current_decoration))) [
        | inl e ↦ rw e (pushed-Silent v _ close_span refl refl refl refl)
        | inr e ↦ rw e (Silent-refl v)
      ]

pub open_current-Silent : (v : Weaver) → Silent v (open_current v)
unfolding open_current
open_current-Silent v =
    elim (Bool-cases (not (truthy v.open_decoration) && truthy v.current_decoration)) [
      | inl e ↦ rw e (pushed-Silent v _ (open_span v.current_decoration) refl refl refl refl)
      | inr e ↦ rw e (Silent-refl v)
    ]

plain_fold :
    (r : Reading) (ps : List Piece)
    → plain (foldl read_piece r ps).shown ≡ plain r.shown ++ sources ps
unfolding sources
plain_fold r [] = sym (append-nil (plain r.shown))
plain_fold r (open_span style ∷ ps) = plain_fold (read_piece r (open_span style)) ps
plain_fold r (close_span ∷ ps) = plain_fold (read_piece r close_span) ps
plain_fold r (tag t ∷ ps) = plain_fold (read_piece r (tag t)) ps
plain_fold r (chunk s html ∷ ps) =
    plain_fold (read_piece r (chunk s html)) ps
    ∙ rw (plain-append, plain-paint) (append_assoc (plain r.shown) s (sources ps))

pub sources_lem : (ps : List Piece) → plain (read ps).shown ≡ sources ps
unfolding read plain
sources_lem ps = plain_fold unread ps
