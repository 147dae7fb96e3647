-- ===== src/Prettify/Recombine/TagText.antt =====
-- The tags of the pieces, each with what is seen in front of it.

use java_study_project.Base.{
  ◌≡◌, refl, sym, ap, ◌∙◌, not, ◌&&◌, List, [], ◌∷◌, ◌++◌, append-nil, append_assoc, take, inl, inr,
  Bool-cases,
}
use java_study_project.Text.{Text, eq_text}
use java_study_project.Prettify.Recombine.{
  Piece, open_span, close_span, tag, chunk, Weaver, truthy, close_stale, open_current, close_open,
}
use java_study_project.Prettify.Recombine.Seen.{seen_piece, seen, sources, Silent}

-- A tag with the text that is seen in front of it.
abbrev tag_behind : Text → Piece → List (Text × Text)
tag_behind before (open_span style) = []
tag_behind before close_span = []
tag_behind before (tag t) = (before, t) ∷ []
tag_behind before (chunk source html) = []

unfoldable pub tags_behind : Text → List Piece → List (Text × Text)
tags_behind before [] = []
tags_behind before (p ∷ ps) = tag_behind before p ++ tags_behind (before ++ seen_piece p) ps

abbrev pub tags_seen : List Piece → List (Text × Text)
tags_seen ps = tags_behind [] ps

pub tags_behind-push :
    (before : Text) (ps : List Piece) (p : Piece)
    → tags_behind before (ps ++ p ∷ []) ≡ tags_behind before ps ++ tag_behind (before ++ seen ps) p
unfolding tags_behind seen
tags_behind-push before [] p = append-nil _ ∙ ap (λ b. tag_behind b p) (sym (append-nil before))
tags_behind-push before (q ∷ ps) p =
    rw
      (tags_behind-push (before ++ seen_piece q) ps p, append_assoc before (seen_piece q) (seen ps))
      (sym (append_assoc (tag_behind before q) (tags_behind (before ++ seen_piece q) ps) _))

-- No tag was put back, and no text.
pub record Still (v w : Weaver) : Type 0 where
  pub tags_same : tags_seen w.html ≡ tags_seen v.html
  pub index_same : w.output_idx ≡ v.output_idx

Still-refl : (v : Weaver) → Still v v
Still-refl v = record { tags_same = refl; index_same = refl }

pushed-Still :
    (v w : Weaver) (p : Piece)
    → w.html ≡ v.html ++ p ∷ []
    → w.output_idx ≡ v.output_idx
    → ((before : Text) → tag_behind before p ≡ [])
    → Still v w
pushed-Still v w p html index none_put = record {
  tags_same = ap tags_seen html ∙ tags_behind-push [] v.html p ∙ rw (none_put, append-nil);
  index_same = index;
}

pub close_open-Still : (v : Weaver) → Still v (close_open v)
unfolding close_open
close_open-Still v = elim (Bool-cases (truthy v.open_decoration)) [
  | inl e ↦ rw e (pushed-Still v _ close_span refl refl (λ b. refl))
  | inr e ↦ rw e (Still-refl v)
]

pub close_stale-Still : (v : Weaver) → Still v (close_stale v)
unfolding close_stale
close_stale-Still v =
    elim (Bool-cases
      (truthy v.open_decoration && not (eq_text v.open_decoration v.current_decoration))) [
        | inl e ↦ rw e (pushed-Still v _ close_span refl refl (λ b. refl))
        | inr e ↦ rw e (Still-refl v)
      ]

pub open_current-Still : (v : Weaver) → Still v (open_current v)
unfolding open_current
open_current-Still v =
    elim (Bool-cases (not (truthy v.open_decoration) && truthy v.current_decoration)) [
      | inl e ↦ rw e (pushed-Still v _ (open_span v.current_decoration) refl refl (λ b. refl))
      | inr e ↦ rw e (Still-refl v)
    ]

-- The tags put back so far, and the text up to the output index.
pub record IsPut (source : Text) (v : Weaver) (done : List (Text × Text)) : Type 0 where
  pub text : sources v.html ≡ take v.output_idx source
  pub tags : tags_seen v.html ≡ done

pub Still-IsPut :
    (source : Text) (v w : Weaver) (done : List (Text × Text))
    → Silent v w
    → Still v w
    → IsPut source v done
    → IsPut source w done
Still-IsPut source v w done s t p = record {
  text = s.sources_same ∙ p.text ∙ ap (λ n. take n source) (sym t.index_same);
  tags = t.tags_same ∙ p.tags;
}
