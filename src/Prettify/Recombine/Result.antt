-- ===== src/Prettify/Recombine/Result.antt =====
-- What the whole function promises of its output.
use java_study_project.Base.{
  ℕ, ◌-◌, Bool, true, ◌≡◌, refl, ap, ◌∙◌, arith, List, [], ◌∷◌, ◌++◌, map, length, take, drop, max,
  take-append-drop, take-length, length-drop,
}
use java_study_project.Text.{Text}
use java_study_project.Prettify.Recombine.{Mark, start, emit_text_up_to, weave, recombined}
use java_study_project.Prettify.Recombine.Reading.{Painted, paint, painted, plain, read}
use java_study_project.Prettify.Recombine.Emit.{IsRead, close_open-IsRead, emit-IsRead}
use java_study_project.Prettify.Recombine.Weaving.{weave-IsWoven, close_open_closed}

start-IsRead : IsRead start [] []
start-IsRead = record { reads = unfold read in refl }

-- For all tags and decorations, in whatever order: spans and tags nest and every span is closed, the
-- text is shown once and in order, each character in the style of the decoration that holds there, and
-- the tags are those that were given, in their order.
pub recombined-read :
    (is_ie6 : Bool) (tab_width : ℕ) (source : Text) (tags decorations : List Mark)
    → read (recombined is_ie6 tab_width source tags decorations).html ≡ record {
      well_nested = true;
      style = [];
      shown = painted [] decorations 0 source;
      tags = map (λ m. m.text) tags;
    }
unfolding recombined
recombined-read is_ie6 tab_width source tags decorations =
    let v = weave is_ie6 tab_width source tags decorations start in
    let woven = weave-IsWoven is_ie6 tab_width source tags decorations start [] [] start-IsRead in
    let w = emit_text_up_to is_ie6 tab_width source (length source) v in
    let emitted = emit-IsRead is_ie6 tab_width source (length source) v woven.done _ woven.reads in
    let closed = close_open-IsRead w _ _ emitted in
    let fits =
      take-length (length source - v.output_idx) (drop v.output_idx source)
        (omega (arith, length-drop v.output_idx source)) in
    closed.reads ∙ rw ((close_open_closed w).0, fits, woven.rest)

pub plain-append : (cs ds : Painted) → plain (cs ++ ds) ≡ plain cs ++ plain ds
unfolding plain
plain-append [] ds = refl
plain-append (c ∷ cs) ds = ap (◌∷◌ c.0) (plain-append cs ds)

pub plain-paint : (style s : Text) → plain (paint style s) ≡ s
unfolding plain paint
plain-paint style [] = refl
plain-paint style (c ∷ s) = ap (◌∷◌ c) (plain-paint style s)

-- Nothing but styles is added to the text.
plain-painted :
    (style : Text) (ds : List Mark) (i : ℕ) (s : Text) → plain (painted style ds i s) ≡ s
unfolding painted
plain-painted style [] i s = plain-paint style s
plain-painted style (d ∷ ds) i s = rw (
  plain-append,
  plain-paint style (take (d.at - i) s),
  plain-painted d.text ds (max i d.at) (drop (d.at - i) s),
  take-append-drop,
)

-- The chunks of the output, put together, are the source text: nothing is lost, repeated or moved,
-- whatever the positions in the two lists are.
pub recombined-plain :
    (is_ie6 : Bool) (tab_width : ℕ) (source : Text) (tags decorations : List Mark)
    → plain (read (recombined is_ie6 tab_width source tags decorations).html).shown ≡ source
recombined-plain is_ie6 tab_width source tags decorations =
    rw (recombined-read is_ie6 tab_width source tags decorations)
      (plain-painted [] decorations 0 source)
