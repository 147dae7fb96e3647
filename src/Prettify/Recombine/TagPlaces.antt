-- ===== src/Prettify/Recombine/TagPlaces.antt =====
-- Where the tags are put back: what is seen of the text in front of each.
use mathlib.Core.Path.{subst}
use java_study_project.Base.{
  ℕ, ◌≤◌, max, ◌≡◌, refl, sym, ap, ◌∙◌, arith, Bool, true, List, [], ◌∷◌, ◌++◌, map, append-nil,
  append_assoc, take, take-split, length, ltb, ltb→lt, leb, inl, inr, Bool-cases,
}
use java_study_project.Text.{Text, Lacks, substring}
use java_study_project.Prettify.Lexer.Order.{IsOrdered}
use java_study_project.Prettify.Recombine.{
  tag, chunk, Mark, Weaver, close_stale, open_current, push_chunk, emit_text_up_to, close_open,
  consume_tag, consume_decoration, weave, start, recombined,
}
use java_study_project.Prettify.Recombine.Emit.{slice_lem, push_chunk_cursor, emit_cursor}
use java_study_project.Prettify.Recombine.Weaving.{close_open_closed}
use java_study_project.Prettify.Recombine.Seen.{
  seen, sources, sources-push, close_open-Silent, close_stale-Silent, open_current-Silent,
}
use java_study_project.Prettify.Recombine.Screen.{
  screen, IsSeen, push_chunk_lem, start-IsSeen, consume_tag-IsSeen, consume_decoration-IsSeen,
  emit-IsSeen,
}
use java_study_project.Prettify.Recombine.TagText.{
  tags_behind, tags_seen, tags_behind-push, close_open-Still, close_stale-Still, open_current-Still,
  IsPut, Still-IsPut,
}

-- The positions do not fall, and none is below the number.
abbrev AllFrom : ℕ → List Mark → Type 0
AllFrom lo [] = Unit
AllFrom lo (m ∷ ms) = (lo ≤ m.at) × AllFrom m.at ms

ordered-AllFrom : (lo hi : ℕ) (ms : List Mark) → IsOrdered lo hi ms → AllFrom lo ms
ordered-AllFrom lo hi [] o = tt
ordered-AllFrom lo hi (m ∷ ms) o = (o.0, ordered-AllFrom m.at hi ms o.1)

module _ (is_ie6 : Bool) (tab_width : ℕ) (source : Text) where
  push_chunk-IsPut :
      (k : ℕ) (v : Weaver) (done : List (Text × Text))
      → ltb v.output_idx k ≡ true
      → IsPut source v done
      → IsPut source (push_chunk is_ie6 tab_width (substring source v.output_idx k) k v) done
  push_chunk-IsPut k v done h p =
      let slice = substring source v.output_idx k in
      let (html, column) = push_chunk_lem is_ie6 tab_width slice k v in
      let below = ltb→lt v.output_idx k h in
      record {
        text =
            ap sources html
            ∙ sources-push v.html (chunk slice _)
            ∙ rw (p.text, slice_lem source v.output_idx k below)
                (sym (take-split v.output_idx k source (omega (arith, below))))
            ∙ ap (λ n. take n source) (sym (push_chunk_cursor is_ie6 tab_width source slice k v).0);
        tags =
            ap tags_seen html ∙ tags_behind-push [] v.html (chunk slice _) ∙ append-nil _ ∙ p.tags;
      }

  emit-IsPut :
      (k : ℕ) (v : Weaver) (done : List (Text × Text))
      → IsPut source v done
      → IsPut source (emit_text_up_to is_ie6 tab_width source k v) done
  unfolding emit_text_up_to
  emit-IsPut k v done p = elim (Bool-cases (ltb v.output_idx k)) [
    | inl e ↦
        let w = open_current (close_stale v) in
        let stale =
          Still-IsPut source v (close_stale v) done (close_stale-Silent v) (close_stale-Still v)
            p in
        let ready =
          Still-IsPut source (close_stale v) w done (open_current-Silent _) (open_current-Still _)
            stale in
        let same : w.output_idx ≡ v.output_idx =
          (open_current-Still (close_stale v)).index_same ∙ (close_stale-Still v).index_same in
        rw e (
          subst (λ n. IsPut source (push_chunk is_ie6 tab_width (substring source n k) k w) done)
            same (push_chunk-IsPut k w done (ap (λ n. ltb n k) same ∙ e) ready))
    | inr e ↦ rw e p
  ]

  -- A tag with what should be seen of the text in front of it.
  abbrev place : Mark → Text × Text
  place m = (screen is_ie6 tab_width (take m.at source), m.text)

  consume_tag-IsPut :
      (t : Mark) (v : Weaver) (done : List (Text × Text))
      → Lacks 0xd source
      → v.output_idx ≤ t.at
      → IsSeen is_ie6 tab_width v
      → IsPut source v done
      → IsPut source (consume_tag is_ie6 tab_width source t v) (done ++ place t ∷ [])
        × ((consume_tag is_ie6 tab_width source t v).output_idx ≡ t.at)
  unfolding consume_tag
  consume_tag-IsPut t v done l h i p =
      let w = emit_text_up_to is_ie6 tab_width source t.at v in
      let c = close_open w in
      let q =
        Still-IsPut source w c done (close_open-Silent w) (close_open-Still w)
          (emit-IsPut t.at v done p) in
      let at : c.output_idx ≡ t.at =
        (close_open_closed w).1 ∙ (emit_cursor is_ie6 tab_width source t.at v).0 ∙ ground arith in
      let shown : seen c.html ≡ screen is_ie6 tab_width (take t.at source) =
        (close_open-Silent w).seen_same
        ∙ (emit-IsSeen is_ie6 tab_width source t.at v l i).text
        ∙ ap (screen is_ie6 tab_width)
            (sym ((close_open-Silent w).sources_same) ∙ q.text ∙ ap (λ n. take n source) at) in
      (
        record {
          text = sources-push c.html (tag t.text) ∙ append-nil _ ∙ q.text;
          tags = tags_behind-push [] c.html (tag t.text) ∙ rw (q.tags, shown) refl;
        },
        at,
      )

  consume_decoration-IsPut :
      (d : Mark) (v : Weaver) (done : List (Text × Text))
      → IsPut source v done
      → IsPut source (consume_decoration is_ie6 tab_width source d v) done
        × ((consume_decoration is_ie6 tab_width source d v).output_idx ≡ max v.output_idx d.at)
  unfolding consume_decoration
  consume_decoration-IsPut d v done p =
      let q = emit-IsPut d.at v done p in
      (record { text = q.text; tags = q.tags }, (emit_cursor is_ie6 tab_width source d.at v).0)

  module _ (l : Lacks 0xd source) where
    weave-tags :
        (tags ds : List Mark) (v : Weaver) (done : List (Text × Text))
        → AllFrom v.output_idx tags
        → IsSeen is_ie6 tab_width v
        → IsPut source v done
        → IsPut source (weave is_ie6 tab_width source tags ds v) (done ++ map place tags)
    unfolding weave
    weave-tags [] [] v done o i p = rw append-nil p
    weave-tags [] (d ∷ ds) v done o i p =
        weave-tags [] ds _ done tt (consume_decoration-IsSeen is_ie6 tab_width source l d v i)
          (consume_decoration-IsPut d v done p).0
    weave-tags (t ∷ ts) [] v done o i p =
        let (q, at) = consume_tag-IsPut t v done l o.0 i p in
        subst (IsPut source _) (append_assoc done (place t ∷ []) (map place ts)) (
          weave-tags ts [] _ (done ++ place t ∷ []) (subst (λ n. AllFrom n ts) (sym at) o.1)
            (consume_tag-IsSeen is_ie6 tab_width source l t v i) q)
    weave-tags (t ∷ ts) (d ∷ ds) v done o i p = elim (Bool-cases (leb t.at d.at)) [
      | inl e ↦
          let (q, at) = consume_tag-IsPut t v done l o.0 i p in
          rw (e, weave)
            (subst (IsPut source _) (append_assoc done (place t ∷ []) (map place ts)) (
              weave-tags ts (d ∷ ds) _ (done ++ place t ∷ [])
                (subst (λ n. AllFrom n ts) (sym at) o.1)
                (consume_tag-IsSeen is_ie6 tab_width source l t v i) q))
      | inr e ↦
          let (q, at) = consume_decoration-IsPut d v done p in
          rw (e, weave)
            (weave-tags (t ∷ ts) ds _ done
              (subst (λ n. AllFrom n (t ∷ ts)) (sym at) (ground (arith, o.0), o.1))
              (consume_decoration-IsSeen is_ie6 tab_width source l d v i) q)
    ]

-- Each tag is put back where it belongs: in the order of the tags, and what a browser shows of the output
-- in front of it is the source text up to its position, with its tabs expanded, whatever the
-- decorations are, and in IE 6 with a blank before each line end. The tags come in the order of their
-- positions and the text has no carriage return.
pub recombined-tags_seen :
    (is_ie6 : Bool) (tab_width : ℕ) (source : Text) (tags decorations : List Mark)
    → Lacks 0xd source
    → IsOrdered 0 (length source) tags
    → tags_seen (recombined is_ie6 tab_width source tags decorations).html
      ≡ map (λ m. (screen is_ie6 tab_width (take m.at source), m.text)) tags
unfolding recombined
recombined-tags_seen is_ie6 tab_width source tags decorations l o =
    let v = weave is_ie6 tab_width source tags decorations start in
    let w = emit_text_up_to is_ie6 tab_width source (length source) v in
    let begun : IsPut source start [] = record {
      text = unfold sources in refl;
      tags = unfold tags_behind in refl;
    } in
    let woven =
      weave-tags is_ie6 tab_width source l tags decorations start []
        (ordered-AllFrom 0 (length source) tags o) (start-IsSeen is_ie6 tab_width) begun in
    (close_open-Still w).tags_same
    ∙ (emit-IsPut is_ie6 tab_width source (length source) v _ woven).tags
