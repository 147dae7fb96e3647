-- ===== src/Prettify/Recombine/Weaving.antt =====
-- The loop over tags and decorations: after each round what is shown, and what is left to show, make
-- up the same painted text.
use mathlib.Core.Path.{subst₂}
use java_study_project.Base.{
  ℕ, ◌+◌, ◌-◌, max, Bool, ◌≡◌, refl, sym, ap, ◌∙◌, arith, List, [], ◌∷◌, ◌++◌, append_assoc,
  append-nil, take, drop, leb, leb→le, inl, inr, Bool-cases, map, take-split, drop-drop,
  take-append-drop,
}
use java_study_project.Text.{Text}
use java_study_project.Prettify.Recombine.{
  tag, Mark, Weaver, truthy, emit_text_up_to, close_open, consume_tag, consume_decoration, weave,
}
use java_study_project.Prettify.Recombine.Reading.{Painted, paint, paint-append, painted, read-push}
use java_study_project.Prettify.Recombine.Emit.{
  IsRead, Reaches, to_show, truthy-false, close_open-IsRead, emit-IsRead, emit_cursor,
}

-- The paint of a slice up to `k`, and what is to be shown behind it.
painted-split :
    (style : Text) (ds : List Mark) (i k : ℕ) (s : Text)
    → Reaches k ds
    → painted style ds i s
      ≡ paint style (take (k - i) s) ++ painted style ds (max i k) (drop (k - i) s)
unfolding painted
painted-split style [] i k s h =
    ap (paint style) (sym (take-append-drop (k - i) s))
    ∙ paint-append style (take (k - i) s) (drop (k - i) s)
painted-split style (d ∷ ds) i k s h =
    let split = take-split (k - i) (d.at - i) s (omega arith) in
    let a : d.at - i - (k - i) ≡ d.at - max i k = omega arith in
    let b : max (max i k) d.at ≡ max i d.at = omega arith in
    let c : (k - i) + (d.at - max i k) ≡ d.at - i = omega arith in
    rw (split, a, b, drop-drop, c, paint-append) (simp append_assoc)

-- What a run of the loop from `v` leaves: all the tags, and together with the text behind the output
-- index all that was to be shown.
pub record IsWoven (source : Text) (w : Weaver) (all : Painted) (ts : List Text) : Type 0 where
  pub done : Painted
  pub reads : IsRead w done ts
  pub rest : done ++ paint w.current_decoration (drop w.output_idx source) ≡ all

pub close_open_closed :
    (v : Weaver)
    → ((close_open v).open_decoration ≡ [])
      × ((close_open v).output_idx ≡ v.output_idx)
      × ((close_open v).current_decoration ≡ v.current_decoration)
unfolding close_open
close_open_closed v = elim (Bool-cases (truthy v.open_decoration)) [
  | inl e ↦ rw e (refl, refl, refl)
  | inr e ↦ rw e (truthy-false v.open_decoration e, refl, refl)
]

IsWoven-cast :
    (source : Text) {w : Weaver} {all all' : Painted} {ts ts' : List Text}
    → all ≡ all'
    → ts ≡ ts'
    → IsWoven source w all ts
    → IsWoven source w all' ts'
IsWoven-cast source {w} p q h = subst₂ (λ a t. IsWoven source w a t) p q h

module _ (is_ie6 : Bool) (tab_width : ℕ) (source : Text) where
  tag-IsRead :
      (m : Mark) (v : Weaver) (done : Painted) (ts : List Text)
      → IsRead v done ts
      → IsRead
          (consume_tag is_ie6 tab_width source m v)
          (done
            ++ paint v.current_decoration (take (m.at - v.output_idx) (drop v.output_idx source)))
          (ts ++ m.text ∷ [])
  unfolding consume_tag
  tag-IsRead m v done ts r =
      let w = emit_text_up_to is_ie6 tab_width source m.at v in
      let closed =
        close_open-IsRead w _ ts (emit-IsRead is_ie6 tab_width source m.at v done ts r) in
      let style = (close_open_closed w).0 in
      record { reads = read-push (close_open w).html (tag m.text) ∙ rw (closed.reads, style) }

  -- Showing the slice up to `k` leaves the rest to be shown.
  show_lem :
      (ds : List Mark) (k : ℕ) (v w : Weaver) (done : Painted)
      → Reaches k ds
      → w.output_idx ≡ max v.output_idx k
      → w.current_decoration ≡ v.current_decoration
      → (done ++ paint v.current_decoration (take (k - v.output_idx) (drop v.output_idx source)))
          ++ to_show source ds w
        ≡ done ++ to_show source ds v
  show_lem ds k v w done h idx cur =
      let e : v.output_idx + (k - v.output_idx) ≡ max v.output_idx k = omega arith in
      rw (
        idx,
        cur,
        painted-split v.current_decoration ds v.output_idx k (drop v.output_idx source) h,
        drop-drop,
        e,
        append_assoc,
      )

  tag_step :
      (m : Mark) (ds : List Mark) (v : Weaver) (done : Painted) (ts : List Text)
      → Reaches m.at ds
      → IsRead v done ts
      → let v' = consume_tag is_ie6 tab_width source m v in
        (d : Painted) × IsRead v' d (ts ++ m.text ∷ [])
        × (d ++ to_show source ds v' ≡ done ++ to_show source ds v)
  unfolding consume_tag
  tag_step m ds v done ts h r =
      let w = emit_text_up_to is_ie6 tab_width source m.at v in
      let (idx, cur) = emit_cursor is_ie6 tab_width source m.at v in
      let (style, idx', cur') = close_open_closed w in
      (
        done ++ paint v.current_decoration (take (m.at - v.output_idx) (drop v.output_idx source)),
        tag-IsRead m v done ts r,
        show_lem ds m.at v (consume_tag is_ie6 tab_width source m v) done h (idx' ∙ idx)
            (cur' ∙ cur),
      )

  decoration_step :
      (m : Mark) (ds : List Mark) (v : Weaver) (done : Painted) (ts : List Text)
      → IsRead v done ts
      → let v' = consume_decoration is_ie6 tab_width source m v in
        (d : Painted) × IsRead v' d ts
        × (d ++ to_show source ds v' ≡ done ++ to_show source (m ∷ ds) v)
  unfolding consume_decoration painted
  decoration_step m ds v done ts r =
      let (idx, cur) = emit_cursor is_ie6 tab_width source m.at v in
      let e : v.output_idx + (m.at - v.output_idx) ≡ max v.output_idx m.at = omega arith in
      (
        done ++ paint v.current_decoration (take (m.at - v.output_idx) (drop v.output_idx source)),
        record { reads = (emit-IsRead is_ie6 tab_width source m.at v done ts r).reads },
        rw (idx, drop-drop, e, append_assoc),
      )

  pub weave-IsWoven :
      (tags ds : List Mark) (v : Weaver) (done : Painted) (ts : List Text)
      → IsRead v done ts
      → IsWoven source
          (weave is_ie6 tab_width source tags ds v)
          (done ++ to_show source ds v)
          (ts ++ map (λ m. m.text) tags)
  unfolding weave
  weave-IsWoven [] [] v done ts r = record {
    done = done;
    reads = rw append-nil r;
    rest = unfold painted in refl;
  }
  weave-IsWoven [] (d ∷ ds) v done ts r =
      let (done', r', same) = decoration_step d ds v done ts r in
      IsWoven-cast source same refl
        (weave-IsWoven [] ds (consume_decoration is_ie6 tab_width source d v) done' ts r')
  weave-IsWoven (t ∷ tags) [] v done ts r =
      let (done', r', same) = tag_step t [] v done ts tt r in
      IsWoven-cast source same (append_assoc ts (t.text ∷ []) (map (λ m. m.text) tags)) (
        weave-IsWoven tags [] (consume_tag is_ie6 tab_width source t v) done' (ts ++ t.text ∷ [])
          r')
  weave-IsWoven (t ∷ tags) (d ∷ ds) v done ts r = elim (Bool-cases (leb t.at d.at)) [
    | inl e ↦
        let (done', r', same) = tag_step t (d ∷ ds) v done ts (leb→le t.at d.at e) r in
        rw (e, weave)
          (IsWoven-cast source same (append_assoc ts (t.text ∷ []) (map (λ m. m.text) tags)) (
            weave-IsWoven tags (d ∷ ds) (consume_tag is_ie6 tab_width source t v) done'
              (ts ++ t.text ∷ []) r'))
    | inr e ↦
        let (done', r', same) = decoration_step d ds v done ts r in
        rw (e, weave)
          (IsWoven-cast source same refl (
            weave-IsWoven (t ∷ tags) ds (consume_decoration is_ie6 tab_width source d v) done' ts
              r'))
  ]
