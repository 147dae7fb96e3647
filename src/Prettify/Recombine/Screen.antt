-- ===== src/Prettify/Recombine/Screen.antt =====
-- The loop keeps what is seen and the column in step with the source text.

use java_study_project.Base.{
  ℕ, ◌++◌, Bool, ◌≡◌, refl, sym, ap, ◌∙◌, List, [], ◌∷◌, ltb, leb, inl, inr, Bool-cases, length,
  All-append_left, All-append_right, take, drop, take-append-drop, max, min, ◌-◌, ◌≢◌,
}
use java_study_project.Text.{Text, substring, replace_char, Lacks}
use java_study_project.Text.Replace.{replace_char-append}
use java_study_project.Prettify.Tabs.{tab_expander}
use java_study_project.Prettify.Tabs.Columns.{tab_expander-append}
use java_study_project.Prettify.Recombine.{
  tag, chunk, Mark, Weaver, close_stale, open_current, chunk_html, line_break, push_chunk,
  emit_text_up_to, close_open, consume_tag, consume_decoration, weave, start, recombined,
}
use java_study_project.Prettify.Recombine.Result.{recombined-plain}
use java_study_project.Prettify.Recombine.Chunk.{break_lines}
use java_study_project.Prettify.Recombine.Displayed.{line_end, displayed-break_lines}
use java_study_project.Prettify.Recombine.Blanks.{chunk_html-Shows}
use java_study_project.Prettify.Recombine.Seen.{
  seen, sources, seen-push, sources-push, Silent, pushed-Silent, close_open-Silent,
  close_stale-Silent, open_current-Silent, sources_lem,
}
use java_study_project.Prettify.Tabs.Returns.{tab_expander-Lacks_return}

substring-Lacks : (c : ℕ) (s : Text) (a b : ℕ) → Lacks c s → Lacks c (substring s a b)
substring-Lacks c s a b h =
    let n = max a b - min a b in
    let m = min a b in
    let rest = All-append_right (λ d. d ≢ c) (take m s) (drop m s) (rw (take-append-drop m s) h) in
    All-append_left (λ d. d ≢ c) (take n (drop m s)) (drop n (drop m s))
      (rw (take-append-drop n (drop m s)) rest)

module _ (is_ie6 : Bool) (tab_width : ℕ) where
  -- What should be seen of a text: its tabs are expanded from the left margin on.
  abbrev pub screen : Text → Text
  screen s = replace_char 0xa (line_end is_ie6) (tab_expander tab_width 0 s).0

  pub record IsSeen (v : Weaver) : Type 0 where
    pub text : seen v.html ≡ screen (sources v.html)
    pub column : v.char_in_line ≡ (tab_expander tab_width 0 (sources v.html)).1

  pub Silent-IsSeen : {v w : Weaver} → Silent v w → IsSeen v → IsSeen w
  Silent-IsSeen s i = record {
    text = s.seen_same ∙ i.text ∙ ap screen (sym s.sources_same);
    column =
        s.column_same ∙ i.column ∙ ap (λ t. (tab_expander tab_width 0 t).1) (sym s.sources_same);
  }

  pub push_chunk_lem :
      (slice : Text) (k : ℕ) (v : Weaver)
      → let (expanded_slice, column) = tab_expander tab_width v.char_in_line slice in
        let html = chunk_html v.last_was_space expanded_slice in
        ((push_chunk is_ie6 tab_width slice k v).html
          ≡ v.html ++ chunk slice (break_lines (line_break is_ie6) html) ∷ [])
        × ((push_chunk is_ie6 tab_width slice k v).char_in_line ≡ column)
  unfolding push_chunk
  push_chunk_lem slice k v = (refl, refl)

  -- The next piece of the screen goes on where the column stands.
  screen-append :
      (s t : Text)
      → let mid = (tab_expander tab_width 0 s).1 in
        (screen (s ++ t)
          ≡ screen s ++ replace_char 0xa (line_end is_ie6) (tab_expander tab_width mid t).0)
        × ((tab_expander tab_width 0 (s ++ t)).1 ≡ (tab_expander tab_width mid t).1)
  screen-append s t = (
    ap (λ r. replace_char 0xa (line_end is_ie6) r.0) (tab_expander-append tab_width 0 s t)
        ∙ replace_char-append 0xa (line_end is_ie6) _ _,
    ap (λ r. r.1) (tab_expander-append tab_width 0 s t),
  )

  push_chunk-IsSeen :
      (slice : Text) (k : ℕ) (v : Weaver)
      → Lacks 0xd slice
      → IsSeen v
      → IsSeen (push_chunk is_ie6 tab_width slice k v)
  push_chunk-IsSeen slice k v l i =
      let (html, column) = push_chunk_lem slice k v in
      let x = (tab_expander tab_width v.char_in_line slice).0 in
      let h = chunk_html v.last_was_space x in
      let shown =
        displayed-break_lines is_ie6 h x (chunk_html-Shows v.last_was_space x)
          (tab_expander-Lacks_return tab_width v.char_in_line slice l) in
      let from = ap sources html ∙ sources-push v.html (chunk slice _) in
      let (more, after) = screen-append (sources v.html) slice in
      record {
        text =
            ap seen html
            ∙ seen-push v.html (chunk slice _)
            ∙ rw (shown, i.text, i.column) (sym more)
            ∙ ap screen (sym from);
        column =
            column
            ∙ ap (λ c. (tab_expander tab_width c slice).1) i.column
            ∙ sym after
            ∙ ap (λ t. (tab_expander tab_width 0 t).1) (sym from);
      }

  pub emit-IsSeen :
      (source : Text) (k : ℕ) (v : Weaver)
      → Lacks 0xd source
      → IsSeen v
      → IsSeen (emit_text_up_to is_ie6 tab_width source k v)
  unfolding emit_text_up_to
  emit-IsSeen source k v l i = elim (Bool-cases (ltb v.output_idx k)) [
    | inl e ↦ rw e (
        push_chunk-IsSeen (substring source v.output_idx k) k (open_current (close_stale v))
          (substring-Lacks 0xd source v.output_idx k l)
          (Silent-IsSeen (open_current-Silent (close_stale v))
            (Silent-IsSeen (close_stale-Silent v) i)))
    | inr e ↦ rw e i
  ]

  pub start-IsSeen : IsSeen start
  start-IsSeen = record {
    text = unfold seen sources replace_char tab_expander in refl;
    column = unfold sources tab_expander in refl;
  }

  module _ (source : Text) (l : Lacks 0xd source) where
    pub consume_tag-IsSeen :
        (m : Mark) (v : Weaver) → IsSeen v → IsSeen (consume_tag is_ie6 tab_width source m v)
    unfolding consume_tag
    consume_tag-IsSeen m v i =
        let w = emit_text_up_to is_ie6 tab_width source m.at v in
        Silent-IsSeen (pushed-Silent (close_open w) _ (tag m.text) refl refl refl refl)
          (Silent-IsSeen (close_open-Silent w) (emit-IsSeen source m.at v l i))

    pub consume_decoration-IsSeen :
        (m : Mark) (v : Weaver) → IsSeen v → IsSeen (consume_decoration is_ie6 tab_width source m v)
    unfolding consume_decoration
    consume_decoration-IsSeen m v i =
        let e = emit-IsSeen source m.at v l i in record { text = e.text; column = e.column }

    weave-IsSeen :
        (tags ds : List Mark) (v : Weaver)
        → IsSeen v
        → IsSeen (weave is_ie6 tab_width source tags ds v)
    unfolding weave
    weave-IsSeen [] [] v i = i
    weave-IsSeen [] (d ∷ ds) v i = weave-IsSeen [] ds _ (consume_decoration-IsSeen d v i)
    weave-IsSeen (t ∷ ts) [] v i = weave-IsSeen ts [] _ (consume_tag-IsSeen t v i)
    weave-IsSeen (t ∷ ts) (d ∷ ds) v i = elim (Bool-cases (leb t.at d.at)) [
      | inl e ↦ rw (e, weave) (weave-IsSeen ts (d ∷ ds) _ (consume_tag-IsSeen t v i))
      | inr e ↦ rw (e, weave) (weave-IsSeen (t ∷ ts) ds _ (consume_decoration-IsSeen d v i))
    ]

    recombined-IsSeen : (tags ds : List Mark) → IsSeen (recombined is_ie6 tab_width source tags ds)
    unfolding recombined
    recombined-IsSeen tags ds =
        let v = weave is_ie6 tab_width source tags ds start in
        Silent-IsSeen (close_open-Silent _)
          (emit-IsSeen source (length source) v l (weave-IsSeen tags ds start start-IsSeen))

-- Whatever the tags and the styles are, what a browser shows of the output is the source text with
-- its tabs expanded from the left margin on: entities, blanks and line breaks come out as they were.
-- In IE 6 a blank stands before each line end. The text has no carriage return.
pub recombined-seen :
    (is_ie6 : Bool) (tab_width : ℕ) (source : Text) (tags decorations : List Mark)
    → Lacks 0xd source
    → seen (recombined is_ie6 tab_width source tags decorations).html
      ≡ replace_char 0xa (line_end is_ie6) (tab_expander tab_width 0 source).0
recombined-seen is_ie6 tab_width source tags decorations l =
    let out = recombined is_ie6 tab_width source tags decorations in
    let whole =
      sym (sources_lem out.html) ∙ recombined-plain is_ie6 tab_width source tags decorations in
    (recombined-IsSeen is_ie6 tab_width source l tags decorations).text
    ∙ ap (screen is_ie6 tab_width) whole
