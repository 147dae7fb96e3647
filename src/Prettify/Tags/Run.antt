-- ===== src/Prettify/Tags/Run.antt =====
-- An escaped text is one run for `extractTags`.
use mathlib.Core.Path.{subst}
use mathlib.Core.List.{flatten, flat_map}
use java_study_project.Base.{
  ℕ, ◌+◌, ◌≡◌, ◌≢◌, refl, sym, ap, ◌∙◌, arith, true, false, none, some, [], ◌∷◌, All, All-append,
  length, take, ◌==◌, append-nil,
}
use java_study_project.Text.{Text, codes, index_of, Lacks}
use java_study_project.Prettify.Html.{text_to_html, html_to_text}
use java_study_project.Prettify.Html.Escape.{text_escape, text_to_html-flat_map}
use java_study_project.Prettify.Html.RoundTrip.{html_to_text-text_to_html_id}
use java_study_project.Prettify.Tags.{
  Extracted, run_length, add_source, chunks, is_markup_chunk, consume, extract_loop, extract_tags,
}
use java_study_project.Prettify.Tags.Positions.{IsSectionFree}

text_escape-Lacks : (c : ℕ) → Lacks b'<' (text_escape c)
unfolding text_escape
text_escape-Lacks c = ground arith

flat_map-Lacks : (s : Text) → Lacks b'<' (flat_map text_escape s)
unfolding flat_map
flat_map-Lacks [] = tt
flat_map-Lacks (c ∷ s) =
    All-append (λ d. d ≢ b'<') (text_escape c) (flat_map text_escape s) (text_escape-Lacks c)
      (flat_map-Lacks s)

pub text_to_html-Lacks : (s : Text) → Lacks b'<' (text_to_html s)
text_to_html-Lacks s = rw text_to_html-flat_map (flat_map-Lacks s)

-- A text without tags is one run.
run_all : (s : Text) → Lacks b'<' s → (take (run_length s) s ≡ s) × (chunks s (run_length s) ≡ [])
unfolding chunks
run_all [] h = (refl, refl)
run_all (c ∷ s) (n, h) =
    let e : (c == b'<') ≡ false = ground arith in
    let (whole, rest) = run_all s h in rw e (ap (◌∷◌ c) whole, rest)

chunks-run : (c : ℕ) (s : Text) → Lacks b'<' (c ∷ s) → chunks (c ∷ s) 0 ≡ (c ∷ s) ∷ []
unfolding chunks
chunks-run c s (n, h) =
    let e : (c == b'<') ≡ false = ground arith in
    let (whole, rest) = run_all s h in rw (e, whole, rest) refl

no_markup : (c : ℕ) (s : Text) → c ≢ b'<' → is_markup_chunk (c ∷ s) ≡ false
no_markup c [] n = refl
no_markup c (d ∷ s) n = ground arith

-- The variables at the start.
abbrev nothing_found : Extracted
nothing_found = record { source_buf = []; source_buf_len = 0; extracted_tags = [] }

abbrev one_run : Text → Text → Extracted
one_run [] s = nothing_found
one_run (c ∷ h) s = add_source s (0 + length s) nothing_found

consume-run :
    (m : Text)
    → is_markup_chunk m ≡ false
    → consume m [] nothing_found
      ≡ some (add_source (html_to_text m) (0 + length (html_to_text m)) nothing_found, 0)
unfolding consume
consume-run m e = rw e refl

extract_loop-run :
    (c : ℕ) (h : Text)
    → c ≢ b'<'
    → extract_loop ((c ∷ h) ∷ []) 0 nothing_found ≡ some (one_run (c ∷ h) (html_to_text (c ∷ h)))
unfolding extract_loop
extract_loop-run c h n = rw (extract_loop, consume-run (c ∷ h) (no_markup c h n)) refl

extract_tags-run : (h : Text) → Lacks b'<' h → extract_tags h ≡ some (one_run h (html_to_text h))
unfolding extract_tags
extract_tags-run [] l = unfold extract_loop chunks in refl
extract_tags-run (c ∷ h) l =
    ap (λ ms. extract_loop ms 0 nothing_found) (chunks-run c h l) ∙ extract_loop-run c h l.0

pub chunks-IsSectionFree : (h : Text) → Lacks b'<' h → All IsSectionFree (chunks h 0)
chunks-IsSectionFree [] l = unfold chunks in tt
chunks-IsSectionFree (c ∷ h) l =
    let e : (c == b'<') ≡ false = ground arith in
    subst (All IsSectionFree) (sym (chunks-run c h l))
      ((λ is. let no : false ≡ true = rw e at is in cc), tt)

one_run-source : (h : Text) → flatten (one_run h (html_to_text h)).source_buf ≡ html_to_text h
unfolding flatten
one_run-source [] = unfold html_to_text in refl
one_run-source (c ∷ h) = append-nil (html_to_text (c ∷ h))

one_run-tags : (h s : Text) → (one_run h s).extracted_tags ≡ []
one_run-tags [] s = refl
one_run-tags (c ∷ h) s = refl

-- An escaped text is found again, and no tag.
pub found_again :
    (s : Text) (e : Extracted)
    → index_of (codes "&nbsp;") s ≡ none
    → extract_tags (text_to_html s) ≡ some e
    → (flatten e.source_buf ≡ s) × (e.extracted_tags ≡ [])
found_again s e spelled extracted =
    let h = text_to_html s in
    let found : some (one_run h (html_to_text h)) ≡ some e =
      sym (extract_tags-run h (text_to_html-Lacks s)) ∙ extracted in
    let same : one_run h (html_to_text h) ≡ e = cc in
    (
      ap (λ x. flatten x.source_buf) (sym same)
          ∙ one_run-source h
          ∙ html_to_text-text_to_html_id s spelled,
      ap (λ x. x.extracted_tags) (sym same) ∙ one_run-tags h (html_to_text h),
    )
