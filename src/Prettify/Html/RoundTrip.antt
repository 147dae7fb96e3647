-- ===== src/Prettify/Html/RoundTrip.antt =====
-- Unescaping what was escaped.
use mathlib.Core.List.{flat_map}
use java_study_project.Base.{
  ℕ, ◌+◌, [], ◌∷◌, ◌++◌, ◌≡◌, refl, sym, ◌∙◌, false, none, some, ◌==◌, if◌then◌else◌, inl, inr,
  Bool-cases, ==_iff, length, Option-cases,
}
use java_study_project.Text.{Text, codes, index_of, replace_from, replace_all}
use java_study_project.Text.Replace.{replace_all-flat_map}
use java_study_project.Text.Search.{index_of-longer, index_of_from-none, replace_all-none}
use native.Mathlib.Numerals.{add-one}
use java_study_project.Prettify.Html.{html_to_text, text_to_html, decode_numeric, named_entities}
use java_study_project.Prettify.Html.Escape.{text_escape, text_to_html-flat_map}

-- What is left of a character's code after the replacements of `&lt;` and of `&gt;`.
after_lt : ℕ → Text
after_lt c = if c == b'&' then codes "&amp;" else if c == b'>' then codes "&gt;" else c ∷ []

after_gt : ℕ → Text
after_gt c = if c == b'&' then codes "&amp;" else c ∷ []

-- A character other than `&` is passed over by each of the replacements.
plain_step :
    (pat rep : Text) (c : ℕ) (rest : Text)
    → (c == b'&') ≡ false
    → replace_all (b'&' ∷ pat) rep (c ∷ rest) ≡ c ∷ replace_all (b'&' ∷ pat) rep rest
unfolding replace_from
plain_step pat rep c rest n = rw n

lt_step :
    (c : ℕ) (rest : Text)
    → replace_all (codes "&lt;") (codes "<") (text_escape c ++ rest)
      ≡ after_lt c ++ replace_all (codes "&lt;") (codes "<") rest
unfolding replace_from text_escape after_lt
lt_step c rest = elim (Bool-cases (c == b'&')) [
  | inl e ↦ rw e
  | inr n ↦ rw n (elim (Bool-cases (c == b'<')) [
    | inl e ↦ rw e (rw ((==_iff c b'<').0 e))
    | inr m ↦ rw m (elim (Bool-cases (c == b'>')) [
      | inl e ↦ rw e
      | inr k ↦ rw k (plain_step (codes "lt;") (codes "<") c rest n)
    ])
  ])
]

gt_step :
    (c : ℕ) (rest : Text)
    → replace_all (codes "&gt;") (codes ">") (after_lt c ++ rest)
      ≡ after_gt c ++ replace_all (codes "&gt;") (codes ">") rest
unfolding replace_from after_lt after_gt
gt_step c rest = elim (Bool-cases (c == b'&')) [
  | inl e ↦ rw e
  | inr n ↦ rw n (elim (Bool-cases (c == b'>')) [
    | inl e ↦ rw e (rw ((==_iff c b'>').0 e))
    | inr k ↦ rw k (plain_step (codes "gt;") (codes ">") c rest n)
  ])
]

apos_step :
    (c : ℕ) (rest : Text)
    → replace_all (codes "&apos;") (codes "'") (after_gt c ++ rest)
      ≡ after_gt c ++ replace_all (codes "&apos;") (codes "'") rest
unfolding replace_from after_gt
apos_step c rest = elim (Bool-cases (c == b'&')) [
  | inl e ↦ rw e
  | inr n ↦ rw n (plain_step (codes "apos;") (codes "'") c rest n)
]

quot_step :
    (c : ℕ) (rest : Text)
    → replace_all (codes "&quot;") (codes "\"") (after_gt c ++ rest)
      ≡ after_gt c ++ replace_all (codes "&quot;") (codes "\"") rest
unfolding replace_from after_gt
quot_step c rest = elim (Bool-cases (c == b'&')) [
  | inl e ↦ rw e
  | inr n ↦ rw n (plain_step (codes "quot;") (codes "\"") c rest n)
]

amp_step :
    (c : ℕ) (rest : Text)
    → replace_all (codes "&amp;") (codes "&") (after_gt c ++ rest)
      ≡ (c ∷ []) ++ replace_all (codes "&amp;") (codes "&") rest
unfolding replace_from after_gt
amp_step c rest = elim (Bool-cases (c == b'&')) [
  | inl e ↦ rw e (rw ((==_iff c b'&').0 e))
  | inr n ↦ rw n (plain_step (codes "amp;") (codes "&") c rest n)
]

flat_map-single : (s : Text) → flat_map (λ c. c ∷ []) s ≡ s
unfolding flat_map
flat_map-single [] = refl
flat_map-single (c ∷ s) = rw (flat_map-single s)

-- The six replacements undo the three of `textToHtml`, and then the last one also reads a `&nbsp;`
-- that the text itself held.
named_entities-text_to_html :
    (s : Text) → named_entities (text_to_html s) ≡ replace_all (codes "&nbsp;") (codes " ") s
named_entities-text_to_html s = rw (
  text_to_html-flat_map,
  replace_all-flat_map _ _ text_escape after_lt lt_step s,
  replace_all-flat_map _ _ after_lt after_gt gt_step s,
  replace_all-flat_map _ _ after_gt after_gt apos_step s,
  replace_all-flat_map _ _ after_gt after_gt quot_step s,
  replace_all-flat_map _ _ after_gt (λ c. c ∷ []) amp_step s,
  flat_map-single,
)

no_numeric_step :
    (c : ℕ) (rest : Text)
    → index_of (codes "&#") rest ≡ none
    → index_of (codes "&#") (text_escape c ++ rest) ≡ none
unfolding text_escape
no_numeric_step c rest h = elim (Bool-cases (c == b'&')) [
  | inl e ↦ rw (e, h)
  | inr n ↦ rw n (elim (Bool-cases (c == b'<')) [
    | inl e ↦ rw (e, h)
    | inr m ↦ rw m (elim (Bool-cases (c == b'>')) [ inl e ↦ rw (e, h) | inr k ↦ rw (k, n, h) ])
  ])
]

no_numeric : (s : Text) → index_of (codes "&#") (flat_map text_escape s) ≡ none
unfolding flat_map
no_numeric [] = refl
no_numeric (c ∷ s) = no_numeric_step c (flat_map text_escape s) (no_numeric s)

named_entities-none : (t : Text) → index_of (codes "&") t ≡ none → named_entities t ≡ t
named_entities-none t h = rw (
  replace_all-none (codes "&lt;") (codes "<") t (index_of-longer b'&' (codes "lt;") t h),
  replace_all-none (codes "&gt;") (codes ">") t (index_of-longer b'&' (codes "gt;") t h),
  replace_all-none (codes "&apos;") (codes "'") t (index_of-longer b'&' (codes "apos;") t h),
  replace_all-none (codes "&quot;") (codes "\"") t (index_of-longer b'&' (codes "quot;") t h),
  replace_all-none (codes "&amp;") (codes "&") t (index_of-longer b'&' (codes "amp;") t h),
  replace_all-none (codes "&nbsp;") (codes " ") t (index_of-longer b'&' (codes "nbsp;") t h),
)

decode_numeric-none :
    (f start : ℕ) (t : Text)
    → index_of (codes "&#") t ≡ none
    → decode_numeric (f + 1) start t ≡ some t
unfolding decode_numeric
decode_numeric-none f start t h =
    rw (add-one, decode_numeric, index_of_from-none (codes "&#") t start h)

-- A text with no numeric entity goes straight to the named ones, also where it has no `&` at all.
html_to_text-named : (t : Text) → index_of (codes "&#") t ≡ none → html_to_text t ≡ named_entities t
unfolding html_to_text
html_to_text-named t h = elim (Option-cases (index_of (codes "&") t)) [
  | inl e ↦ rw (e, html_to_text) (sym (named_entities-none t e))
  | inr (pos, e) ↦ rw (e, html_to_text, decode_numeric-none (length t) pos t h)
]

-- Unescaping an escaped text gives the text back, but that each `&nbsp;` in it becomes a space:
-- `&amp;` is replaced before `&nbsp;`.
pub html_to_text-text_to_html :
    (s : Text) → html_to_text (text_to_html s) ≡ replace_all (codes "&nbsp;") (codes " ") s
html_to_text-text_to_html s =
    html_to_text-named (text_to_html s) (rw text_to_html-flat_map (no_numeric s))
    ∙ named_entities-text_to_html s

-- A text without `&nbsp;` survives escaping and unescaping.
pub html_to_text-text_to_html_id :
    (s : Text) → index_of (codes "&nbsp;") s ≡ none → html_to_text (text_to_html s) ≡ s
html_to_text-text_to_html_id s h =
    html_to_text-text_to_html s ∙ replace_all-none (codes "&nbsp;") (codes " ") s h
