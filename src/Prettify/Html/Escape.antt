-- ===== src/Prettify/Html/Escape.antt =====
-- The chains of replacements are one pass, and their result is safe to embed.
use mathlib.Core.List.{flat_map}
use java_study_project.Base.{
  ℕ, [], ◌∷◌, ◌++◌, ◌≡◌, ◌≢◌, refl, arith, ◌==◌, if◌then◌else◌, inl, inr, Bool-cases, ==_iff, All,
  All-append,
}
use java_study_project.Text.{Text, codes, replace_char}
use java_study_project.Text.Replace.{replace_char-append}
use java_study_project.Prettify.Html.{attrib_to_html, text_to_html}

-- What one character is written as.
unfoldable pub text_escape : ℕ → Text
text_escape c =
    if c == b'&'
    then codes "&amp;"
    else if c == b'<'
    then codes "&lt;"
    else if c == b'>'
    then codes "&gt;"
    else c ∷ []

unfoldable pub attrib_escape : ℕ → Text
unfolding text_escape
attrib_escape c = if c == b'"' then codes "&quot;" else text_escape c

text_step :
    (c : ℕ)
    → replace_char b'>'
        (codes "&gt;")
        (replace_char b'<' (codes "&lt;") (if c == b'&' then codes "&amp;" else c ∷ []))
      ≡ text_escape c
unfolding replace_char text_escape
text_step c = elim (Bool-cases (c == b'&')) [
  | inl e ↦ rw e
  | inr n ↦ rw n (elim (Bool-cases (c == b'<')) [
    | inl e ↦ rw e
    | inr m ↦ rw m (elim (Bool-cases (c == b'>')) [ inl e ↦ rw e | inr k ↦ rw k ])
  ])
]

text_to_html-cons : (c : ℕ) (s : Text) → text_to_html (c ∷ s) ≡ text_escape c ++ text_to_html s
unfolding text_to_html
text_to_html-cons c s = simp (replace_char-append) (rw (text_step c))

attrib_to_html-text :
    (s : Text) → attrib_to_html s ≡ replace_char b'"' (codes "&quot;") (text_to_html s)
unfolding attrib_to_html text_to_html
attrib_to_html-text s = refl

quot_step : (c : ℕ) → replace_char b'"' (codes "&quot;") (text_escape c) ≡ attrib_escape c
unfolding replace_char text_escape attrib_escape
quot_step c = elim (Bool-cases (c == b'&')) [
  | inl e ↦ rw e (rw ((==_iff c b'&').0 e))
  | inr n ↦ rw n (elim (Bool-cases (c == b'<')) [
    | inl e ↦ rw e (rw ((==_iff c b'<').0 e))
    | inr m ↦ rw m (elim (Bool-cases (c == b'>')) [
      | inl e ↦ rw e (rw ((==_iff c b'>').0 e))
      | inr k ↦ rw k (elim (Bool-cases (c == b'"')) [ inl e ↦ rw e | inr j ↦ rw j ])
    ])
  ])
]

attrib_to_html-cons :
    (c : ℕ) (s : Text) → attrib_to_html (c ∷ s) ≡ attrib_escape c ++ attrib_to_html s
attrib_to_html-cons c s =
    simp (attrib_to_html-text, text_to_html-cons, replace_char-append, quot_step)

pub text_to_html-flat_map : (s : Text) → text_to_html s ≡ flat_map text_escape s
unfolding flat_map
text_to_html-flat_map [] = unfold text_to_html in refl
text_to_html-flat_map (c ∷ s) = rw (text_to_html-cons, text_to_html-flat_map s)

pub attrib_to_html-flat_map : (s : Text) → attrib_to_html s ≡ flat_map attrib_escape s
unfolding flat_map
attrib_to_html-flat_map [] = unfold attrib_to_html in refl
attrib_to_html-flat_map (c ∷ s) = rw (attrib_to_html-cons, attrib_to_html-flat_map s)

-- Neither a tag nor an attribute's quotes can be opened or closed by such a character.
unfoldable pub IsInert : ℕ → Type 0
IsInert c = (c ≢ b'<') × (c ≢ b'>') × (c ≢ b'"')

attrib_escape-IsInert : (c : ℕ) → All IsInert (attrib_escape c)
unfolding attrib_escape IsInert
attrib_escape-IsInert c = ground arith

-- An escaped attribute value holds no `<`, no `>` and no double quote.
pub attrib_to_html-IsInert : (s : Text) → All IsInert (attrib_to_html s)
attrib_to_html-IsInert [] = unfold attrib_to_html in tt
attrib_to_html-IsInert (c ∷ s) = rw attrib_to_html-cons (
    All-append IsInert (attrib_escape c) (attrib_to_html s) (attrib_escape-IsInert c)
      (attrib_to_html-IsInert s))
