-- ===== src/Prettify/Recombine/Blanks.antt =====
-- `startOrSpaceRe`: where it puts `&nbsp;` into an escaped text, the text is still shown. Both patterns
-- make up the html of a chunk.
use mathlib.Core.List.{flat_map}
use mathlib.Core.Path.{subst}
use java_study_project.Base.{
  ℕ, Bool, true, false, ◌≡◌, ◌≢◌, refl, sym, ap, ◌∙◌, arith, [], ◌∷◌, ◌++◌, ◌==◌, Bool-cases, inl,
  inr, ==_iff,
}
use java_study_project.Text.{Text, codes}
use java_study_project.Prettify.Html.Escape.{text_to_html-flat_map}
use java_study_project.Prettify.Recombine.{chunk_html}
use java_study_project.Prettify.Recombine.Chunk.{adjacent_spaces, is_line_end, start_or_spaces}
use java_study_project.Prettify.Recombine.Displayed.{
  Entity, amp, lt, gt, nbsp, Shows, nil, plain, entity,
}
use java_study_project.Prettify.Recombine.Adjacent.{
  escaped, starts_blank, escaped_blank, Shows-cast, html_of, html_of-blank, adjacent-Shows,
  as_entity, as_itself,
}

start-cons :
    (start : Bool) (c : ℕ) (h : Text)
    → c ≢ b' '
    → start_or_spaces start (c ∷ h) ≡ c ∷ start_or_spaces (is_line_end c) h
unfolding start_or_spaces
start-cons false c [] n = refl
start-cons false c (d ∷ h) n = let k : (c == b' ') ≡ false = ground arith in rw k
start-cons true c [] n = let k : (c == b' ') ≡ false = ground arith in rw k
start-cons true c (d ∷ h) n = let k : (c == b' ') ≡ false = ground arith in rw k

start-blank :
    (h : Text) → start_or_spaces true (b' ' ∷ h) ≡ codes "&nbsp;" ++ start_or_spaces false h
unfolding start_or_spaces
start-blank [] = refl
start-blank (d ∷ h) = refl

start-miss :
    (h : Text)
    → starts_blank h ≡ false
    → start_or_spaces false (b' ' ∷ h) ≡ b' ' ∷ start_or_spaces false h
unfolding start_or_spaces
start-miss [] n = refl
start-miss (d ∷ h) n = rw n

behind_amp :
    {c : ℕ} (e h : Text)
    → Entity e c
    → start_or_spaces false (e ++ h) ≡ e ++ start_or_spaces false h
unfolding start_or_spaces
behind_amp e [] amp = refl
behind_amp e [] lt = refl
behind_amp e [] gt = refl
behind_amp e [] nbsp = refl
behind_amp e (d ∷ h) amp = refl
behind_amp e (d ∷ h) lt = refl
behind_amp e (d ∷ h) gt = refl
behind_amp e (d ∷ h) nbsp = refl

start-Entity :
    (start : Bool) {c : ℕ} (e h : Text)
    → Entity e c
    → start_or_spaces start (b'&' ∷ e ++ h) ≡ b'&' ∷ e ++ start_or_spaces false h
start-Entity start e h en =
    start-cons start b'&' (e ++ h) (omega arith) ∙ ap (◌∷◌ b'&') (behind_amp e h en)

start_step :
    (start : Bool) (c : ℕ) (s : Text)
    → c ≢ b' '
    → ((b : Bool) → Shows (start_or_spaces b (html_of s)) s)
    → Shows (start_or_spaces start (html_of (c ∷ s))) (c ∷ s)
unfolding flat_map
start_step start c s n r = elim (escaped c) [
  | as_entity e en q ↦
      Shows-cast
        (ap (λ t. start_or_spaces start (t ++ html_of s)) q ∙ start-Entity start e (html_of s) en)
        (entity en (r false))
  | as_itself a b q ↦
      Shows-cast
        (ap (λ t. start_or_spaces start (t ++ html_of s)) q ∙ start-cons start c (html_of s) n)
        (plain a b (r (is_line_end c)))
]

start_blank :
    (s : Text)
    → Shows (start_or_spaces false (html_of s)) s
    → Shows (start_or_spaces true (html_of (b' ' ∷ s))) (b' ' ∷ s)
start_blank s r =
    Shows-cast (ap (start_or_spaces true) (html_of-blank s) ∙ start-blank (html_of s))
      (entity nbsp r)

single_blank :
    (s : Text)
    → starts_blank s ≡ false
    → Shows (start_or_spaces false (html_of s)) s
    → Shows (start_or_spaces false (html_of (b' ' ∷ s))) (b' ' ∷ s)
single_blank s n r =
    Shows-cast
      (ap (start_or_spaces false) (html_of-blank s) ∙ start-miss (html_of s) (escaped_blank s ∙ n))
      (plain (omega arith) (omega arith) r)

start-pair :
    (h : Text)
    → start_or_spaces false (b' ' ∷ b' ' ∷ h) ≡ b' ' ∷ codes "&nbsp;" ++ start_or_spaces false h
unfolding start_or_spaces
start-pair h = refl

blank_pair :
    (s : Text)
    → Shows (start_or_spaces false (html_of s)) s
    → Shows (start_or_spaces false (html_of (b' ' ∷ b' ' ∷ s))) (b' ' ∷ b' ' ∷ s)
blank_pair s r =
    Shows-cast
      (ap (start_or_spaces false) (html_of-blank (b' ' ∷ s) ∙ ap (◌∷◌ b' ') (html_of-blank s))
        ∙ start-pair (html_of s))
      (plain (omega arith) (omega arith) (entity nbsp r))

-- A blank, whatever follows.
blank_step :
    (start : Bool) (d : ℕ) (s : Text)
    → Shows (start_or_spaces false (html_of (d ∷ s))) (d ∷ s)
    → Shows (start_or_spaces false (html_of s)) s
    → Shows (start_or_spaces start (html_of (b' ' ∷ d ∷ s))) (b' ' ∷ d ∷ s)
blank_step true d s r q = start_blank (d ∷ s) r
blank_step false d s r q = elim (Bool-cases (d == b' ')) [
  | inl e ↦
      subst (λ x. Shows (start_or_spaces false (html_of (b' ' ∷ x ∷ s))) (b' ' ∷ x ∷ s))
        (sym ((==_iff d b' ').0 e)) (blank_pair s q)
  | inr n ↦ single_blank (d ∷ s) (n) r
]

last_blank :
    (start : Bool)
    → Shows (start_or_spaces false (html_of [])) []
    → Shows (start_or_spaces start (html_of (b' ' ∷ []))) (b' ' ∷ [])
last_blank true r = start_blank [] r
last_blank false r = single_blank [] (refl) r

abbrev StartShows : Bool → Text → Type 0
StartShows start s = Shows (start_or_spaces start (html_of s)) s

start-Shows : (start : Bool) (s : Text) → StartShows start s
start-Shows start [] = unfold start_or_spaces flat_map in nil
start-Shows start (c ∷ []) = elim (Bool-cases (c == b' ')) [
  | inl e ↦
      subst (λ x. StartShows start (x ∷ [])) (sym ((==_iff c b' ').0 e))
        (last_blank start (start-Shows false []))
  | inr n ↦ start_step start c [] (ground arith) (λ b. start-Shows b [])
]
start-Shows start (c ∷ d ∷ s) = elim (Bool-cases (c == b' ')) [
  | inl e ↦
      subst (λ x. StartShows start (x ∷ d ∷ s)) (sym ((==_iff c b' ').0 e))
        (blank_step start d s (start-Shows false (d ∷ s)) (start-Shows false s))
  | inr n ↦ start_step start c (d ∷ s) (ground arith) (λ b. start-Shows b (d ∷ s))
]

-- A chunk's html shows the text that it was made from, whatever stood in front of it.
pub chunk_html-Shows : (last_was_space : Bool) (s : Text) → Shows (chunk_html last_was_space s) s
unfolding chunk_html
chunk_html-Shows true s =
    Shows-cast (ap (start_or_spaces true) (text_to_html-flat_map s)) (start-Shows true s)
chunk_html-Shows false s =
    Shows-cast (ap adjacent_spaces (text_to_html-flat_map s)) (adjacent-Shows s)
