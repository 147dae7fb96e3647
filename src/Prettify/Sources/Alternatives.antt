-- ===== src/Prettify/Sources/Alternatives.antt =====
-- A keyword list becomes the alternatives of a pattern.
use java_study_project.Base.{
  ℕ, ◌≡◌, refl, ap, ◌∙◌, Bool, true, false, List, [], ◌∷◌, ◌++◌, All, append-nil,
}
use java_study_project.Text.{Text}
use java_study_project.Text.Number.{is_space, skip_space}
use java_study_project.Text.Split.{join}
use java_study_project.Prettify.Combine.{join_bar}
use java_study_project.Prettify.Sources.{trim_end, trim, bar_spaces}

-- A word: at least one character, and no white space.
pub data Word : Type 0 where
  word : (c : ℕ) (s : Text) → is_space c ≡ false → All (λ d. is_space d ≡ false) s → Word

abbrev pub letters_of : Word → Text
letters_of (word c s h k) = c ∷ s

abbrev pub spellings : List Word → List Text
spellings [] = []
spellings (w ∷ ws) = letters_of w ∷ spellings ws

-- Words with a blank behind each, as the keyword lists are written.
unfoldable pub with_blanks : List Word → Text
with_blanks [] = []
with_blanks (w ∷ ws) = letters_of w ++ b' ' ∷ with_blanks ws

trim_end-word : (s t : Text) → All (λ d. is_space d ≡ false) s → trim_end (s ++ t) ≡ s ++ trim_end t
unfolding trim_end
trim_end-word [] t h = refl
trim_end-word (c ∷ s) t h = rw (h.0, trim_end-word s t h.1)

letters_solid : (w : Word) → All (λ d. is_space d ≡ false) (letters_of w)
letters_solid (word c s h k) = (h, k)

blank_before :
    (v : Word) (rest u : Text)
    → trim_end (letters_of v ++ rest) ≡ u
    → trim_end (b' ' ∷ (letters_of v ++ rest)) ≡ b' ' ∷ u
unfolding trim_end
blank_before (word c s h k) rest u e = rw h (ap (◌∷◌ b' ') (rw h at e))

-- The blank at the end is taken away, and those between the words are kept.
trim_end-with_blanks : (ws : List Word) → trim_end (with_blanks ws) ≡ join b' ' (spellings ws)
unfolding with_blanks join trim_end
trim_end-with_blanks [] = refl
trim_end-with_blanks (w ∷ []) =
    trim_end-word (letters_of w) (b' ' ∷ []) (letters_solid w) ∙ append-nil (letters_of w)
trim_end-with_blanks (w ∷ v ∷ ws) =
    trim_end-word (letters_of w) (b' ' ∷ with_blanks (v ∷ ws)) (letters_solid w)
    ∙ ap (λ t. letters_of w ++ t)
        (blank_before v (b' ' ∷ with_blanks ws) (join b' ' (spellings (v ∷ ws)))
          (trim_end-with_blanks (v ∷ ws)))

bar_spaces-word :
    (before : Bool) (w : Word) (t : Text)
    → bar_spaces before (letters_of w ++ t) ≡ letters_of w ++ bar_spaces false t
unfolding bar_spaces
bar_spaces-word before (word c s h k) t = rw h (ap (◌∷◌ c) (rest s k))
  where
    rest :
        (s : Text)
        → All (λ d. is_space d ≡ false) s
        → bar_spaces false (s ++ t) ≡ s ++ bar_spaces false t
    rest [] k = refl
    rest (d ∷ s) k = rw k.0 (ap (◌∷◌ d) (rest s k.1))

bar_spaces-join :
    (before : Bool) (ws : List Word)
    → bar_spaces before (join b' ' (spellings ws)) ≡ join_bar (spellings ws)
unfolding join join_bar bar_spaces
bar_spaces-join before [] = refl
bar_spaces-join before (w ∷ []) = rw (append-nil (letters_of w)) at (bar_spaces-word before w [])
bar_spaces-join before (w ∷ v ∷ ws) =
    bar_spaces-word before w (b' ' ∷ join b' ' (spellings (v ∷ ws)))
    ∙ ap (λ t. letters_of w ++ b'|' ∷ t) (bar_spaces-join true (v ∷ ws))

skip_space-with_blanks : (ws : List Word) → skip_space (with_blanks ws) ≡ with_blanks ws
unfolding with_blanks
skip_space-with_blanks [] = refl
skip_space-with_blanks (word c s h k ∷ ws) = rw h

-- A list of words with a blank behind each becomes the words with bars between them: no empty
-- alternative is made, at the end or between two words.
pub bar_spaces-trim :
    (ws : List Word) → bar_spaces false (trim (with_blanks ws)) ≡ join_bar (spellings ws)
bar_spaces-trim ws =
    rw (skip_space-with_blanks ws, trim_end-with_blanks ws) (bar_spaces-join false ws)
