-- ===== src/Text/Replace.antt =====
-- Laws of the two replacements.
use mathlib.Core.List.{flat_map}
use java_study_project.Base.{
  ℕ, [], ◌∷◌, ◌++◌, append_assoc, ◌≡◌, refl, ap, ◌∙◌, ◌==◌, if◌then◌else◌,
}
use java_study_project.Text.{Text, replace_char, replace_from, replace_all}

-- Replacing one character is a flat map.
pub replace_char-flat_map :
    (p : ℕ) (rep s : Text) → replace_char p rep s ≡ flat_map (λ c. if c == p then rep else c ∷ []) s
unfolding replace_char flat_map
replace_char-flat_map p rep [] = refl
replace_char-flat_map p rep (c ∷ s) = rw (replace_char-flat_map p rep s)

pub replace_char-append :
    (p : ℕ) (rep s t : Text)
    → replace_char p rep (s ++ t) ≡ replace_char p rep s ++ replace_char p rep t
unfolding replace_char
replace_char-append p rep [] t = refl
replace_char-append p rep (c ∷ s) t = simp (replace_char-append p rep s t, append_assoc)

-- A replacement that turns each code word `f c` into `g c` turns the code of a text into the other.
pub replace_all-flat_map :
    (pat rep : Text) (f g : ℕ → Text)
    → ((c : ℕ) (rest : Text) → replace_all pat rep (f c ++ rest) ≡ g c ++ replace_all pat rep rest)
    → (s : Text) → replace_all pat rep (flat_map f s) ≡ flat_map g s
unfolding replace_from flat_map
replace_all-flat_map pat rep f g step [] = refl
replace_all-flat_map pat rep f g step (c ∷ s) =
    step c (flat_map f s) ∙ ap (◌++◌ (g c)) (replace_all-flat_map pat rep f g step s)
