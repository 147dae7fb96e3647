-- ===== src/Prettify/Combine/Case.antt =====
-- A run of characters that is folded no longer tells small letters from capitals.

use mathlib.Core.Path.{ap₂}
use java_study_project.Base.{
  ℕ, ◌≡◌, refl, ap, arith, Bool, true, false, ◌&&◌, [], ◌∷◌, ◌++◌, map, leb, inl, inr, Bool-cases,
  holds_on, holds_on_at, and_split,
}
use java_study_project.Text.{Text, eq_text}
use java_study_project.Text.Search.{eq_text-true}
use java_study_project.Prettify.Charset.Folding.{other_case}
use java_study_project.Prettify.Combine.{both_cases, fold_letters}
use java_study_project.Prettify.Parts.{is_latin}

same_fold : ℕ → Bool
same_fold c = eq_text (both_cases (other_case c)) (both_cases c) && is_latin (other_case c)

capitals : holds_on same_fold 65 26 ≡ true
unfolding holds_on same_fold
capitals = refl

small_letters : holds_on same_fold 97 26 ≡ true
unfolding holds_on same_fold
small_letters = refl

latin_fold : (c : ℕ) → is_latin c ≡ true → same_fold c ≡ true
latin_fold c h = elim (Bool-cases (leb b'a' c && leb c b'z')) [
  | inl small ↦ holds_on_at same_fold 97 26 c small_letters (ground arith) (ground arith)
  | inr other ↦ holds_on_at same_fold 65 26 c capitals (ground arith) (ground arith)
]

other_same : (c : ℕ) → is_latin c ≡ false → other_case c ≡ c
other_same c h = ground arith

-- Two runs that differ in the case of their latin letters are folded to the same pattern.
pub fold_letters-other_case : (s : Text) → fold_letters (map other_case s) ≡ fold_letters s
fold_letters-other_case [] = refl
fold_letters-other_case (c ∷ s) = elim (Bool-cases (is_latin c)) [
  | inr h ↦ rw (other_same c h, h) (ap (◌∷◌ c) (fold_letters-other_case s))
  | inl h ↦
      let (same, latin) =
        and_split (eq_text (both_cases (other_case c)) (both_cases c)) (is_latin (other_case c))
          (unfold same_fold in latin_fold c h) in
      let e : both_cases (other_case c) ≡ both_cases c =
        eq_text-true (both_cases (other_case c)) (both_cases c) same in
      rw (latin, h) (ap₂ (λ (t u : Text). t ++ u) e (fold_letters-other_case s))
]
