-- ===== src/Prettify/Combine/Flags.antt =====
-- When the combined pattern ignores case, and when letters are folded instead.
use java_study_project.Base.{
  ◌≡◌, refl, Bool, true, false, not, ◌&&◌, ◌||◌, List, [], ◌∷◌, Bool-cases, inl, inr,
}
use java_study_project.Prettify.RegExp.{RegExp}
use java_study_project.Prettify.Combine.{has_letter, case_flags}

-- A pattern that tells the cases of a letter apart.
abbrev pub is_sensitive : RegExp → Bool
is_sensitive r = not r.ignore_case && has_letter r.source 0

abbrev pub any_sensitive : List RegExp → Bool
any_sensitive [] = false
any_sensitive (r ∷ rs) = is_sensitive r || any_sensitive rs

abbrev pub any_insensitive : List RegExp → Bool
any_insensitive [] = false
any_insensitive (r ∷ rs) = r.ignore_case || any_insensitive rs

abbrev flags_of : Bool → List RegExp → Bool × Bool
flags_of before rs = (any_sensitive rs, not (any_sensitive rs) && (before || any_insensitive rs))

or_true : (b : Bool) → (b || true) ≡ true
or_true true = refl
or_true false = refl

case_flags-flags_of : (before : Bool) (rs : List RegExp) → case_flags rs before ≡ flags_of before rs
unfolding case_flags
case_flags-flags_of true [] = refl
case_flags-flags_of false [] = refl
case_flags-flags_of before (r ∷ rs) = elim (Bool-cases r.ignore_case) [
  | inl e ↦ rw (e, or_true before) (case_flags-flags_of true rs)
  | inr e ↦ elim (Bool-cases (has_letter r.source 0)) [
    | inl h ↦ rw (e, h)
    | inr h ↦ rw (e, h) (case_flags-flags_of before rs)
  ]
]

-- Letters are folded just when a pattern tells the cases of its letters apart; if none does, the combined
-- pattern ignores case just when one of the patterns does.
pub case_flags-any :
    (rs : List RegExp)
    → case_flags rs false ≡ (any_sensitive rs, not (any_sensitive rs) && any_insensitive rs)
case_flags-any rs = case_flags-flags_of false rs
