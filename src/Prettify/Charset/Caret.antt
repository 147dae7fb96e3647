-- ===== src/Prettify/Charset/Caret.antt =====
-- A class as it is read, and where its caret comes to stand when it is folded.

use mathlib.Core.Path.{subst}
use java_study_project.Base.{
  ℕ, ◌+◌, ◌-◌, ◌≤◌, ◌<◌, ◌≡◌, ◌≢◌, ◌∙◌, refl, sym, ap, arith, Bool, true, false, ◌||◌, List, [],
  ◌∷◌, ◌++◌, length, All, ltb, leb, ◌==◌, if◌then◌else◌, inl, inr, Bool-cases,
}
use java_study_project.Text.{Text, codes, eq_text, substring}
use java_study_project.Prettify.Charset.{
  Range, charset_parts, is_group, collect, sort_ranges, consolidate,
}
use java_study_project.Prettify.Charset.Ranges.{
  covered, Apart, IsSeparated, consolidate-IsSeparated,
}
use java_study_project.Prettify.Charset.Folding.{spelled, other_case, folded-covered}
use java_study_project.Prettify.Charset.Written.{caret-encode_escape, caret-group}
use java_study_project.Prettify.Charset.Ordered.{IsForward, folded-IsForward}
use java_study_project.Prettify.Charset.Class.{range_parts, written, IsSound}

-- A class as it is read: whether it is inverse, the groups such as \d, and the ranges that are spelled.
pub record CharClass : Type 0 where
  pub inverse : Bool
  pub groups : List Text
  pub ranges : List Range

abbrev pub body_class : Bool → List Text → CharClass
body_class inverse parts = record {
  inverse = inverse;
  groups = (collect parts).groups;
  ranges = spelled parts;
}

abbrev pub parts_class : List Text → CharClass
parts_class [] = record { inverse = false; groups = []; ranges = [] }
parts_class (p ∷ parts) =
    if eq_text p (codes "^") then body_class true parts else body_class false (p ∷ parts)

abbrev pub class_parts : Text → List Text
class_parts char_set = charset_parts (substring char_set 1 (length char_set - 1)) 0

abbrev pub class_of : Text → CharClass
class_of char_set = parts_class (class_parts char_set)

-- The character is in the class, or its letter in the other case is.
abbrev pub in_some_case : ℕ → List Range → Bool
in_some_case x rs = covered x rs || covered (other_case x) rs

-- The caret of a class is not the first character that is written, where it would invert the class.
pub data IsCaretSafe (c : CharClass) : Type 0 where
  inverted : c.inverse ≡ true → IsCaretSafe c
  grouped : c.groups ≢ [] → IsCaretSafe c
  absent : covered b'^' c.ranges ≡ false → IsCaretSafe c
  behind : (x : ℕ) → x < b'^' → in_some_case x c.ranges ≡ true → IsCaretSafe c

-- No range runs backwards, and the class lacks the null character.
pub record IsReadable (c : CharClass) : Type 0 where
  pub forward : All IsForward c.ranges
  pub no_null : covered 0 c.ranges ≡ false
  pub caret : IsCaretSafe c

-- The ranges that are written out.
abbrev pub folded_ranges : List Text → List Range
folded_ranges parts = consolidate (sort_ranges (collect parts).ranges)

pub collect-groups : (parts : List Text) → All (λ g. is_group g ≡ true) (collect parts).groups
unfolding collect
collect-groups [] = tt
collect-groups (p ∷ []) = elim (Bool-cases (is_group p)) [ inl e ↦ rw e (e, tt) | inr e ↦ rw e tt ]
collect-groups (p ∷ q ∷ []) = elim (Bool-cases (is_group p)) [
  | inl e ↦ rw e (e, collect-groups (q ∷ []))
  | inr e ↦ rw e (collect-groups (q ∷ []))
]
collect-groups (p ∷ q ∷ r ∷ parts) = elim (Bool-cases (is_group p)) [
  | inl e ↦ rw (e, collect) (e, collect-groups (q ∷ r ∷ parts))
  | inr e ↦ elim (Bool-cases (eq_text q (codes "-"))) [
    | inl d ↦ rw (e, d, collect) (collect-groups parts)
    | inr d ↦ rw (e, d, collect) (collect-groups (q ∷ r ∷ parts))
  ]
]

forward-IsSound : (rs : List Range) → All IsForward rs → covered 0 rs ≡ false → All IsSound rs
unfolding covered
forward-IsSound [] h null = tt
forward-IsSound (r ∷ rs) h null = ((ground arith, h.0), forward-IsSound rs h.1 (ground arith))

pub folded-IsSound :
    (parts : List Text)
    → All IsForward (spelled parts)
    → covered 0 (spelled parts) ≡ false
    → All IsSound (folded_ranges parts)
folded-IsSound parts h null =
    forward-IsSound (folded_ranges parts) (folded-IsForward parts h)
      (folded-covered 0 parts ∙ rw null)

Apart-covered :
    (x n : ℕ) (rs : List Range) → Apart n rs → All IsForward rs → x ≤ n → covered x rs ≡ false
unfolding covered
Apart-covered x n [] a f h = refl
Apart-covered x n (r ∷ rs) a f h =
    let rest = Apart-covered x (r.hi + 1) rs a.1 f.1 (omega (arith, a.0, f.0)) in
    ground (arith, a.0)

-- The first range starts at the smallest character.
first-least :
    (x : ℕ) (r : Range) (rs : List Range)
    → IsSeparated (r ∷ rs)
    → All IsForward (r ∷ rs)
    → covered x (r ∷ rs) ≡ true
    → r.lo ≤ x
unfolding covered
first-least x r rs a f c = elim (Bool-cases (leb r.lo x)) [
  | inl e ↦ ground arith
  | inr e ↦
      let later : covered x rs ≡ false =
        Apart-covered x (r.hi + 1) rs a f.1 (ground (arith, f.0)) in
      ground arith
]

abbrev pub NoCaret : List Text → Type 0
NoCaret [] = Unit
NoCaret (p ∷ ps) = eq_text p (codes "^") ≡ false

lo-NoCaret : (r : Range) (ps : List Text) → (r.lo == b'^') ≡ false → NoCaret (range_parts r ++ ps)
lo-NoCaret r ps h = elim (Bool-cases (ltb r.lo r.hi)) [
  | inl e ↦ rw e (caret-encode_escape r.lo h)
  | inr e ↦ rw e (caret-encode_escape r.lo h)
]

head-NoCaret :
    (gs : List Text) (rs : List Range)
    → All (λ g. is_group g ≡ true) gs
    → (gs ≡ [] → (r : Range) (later : List Range) → rs ≡ r ∷ later → (r.lo == b'^') ≡ false)
    → NoCaret (gs ++ written rs)
unfolding written
head-NoCaret (g ∷ gs) rs h other = caret-group g h.0
head-NoCaret [] [] h other = tt
head-NoCaret [] (r ∷ rs) h other = lo-NoCaret r (written rs) (other refl r rs refl)

module _ (parts : List Text) (readable : IsReadable (body_class false parts)) where
  folded_ranges-IsForward : All IsForward (folded_ranges parts)
  folded_ranges-IsForward = folded-IsForward parts readable.forward

  -- The first range does not start with the caret, if no group stands before it.
  first_other :
      IsCaretSafe (body_class false parts)
      → (collect parts).groups ≡ []
      → (r : Range) (later : List Range) → folded_ranges parts ≡ r ∷ later
      → (r.lo == b'^') ≡ false
  unfolding covered
  first_other (inverted e) none_before r later e' = cc
  first_other (grouped h) none_before r later e = absurd (h none_before)
  first_other (absent h) none_before r later e =
      let missing : covered b'^' (r ∷ later) ≡ false =
        ap (covered b'^') (sym e) ∙ folded-covered b'^' parts ∙ rw h in
      let forward : r.lo ≤ r.hi = (subst (All IsForward) e folded_ranges-IsForward).0 in
      ground arith
  first_other (behind x below h) none_before r later e =
      let held : covered x (r ∷ later) ≡ true =
        ap (covered x) (sym e) ∙ folded-covered x parts ∙ h in
      let apart : IsSeparated (r ∷ later) =
        subst IsSeparated e (consolidate-IsSeparated (sort_ranges (collect parts).ranges)) in
      let least : r.lo ≤ x =
        first-least x r later apart (subst (All IsForward) e folded_ranges-IsForward) held in
      ground arith

  pub starts-NoCaret : NoCaret ((collect parts).groups ++ written (folded_ranges parts))
  starts-NoCaret =
      head-NoCaret (collect parts).groups (folded_ranges parts) (collect-groups parts)
        (first_other readable.caret)
