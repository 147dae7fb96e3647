-- ===== src/Prettify/Charset/Meaning.antt =====
-- What the class that `caseFoldCharset` writes means.
use mathlib.Core.List.{flatten}
use mathlib.Core.Path.{subst}
use java_study_project.Base.{
  ℕ, ◌+◌, ◌-◌, ◌≡◌, ◌≢◌, ◌∙◌, refl, sym, ap, arith, Bool, true, false, some, List, [], ◌∷◌, ◌++◌,
  append_assoc, length, length-append, All, inl, inr, Bool-cases,
}
use java_study_project.Text.{Text, codes, eq_text, substring}
use java_study_project.Text.Search.{substring-middle}
use java_study_project.Prettify.Charset.{
  charset_parts, collect, sort_ranges, ranges_text, charset_text, fold_parts, case_fold_charset,
}
use java_study_project.Prettify.Charset.Ranges.{covered, IsSeparated, consolidate-IsSeparated}
use java_study_project.Prettify.Charset.Folding.{spelled, folded-covered}
use java_study_project.Prettify.Charset.Class.{
  written, IsSound, spelled-append, groups-append, parts-written,
}
use java_study_project.Prettify.Charset.Caret.{
  CharClass, body_class, parts_class, class_parts, class_of, in_some_case, IsReadable,
  folded_ranges, collect-groups, folded-IsSound, NoCaret, starts-NoCaret,
}

-- The text between the brackets.
inside : (s : Text) → substring (b'[' ∷ s ++ codes "]") 1 (length (b'[' ∷ s ++ codes "]") - 1) ≡ s
inside s =
    let last : length (b'[' ∷ s ++ codes "]") - 1 ≡ 1 + length s =
      omega (arith, length-append {0} s (codes "]")) in
    rw last (substring-middle (codes "[") s (codes "]"))

class_of-inside : (s : Text) → class_of (b'[' ∷ s ++ codes "]") ≡ parts_class (charset_parts s 0)
class_of-inside s = ap (λ t. parts_class (charset_parts t 0)) (inside s)

caret_part : (s : Text) → charset_parts (b'^' ∷ s) 0 ≡ codes "^" ∷ charset_parts s 0
unfolding charset_parts
caret_part [] = refl
caret_part (c ∷ s) = refl

parts_class-NoCaret : (ps : List Text) → NoCaret ps → parts_class ps ≡ body_class false ps
parts_class-NoCaret [] h = unfold collect spelled in refl
parts_class-NoCaret (p ∷ ps) h = rw h refl

abbrev folded_class : Bool → List Text → CharClass
folded_class inverse parts = record {
  inverse = inverse;
  groups = (collect parts).groups;
  ranges = folded_ranges parts;
}

module _ (parts : List Text) (sound : All IsSound (folded_ranges parts)) where
  body-written :
      (inverse : Bool)
      → body_class inverse ((collect parts).groups ++ written (folded_ranges parts))
        ≡ folded_class inverse parts
  body-written inverse =
      rw
        (
          spelled-append (collect parts).groups (folded_ranges parts) (collect-groups parts) sound,
          groups-append (collect parts).groups (folded_ranges parts) (collect-groups parts),
        )
        refl

  written_parts :
      charset_parts (flatten (collect parts).groups ++ ranges_text (folded_ranges parts)) 0
      ≡ (collect parts).groups ++ written (folded_ranges parts)
  written_parts = parts-written (collect parts).groups (folded_ranges parts) (collect-groups parts)

  class_of-inverse : class_of (charset_text true (collect parts)) ≡ folded_class true parts
  class_of-inverse =
      rw
        (← append_assoc (flatten (collect parts).groups) (ranges_text (folded_ranges parts))
          (codes "]"))
        (class_of-inside
            (b'^' ∷ (flatten (collect parts).groups ++ ranges_text (folded_ranges parts)))
          ∙ rw
              (
                caret_part (flatten (collect parts).groups ++ ranges_text (folded_ranges parts)),
                written_parts,
              )
              (body-written true))

  class_of-plain :
      NoCaret ((collect parts).groups ++ written (folded_ranges parts))
      → class_of (charset_text false (collect parts)) ≡ folded_class false parts
  class_of-plain free =
      rw
        (← append_assoc (flatten (collect parts).groups) (ranges_text (folded_ranges parts))
          (codes "]"))
        (class_of-inside (flatten (collect parts).groups ++ ranges_text (folded_ranges parts))
          ∙ rw written_parts (
              parts_class-NoCaret ((collect parts).groups ++ written (folded_ranges parts)) free
              ∙ body-written false))

-- What is said of a class and the class that it becomes: the same groups and the same sense, the characters
-- of the class in both cases, and ranges with at least one character between them.
pub record IsFolded (c folded : CharClass) : Type 0 where
  pub inverse : folded.inverse ≡ c.inverse
  pub groups : folded.groups ≡ c.groups
  pub ranges : (x : ℕ) → covered x folded.ranges ≡ in_some_case x c.ranges
  pub separated : IsSeparated folded.ranges

folded_class-IsFolded :
    (inverse : Bool) (parts : List Text)
    → IsFolded (body_class inverse parts) (folded_class inverse parts)
folded_class-IsFolded inverse parts = record {
  inverse = refl;
  groups = refl;
  ranges = λ x. folded-covered x parts;
  separated = consolidate-IsSeparated (sort_ranges (collect parts).ranges);
}

inverse-IsFolded :
    (parts : List Text)
    → IsReadable (body_class true parts)
    → IsFolded (body_class true parts) (class_of (charset_text true (collect parts)))
inverse-IsFolded parts h =
    subst (IsFolded (body_class true parts))
      (sym (class_of-inverse parts (folded-IsSound parts h.forward h.no_null)))
      (folded_class-IsFolded true parts)

plain-IsFolded :
    (parts : List Text)
    → IsReadable (body_class false parts)
    → IsFolded (body_class false parts) (class_of (charset_text false (collect parts)))
plain-IsFolded parts h =
    subst (IsFolded (body_class false parts))
      (sym
        (class_of-plain parts (folded-IsSound parts h.forward h.no_null) (starts-NoCaret parts h)))
      (folded_class-IsFolded false parts)

fold_parts-IsFolded :
    (parts : List Text)
    → parts ≢ []
    → IsReadable (parts_class parts)
    → (out : Text) × (fold_parts parts ≡ some out) × IsFolded (parts_class parts) (class_of out)
fold_parts-IsFolded [] full h = absurd (full refl)
fold_parts-IsFolded (p ∷ parts) full h = elim (Bool-cases (eq_text p (codes "^"))) [
  | inl i ↦ rw i (charset_text true (collect parts), refl, inverse-IsFolded parts (rw i at h))
  | inr i ↦
      rw i (charset_text false (collect (p ∷ parts)), refl, plain-IsFolded (p ∷ parts) (rw i at h))
]

-- A class that has parts is rewritten, and read again by the same code it is a class of the same sense with
-- the same groups, whose ranges hold a character just when those of the class hold it or its letter in the
-- other case, with at least one character between two of them. The class spells no range backwards, lacks
-- the null character, and its caret does not come to stand first.
pub case_fold_charset-IsFolded :
    (char_set : Text)
    → class_parts char_set ≢ []
    → IsReadable (class_of char_set)
    → (out : Text) × (case_fold_charset char_set ≡ some out)
      × IsFolded (class_of char_set) (class_of out)
unfolding case_fold_charset
case_fold_charset-IsFolded char_set = fold_parts-IsFolded (class_parts char_set)
