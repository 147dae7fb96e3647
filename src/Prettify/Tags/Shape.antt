-- ===== src/Prettify/Tags/Shape.antt =====
-- The chunks that begin with `<`: comments, sections and tags.
use mathlib.Core.Path.{subst}
use java_study_project.Base.{
  ℕ, zero, suc, ◌+◌, ◌≤◌, ◌≡◌, ◌≢◌, refl, sym, arith, Bool, true, false, none, [], ◌∷◌, ◌==◌,
  ==_iff, if◌then◌else◌, length, take, drop, All, ◌⊎◌, inl, inr, Bool-cases, Option-cases,
  and_split,
}
use java_study_project.Text.{Text, codes, starts_with, index_of}
use java_study_project.Prettify.Tags.{
  is_letter, run_length, up_to, is_tag_start, markup_length, chunks, letters, named, tag_name,
  is_markup_chunk,
}

abbrev pub is_comment : Text → Bool
is_comment = starts_with (codes "<!--")

-- A section of CDATA.
abbrev pub is_section : Text → Bool
is_section = starts_with (codes "<![CDATA[")

starts_with-take :
    (p s : Text) (n : ℕ) → length p ≤ n → starts_with p s ≡ true → starts_with p (take n s) ≡ true
starts_with-take [] s n h e = refl
starts_with-take (c ∷ p) [] n h e = cc
starts_with-take (c ∷ p) (d ∷ s) zero h e = absurd (omega arith)
starts_with-take (c ∷ p) (d ∷ s) (suc n) h e =
    let (same, rest) = and_split (d == c) (starts_with p s) e in
    rw same (starts_with-take p s n (omega arith) rest)

up_to-cases :
    (opening : ℕ) (closing s : Text)
    → (up_to opening closing s ≡ 0) ⊎ (opening + length closing ≤ up_to opening closing s)
up_to-cases opening closing s = elim (Option-cases (index_of closing (drop opening s))) [
  | inl e ↦ rw (up_to, e) (inl refl)
  | inr (k, e) ↦ rw (up_to, e) (inr (omega arith))
]

letters-named :
    (closing : Bool) (c : ℕ) (s : Text)
    → is_letter c ≡ true
    → named closing (letters (c ∷ s)) ≢ none
letters-named closing c s h = rw h (λ n. cc)

-- What follows a `<` as a tag does has a name within its first two characters.
tag_start-tag_name :
    (s : Text) (n : ℕ) → is_tag_start s ≡ true → 2 ≤ n → tag_name (b'<' ∷ take n s) ≢ none
tag_start-tag_name [] n h two = cc
tag_start-tag_name (d ∷ t) zero h two = absurd (omega arith)
tag_start-tag_name (d ∷ t) (suc zero) h two = absurd (omega arith)
tag_start-tag_name (d ∷ []) (suc (suc n)) h two = elim (Bool-cases (d == b'/')) [
  | inl e ↦ absurd (ground arith)
  | inr e ↦ let letter : is_letter d ≡ true = ground arith in rw e (letters-named false d [] letter)
]
tag_start-tag_name (d ∷ e ∷ t) (suc (suc n)) h two = elim (Bool-cases (d == b'/')) [
  | inl same ↦
      let letter : is_letter e ≡ true = ground arith in
      rw same (letters-named true e (take n t) letter)
  | inr other ↦
      let letter : is_letter d ≡ true = ground arith in
      rw other (letters-named false d (e ∷ take n t) letter)
]

-- A chunk that begins with `<` and is neither a comment nor a section is a tag with a name.
abbrev pub IsTagged : Text → Type 0
IsTagged m =
    is_markup_chunk m ≡ true → is_comment m ≡ false → is_section m ≡ false → tag_name m ≢ none

comment_chunk :
    (s : Text) (n : ℕ)
    → starts_with (codes "!--") s ≡ true
    → 3 ≤ n
    → is_comment (b'<' ∷ take n s) ≡ true
comment_chunk s n h long = starts_with-take (codes "!--") s n long h

section_chunk :
    (s : Text) (n : ℕ)
    → starts_with (codes "![CDATA[") s ≡ true
    → 8 ≤ n
    → is_section (b'<' ∷ take n s) ≡ true
section_chunk s n h long = starts_with-take (codes "![CDATA[") s n long h

empty_chunk : (s : Text) (n : ℕ) → n ≡ 0 → IsTagged (b'<' ∷ take n s)
empty_chunk s n e = rw e (λ markup comment section. cc)

markup-IsTagged : (s : Text) → IsTagged (b'<' ∷ take (markup_length s) s)
unfolding markup_length
markup-IsTagged s = elim (Bool-cases (starts_with (codes "!--") s)) [
  | inl e ↦ rw e (elim (up_to-cases 3 (codes "-->") s) [
    | inl short ↦ empty_chunk s _ short
    | inr long ↦ λ markup comment section.
        let is : is_comment (b'<' ∷ take (up_to 3 (codes "-->") s) s) ≡ true =
          comment_chunk s _ e (omega arith) in
        cc
  ])
  | inr e ↦ rw e (elim (Bool-cases (starts_with (codes "![CDATA[") s)) [
    | inl f ↦ rw f (elim (up_to-cases 8 (codes "]]>") s) [
      | inl short ↦ empty_chunk s _ short
      | inr long ↦ λ markup comment section.
          let is : is_section (b'<' ∷ take (up_to 8 (codes "]]>") s) s) ≡ true =
            section_chunk s _ f (omega arith) in
          cc
    ])
    | inr f ↦ rw f (elim (Bool-cases (is_tag_start s)) [
      | inr g ↦ rw g (λ markup comment section. cc)
      | inl g ↦ rw g (elim (up_to-cases 1 (codes ">") s) [
        | inl short ↦ empty_chunk s _ short
        | inr long ↦ λ markup comment section. tag_start-tag_name s _ g (omega arith)
      ])
    ])
  ])
]

chunk-IsTagged :
    (c : ℕ) (s : Text) → IsTagged (c ∷ take (if c == b'<' then markup_length s else run_length s) s)
chunk-IsTagged c s = elim (Bool-cases (c == b'<')) [
  | inl e ↦ rw ((==_iff c b'<').0 e) (markup-IsTagged s)
  | inr e ↦
      subst (λ b. IsTagged (c ∷ take (if b then markup_length s else run_length s) s)) (sym e)
        (plain c e (take (run_length s) s))
]
  where
    plain : (c : ℕ) → (c == b'<') ≡ false → (t : Text) → IsTagged (c ∷ t)
    plain c e [] = λ markup comment section. cc
    plain c e (d ∷ t) = λ markup comment section. cc

pub chunks-IsTagged : (s : Text) (k : ℕ) → All IsTagged (chunks s k)
unfolding chunks
chunks-IsTagged [] k = tt
chunks-IsTagged (c ∷ s) (suc k) = chunks-IsTagged s k
chunks-IsTagged (c ∷ s) zero = (chunk-IsTagged c s, chunks-IsTagged s _)
