-- ===== src/Prettify/Recombine/Adjacent.antt =====
-- `adjacentSpaceRe`: where it puts `&nbsp;` into an escaped text, the text is still shown.
use mathlib.Core.List.{flat_map}
use mathlib.Core.Path.{subst}
use java_study_project.Base.{
  ℕ, Bool, true, false, ◌&&◌, ◌||◌, ◌≡◌, ◌≢◌, refl, sym, ap, ◌∙◌, arith, [], ◌∷◌, ◌++◌, ◌==◌,
  Bool-cases, inl, inr, ==_iff, and_split,
}
use java_study_project.Text.{Text, codes}
use java_study_project.Prettify.Html.Escape.{text_escape}
use java_study_project.Prettify.Recombine.Chunk.{adjacent_spaces}
use java_study_project.Prettify.Recombine.Displayed.{
  Entity, amp, lt, gt, nbsp, Shows, nil, plain, entity,
}

-- How a character is escaped: as an entity, or as itself.
pub data Escaped (c : ℕ) : Type 0 where
  as_entity : (e : Text) → Entity e c → text_escape c ≡ b'&' ∷ e → Escaped c
  as_itself : c ≢ b'&' → c ≢ b'<' → text_escape c ≡ c ∷ [] → Escaped c

pub escaped : (c : ℕ) → Escaped c
unfolding text_escape
escaped c = elim (Bool-cases (c == b'&')) [
  | inl e ↦ subst Escaped (sym ((==_iff c b'&').0 e)) (as_entity (codes "amp;") amp refl)
  | inr n ↦ elim (Bool-cases (c == b'<')) [
    | inl e ↦ subst Escaped (sym ((==_iff c b'<').0 e)) (as_entity (codes "lt;") lt refl)
    | inr m ↦ elim (Bool-cases (c == b'>')) [
      | inl e ↦ subst Escaped (sym ((==_iff c b'>').0 e)) (as_entity (codes "gt;") gt refl)
      | inr k ↦ as_itself (ground arith) (ground arith) (rw (n, m, k))
    ]
  ]
]

abbrev pub starts_blank : Text → Bool
starts_blank [] = false
starts_blank (c ∷ s) = c == b' '

pub before_blank : ℕ → Bool
before_blank c = c == 0xd || c == 0xa || c == 0x20

escaped_head : (c : ℕ) (t : Text) → starts_blank (text_escape c ++ t) ≡ (c == b' ')
unfolding text_escape
escaped_head c t = ground arith

pub escaped_blank : (s : Text) → starts_blank (flat_map text_escape s) ≡ starts_blank s
unfolding flat_map
escaped_blank [] = refl
escaped_blank (c ∷ s) = escaped_head c (flat_map text_escape s) ∙ refl

adjacent-cons :
    (c : ℕ) (h : Text)
    → (before_blank c && starts_blank h) ≡ false
    → adjacent_spaces (c ∷ h) ≡ c ∷ adjacent_spaces h
unfolding adjacent_spaces before_blank
adjacent-cons c [] n = refl
adjacent-cons c (d ∷ h) n = rw n

adjacent-pair :
    (c : ℕ) (h : Text)
    → before_blank c ≡ true
    → adjacent_spaces (c ∷ b' ' ∷ h) ≡ c ∷ codes "&nbsp;" ++ adjacent_spaces h
unfolding adjacent_spaces before_blank
adjacent-pair c h e = rw e

adjacent-Entity :
    {c : ℕ} (e h : Text)
    → Entity e c
    → adjacent_spaces (b'&' ∷ e ++ h) ≡ b'&' ∷ e ++ adjacent_spaces h
unfolding adjacent_spaces
adjacent-Entity e [] amp = refl
adjacent-Entity e [] lt = refl
adjacent-Entity e [] gt = refl
adjacent-Entity e [] nbsp = refl
adjacent-Entity e (d ∷ h) amp = refl
adjacent-Entity e (d ∷ h) lt = refl
adjacent-Entity e (d ∷ h) gt = refl
adjacent-Entity e (d ∷ h) nbsp = refl

pub Shows-cast : {g h s : Text} → g ≡ h → Shows h s → Shows g s
Shows-cast {s} p r = subst (λ t. Shows t s) (sym p) r

-- The escaped text.
abbrev pub html_of : Text → Text
html_of s = flat_map text_escape s

adjacent_step :
    (c : ℕ) (s : Text)
    → (before_blank c && starts_blank s) ≡ false
    → Shows (adjacent_spaces (html_of s)) s
    → Shows (adjacent_spaces (html_of (c ∷ s))) (c ∷ s)
unfolding flat_map
adjacent_step c s n r = elim (escaped c) [
  | as_entity e en q ↦
      Shows-cast (ap (λ t. adjacent_spaces (t ++ html_of s)) q ∙ adjacent-Entity e (html_of s) en)
        (entity en r)
  | as_itself a b q ↦
      let m : (before_blank c && starts_blank (html_of s)) ≡ false = rw (escaped_blank s) n in
      Shows-cast (ap (λ t. adjacent_spaces (t ++ html_of s)) q ∙ adjacent-cons c (html_of s) m)
        (plain a b r)
]

-- A blank is no entity, nor is what stands in front of it where it is replaced.
itself : (c : ℕ) → before_blank c ≡ true → text_escape c ≡ c ∷ []
unfolding before_blank text_escape
itself c h = ground arith

itself_plain : (c : ℕ) → before_blank c ≡ true → (c ≢ b'&') × (c ≢ b'<')
unfolding before_blank
itself_plain c h = ground arith

pub html_of-blank : (s : Text) → html_of (b' ' ∷ s) ≡ b' ' ∷ html_of s
unfolding flat_map text_escape
html_of-blank s = refl

html_of-itself : (c : ℕ) (s : Text) → before_blank c ≡ true → html_of (c ∷ s) ≡ c ∷ html_of s
unfolding flat_map
html_of-itself c s h = ap (λ t. t ++ html_of s) (itself c h)

adjacent_pair :
    (c : ℕ) (s : Text)
    → before_blank c ≡ true
    → Shows (adjacent_spaces (html_of s)) s
    → Shows (adjacent_spaces (html_of (c ∷ b' ' ∷ s))) (c ∷ b' ' ∷ s)
adjacent_pair c s h r =
    Shows-cast
      (ap adjacent_spaces (html_of-itself c (b' ' ∷ s) h ∙ ap (◌∷◌ c) (html_of-blank s))
        ∙ adjacent-pair c (html_of s) h)
      (plain (itself_plain c h).0 (itself_plain c h).1 (entity nbsp r))

pub adjacent-Shows : (s : Text) → Shows (adjacent_spaces (html_of s)) s
adjacent-Shows [] = unfold adjacent_spaces flat_map in nil
adjacent-Shows (c ∷ []) = adjacent_step c [] (ground arith) (adjacent-Shows [])
adjacent-Shows (c ∷ d ∷ s) = elim (Bool-cases (before_blank c && (d == b' '))) [
  | inl e ↦
      let (h, k) = and_split (before_blank c) (d == b' ') e in
      subst (λ x. Shows (adjacent_spaces (html_of (c ∷ x ∷ s))) (c ∷ x ∷ s))
        (sym ((==_iff d b' ').0 k)) (adjacent_pair c s h (adjacent-Shows s))
  | inr n ↦ adjacent_step c (d ∷ s) (n) (adjacent-Shows (d ∷ s))
]
