-- ===== src/Prettify/Lexer/Chosen.antt =====
-- The pattern that a piece of another language comes from.
use mathlib.Core.Path.{subst}
use java_study_project.Base.{
  ℕ, ◌≡◌, refl, sym, ap, ◌∙◌, true, Option, none, some, List, [], ◌∷◌, drop, All, All-append_right,
  inl, inr, Option-cases, Bool-cases, if◌then◌else◌,
}
use java_study_project.Text.{Text, codes, starts_with}
use java_study_project.Prettify.Lexer.{
  Match, Pattern, Lexer, plain_token, embedded, includes, shortcut_for, fall_through, choose_style,
  head_shortcut, all_patterns, kind_of, embed_group, embed_or_source, classify, Cache, cached,
}

-- A pattern of a kind that matched, with its style.
record Chosen (P : Pattern → Type 0) (token : Text) (style : Text) (m : Match) : Type 0 where
  pattern : Pattern
  holds : P pattern
  matched : pattern.matches token ≡ some m
  styled : pattern.style ≡ style

module _ (P : Pattern → Type 0) where
  shortcut_for-All :
      (c : ℕ) (ps : List Pattern) (p : Pattern) → All P ps → shortcut_for c ps ≡ some p → P p
  unfolding shortcut_for
  shortcut_for-All c [] p h e = cc
  shortcut_for-All c (q ∷ ps) p h e = elim (Option-cases (shortcut_for c ps)) [
    | inr (r, s) ↦ shortcut_for-All c ps p h.1 (s ∙ (rw (s, shortcut_for) at e))
    | inl s ↦
        let e' : (if includes c q.shortcut then some q else none) ≡ some p =
          rw (s, shortcut_for) at e in
        elim (Bool-cases (includes c q.shortcut)) [
          | inl i ↦ let same : some q ≡ some p = rw i at e' in let eq : q ≡ p = cc in subst P eq h.0
          | inr i ↦ let n : none ≡ some p = rw i at e' in cc
        ]
  ]

  fall_through-Chosen :
      (token : Text) (ps : List Pattern) (m : Match)
      → All P ps
      → (fall_through token ps).found ≡ some m
      → Chosen P token (fall_through token ps).style m
  unfolding fall_through
  fall_through-Chosen token [] m h e = cc
  fall_through-Chosen token (p ∷ ps) m h e = elim (Option-cases (p.matches token)) [
    | inl s ↦ rw (s, fall_through) (fall_through-Chosen token ps m h.1 (rw (s, fall_through) at e))
    | inr (n, s) ↦
        rw (s, fall_through)
          (record {
            pattern = p;
            holds = h.0;
            matched = s ∙ (rw (s, fall_through) at e);
            styled = refl;
          })
  ]

  head_shortcut-All :
      (lx : Lexer) (token : Text) (p : Pattern)
      → All P (all_patterns lx)
      → head_shortcut lx token ≡ some p
      → P p
  head_shortcut-All lx [] p h e = cc
  head_shortcut-All lx (c ∷ s) p h e = shortcut_for-All c (all_patterns lx) p h e

  choose_style-Chosen :
      (lx : Lexer) (token : Text) (m : Match)
      → All P (all_patterns lx)
      → (choose_style lx token).found ≡ some m
      → Chosen P token (choose_style lx token).style m
  unfolding choose_style
  choose_style-Chosen lx token m h e = elim (Option-cases (head_shortcut lx token)) [
    | inl s ↦
        rw (s, choose_style)
          (fall_through-Chosen token (lx.first ∷ lx.others) m
            (All-append_right P lx.shortcut_patterns (lx.first ∷ lx.others) h)
            (rw (s, choose_style) at e))
    | inr (p, s) ↦
        rw (s, choose_style)
          (record {
            pattern = p;
            holds = head_shortcut-All lx token p h s;
            matched = rw (s, choose_style) at e;
            styled = refl;
          })
  ]

embed_group-lang :
    (style group lang source : Text)
    → embed_group style group ≡ embedded lang source
    → (group ≡ source) × (lang ≡ drop 5 style)
embed_group-lang style [] lang source e = cc
embed_group-lang style (c ∷ s) lang source e = (cc, cc)

embed_or_source-lang :
    (style : Text) (found : Option Match) (lang source : Text)
    → embed_or_source style found ≡ embedded lang source
    → (m : Match) × (found ≡ some m) × (m.group ≡ source) × (lang ≡ drop 5 style)
embed_or_source-lang style none lang source e = cc
embed_or_source-lang style (some m) lang source e =
    let (group, named) = embed_group-lang style m.group lang source e in (m, refl, group, named)

-- Of the patterns of a lexer one matched the token, its style names the language, and its group is the
-- piece.
pub classify-pattern :
    (P : Pattern → Type 0) (lx : Lexer) (c : Cache) (token lang source : Text)
    → All P (all_patterns lx)
    → classify lx c token ≡ embedded lang source
    → (p : Pattern) × (m : Match) × P p
      × (p.matches token ≡ some m)
      × (m.group ≡ source)
      × (starts_with (codes "lang-") p.style ≡ true)
      × (lang ≡ drop 5 p.style)
unfolding classify
classify-pattern P lx c token lang source h e = elim (Option-cases (cached token c)) [
  | inr (style, s) ↦ let n : plain_token style ≡ embedded lang source = rw (s, classify) at e in cc
  | inl s ↦
      let k : kind_of (choose_style lx token) ≡ embedded lang source = rw (s, classify) at e in
      let styled = choose_style lx token in
      elim (Bool-cases (starts_with (codes "lang-") styled.style)) [
        | inr l ↦ let n : plain_token styled.style ≡ embedded lang source = rw l at k in cc
        | inl l ↦
            let (m, found, group, named) =
              embed_or_source-lang styled.style styled.found lang source (rw l at k) in
            let chosen = choose_style-Chosen P lx token m h found in
            (
              chosen.pattern,
              m,
              chosen.holds,
              chosen.matched,
              group,
              rw chosen.styled l,
              named ∙ ap (drop 5) (sym chosen.styled),
            )
      ]
]
