-- ===== src/Prettify/Lexer/Sound.antt =====
-- What is relied on of the regular expressions of a lexer: the tokens are the source cut in pieces
-- (the tokenizer's last alternative matches any character), and group 1 is a part of its token.
use mathlib.Core.List.{flatten}
use mathlib.Core.Path.{subst}
use java_study_project.Base.{
  ℕ, ◌≡◌, ◌≢◌, refl, Option, none, some, List, [], ◌∷◌, All, All-append_right, inl, inr,
  Option-cases, Bool-cases, if◌then◌else◌, ◌∙◌,
}
use java_study_project.Text.{Text, eq_text, index_of, codes, starts_with}
use java_study_project.Prettify.Lexer.{
  Match, Pattern, Lexer, plain_token, embedded, Handlers, Styled, includes, shortcut_for,
  fall_through, choose_style, head_shortcut, all_patterns, kind_of, embed_group, embed_or_source,
  classify, Cache, cached, registered, lang_handler_for_extension, default_extension,
}

abbrev pub GroupsInside : Pattern → Type 0
GroupsInside p =
    (token : Text) (m : Match) → p.matches token ≡ some m → index_of m.group token ≢ none

pub record IsSound (lx : Lexer) : Type 0 where
  pub cuts : (source : Text) → flatten (lx.tokenize source) ≡ source
  pub inside : All GroupsInside (all_patterns lx)

-- Every handler of the registry.
abbrev pub AllHandlers : (Lexer → Type 0) → Handlers → Type 0
AllHandlers P [] = Unit
AllHandlers P (h ∷ hs) = P h.1 × AllHandlers P hs

shortcut_for-GroupsInside :
    (c : ℕ) (ps : List Pattern) (p : Pattern)
    → All GroupsInside ps
    → shortcut_for c ps ≡ some p
    → GroupsInside p
unfolding shortcut_for
shortcut_for-GroupsInside c [] p h e = cc
shortcut_for-GroupsInside c (q ∷ ps) p h e = elim (Option-cases (shortcut_for c ps)) [
  | inr (r, s) ↦ shortcut_for-GroupsInside c ps p h.1 (s ∙ (rw (s, shortcut_for) at e))
  | inl s ↦
      let e' : (if includes c q.shortcut then some q else none) ≡ some p =
        rw (s, shortcut_for) at e in
      elim (Bool-cases (includes c q.shortcut)) [
        | inl i ↦
            let same : some q ≡ some p = rw i at e' in
            let eq : q ≡ p = cc in subst GroupsInside eq h.0
        | inr i ↦ let n : none ≡ some p = rw i at e' in cc
      ]
]

fall_through-inside :
    (token : Text) (ps : List Pattern) (m : Match)
    → All GroupsInside ps
    → (fall_through token ps).found ≡ some m
    → index_of m.group token ≢ none
unfolding fall_through
fall_through-inside token [] m h e = cc
fall_through-inside token (p ∷ ps) m h e = elim (Option-cases (p.matches token)) [
  | inl s ↦ fall_through-inside token ps m h.1 (rw (s, fall_through) at e)
  | inr (n, s) ↦ h.0 token m (s ∙ (rw (s, fall_through) at e))
]

head_shortcut-GroupsInside :
    (lx : Lexer) (token : Text) (p : Pattern)
    → IsSound lx
    → head_shortcut lx token ≡ some p
    → GroupsInside p
head_shortcut-GroupsInside lx [] p h e = cc
head_shortcut-GroupsInside lx (c ∷ s) p h e =
    shortcut_for-GroupsInside c (all_patterns lx) p h.inside e

choose_style-inside :
    (lx : Lexer) (token : Text) (m : Match)
    → IsSound lx
    → (choose_style lx token).found ≡ some m
    → index_of m.group token ≢ none
unfolding choose_style
choose_style-inside lx token m h e = elim (Option-cases (head_shortcut lx token)) [
  | inl s ↦
      fall_through-inside token (lx.first ∷ lx.others) m
        (All-append_right GroupsInside lx.shortcut_patterns (lx.first ∷ lx.others) h.inside)
        (rw (s, choose_style) at e)
  | inr (p, s) ↦ head_shortcut-GroupsInside lx token p h s token m (rw (s, choose_style) at e)
]

embed_group-found :
    (style group lang source : Text)
    → embed_group style group ≡ embedded lang source
    → (group ≡ source) × (source ≢ [])
embed_group-found style [] lang source e = cc
embed_group-found style (c ∷ s) lang source e = (cc, λ empty. cc)

-- A piece of another language comes from a match, is not empty, and is a part of the token.
embed_or_source-found :
    (style : Text) (found : Option Match) (lang source : Text)
    → embed_or_source style found ≡ embedded lang source
    → (m : Match) × (found ≡ some m) × (m.group ≡ source) × (source ≢ [])
embed_or_source-found style none lang source e = cc
embed_or_source-found style (some m) lang source e =
    let (group, full) = embed_group-found style m.group lang source e in (m, refl, group, full)

kind_of-found :
    (s : Styled) (lang source : Text)
    → kind_of s ≡ embedded lang source
    → (m : Match) × (s.found ≡ some m) × (m.group ≡ source) × (source ≢ [])
kind_of-found s lang source e = elim (Bool-cases (starts_with (codes "lang-") s.style)) [
  | inl l ↦ embed_or_source-found s.style s.found lang source (rw l at e)
  | inr l ↦ let n : plain_token s.style ≡ embedded lang source = rw l at e in cc
]

pub classify-embedded :
    (lx : Lexer) (c : Cache) (token lang source : Text)
    → IsSound lx
    → classify lx c token ≡ embedded lang source
    → (index_of source token ≢ none) × (source ≢ [])
unfolding classify
classify-embedded lx c token lang source h e = elim (Option-cases (cached token c)) [
  | inr (style, s) ↦ let n : plain_token style ≡ embedded lang source = rw (s, classify) at e in cc
  | inl s ↦
      let (m, found, group, full) =
        kind_of-found (choose_style lx token) lang source (rw (s, classify) at e) in
      (rw (← group) (choose_style-inside lx token m h found), full)
]

module _ (P : Lexer → Type 0) where
  registered-AllHandlers :
      (ext : Text) (hs : Handlers) (h : Lexer) → AllHandlers P hs → registered ext hs ≡ some h → P h
  registered-AllHandlers ext [] h a e = cc
  registered-AllHandlers ext ((k, x) ∷ hs) h a e = elim (Bool-cases (eq_text k ext)) [
    | inl i ↦ let same : some x ≡ some h = rw i at e in let eq : x ≡ h = cc in subst P eq a.0
    | inr i ↦ registered-AllHandlers ext hs h a.1 (rw i at e)
  ]

  -- What holds of every handler holds of the one that is found for a piece of source.
  pub lang_handler-AllHandlers :
      (hs : Handlers) (ext source : Text) (h : Lexer)
      → AllHandlers P hs
      → lang_handler_for_extension hs ext source ≡ some h
      → P h
  unfolding lang_handler_for_extension
  lang_handler-AllHandlers hs ext source h a e = elim (Option-cases (registered ext hs)) [
    | inl s ↦
        registered-AllHandlers (default_extension source) hs h a
          (rw (s, lang_handler_for_extension) at e)
    | inr (x, s) ↦
        let e' : (if eq_text ext [] then registered (default_extension source) hs else some x)
            ≡ some h =
          rw (s, lang_handler_for_extension) at e in
        elim (Bool-cases (eq_text ext [])) [
          | inl i ↦ registered-AllHandlers (default_extension source) hs h a (rw i at e')
          | inr i ↦ registered-AllHandlers ext hs h a (s ∙ (rw i at e'))
        ]
  ]
