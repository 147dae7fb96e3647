-- ===== src/Tests/Lexer.antt =====
-- A handler that embeds another one, as `createSimpleLexer` of `webapps/admin/js/prettify.js` builds them.
use mathlib.Core.List.{flatten}
use java_study_project.Base.{
  ℕ, ◌+◌, ◌<◌, ◌≡◌, ◌≢◌, refl, arith, Option, none, some, List, [], ◌∷◌, ◌==◌, if◌then◌else◌,
  length, inl, inr, Option-cases, Bool-cases, append-nil, ◌⊎◌,
}
use java_study_project.Text.{Text, codes, index_of}
use java_study_project.Prettify.Recombine.{Mark}
use java_study_project.Prettify.Lexer.{
  Match, Lexer, Handlers, Cache, cached, embedded, plain_token, classify, kind_of, choose_style,
  fall_through, pr_plain, decorate, registered, register_lang_handler, lang_handler_for_extension,
}
use java_study_project.Prettify.Lexer.Sound.{IsSound}
use java_study_project.Prettify.Lexer.Order.{IsOrdered}
use java_study_project.Prettify.Lexer.Fuel.{IsGraded, decorate_total}
use java_study_project.Prettify.Lexer.Afresh.{decorate_afresh, decorate-afresh}
use java_study_project.Prettify.Lexer.Registry.{or_else, names, registered-register_lang_handler}

abbrev whole : Text → List Text
whole [] = []
whole (c ∷ s) = (c ∷ s) ∷ []

abbrev never : Text → Option Match
never s = none

-- An x at the second place is of another language.
abbrev second_x : Text → Option Match
second_x [] = none
second_x (c ∷ []) = none
second_x (c ∷ d ∷ s) = if d == b'x' then some (record { group = b'x' ∷ [] }) else none

abbrev pub inner : Lexer
inner = record {
  shortcut_patterns = [];
  first = record { style = codes "kwd"; matches = never; shortcut = [] };
  others = [];
  tokenize = whole;
}

abbrev outer : Lexer
outer = record {
  shortcut_patterns = [];
  first = record { style = codes "lang-inner"; matches = second_x; shortcut = [] };
  others = [];
  tokenize = whole;
}

abbrev pub handlers : Handlers
handlers = (codes "inner", inner) ∷ []

whole_cuts : (source : Text) → flatten (whole source) ≡ source
unfolding flatten
whole_cuts [] = refl
whole_cuts (c ∷ s) = rw append-nil

inner-IsSound : IsSound inner
inner-IsSound = record { cuts = whole_cuts; inside = ((λ token m e. cc), tt) }

second_x-inside :
    (token : Text) (m : Match) → second_x token ≡ some m → index_of m.group token ≢ none
second_x-inside [] m e = cc
second_x-inside (c ∷ []) m e = cc
second_x-inside (c ∷ d ∷ s) m e = elim (Bool-cases (d == b'x')) [
  | inl h ↦
      let same : some (record { group = b'x' ∷ [] }) ≡ some m = rw h at e in
      let found : m ≡ record { group = b'x' ∷ [] } = cc in rw found (rw h (ground arith))
  | inr h ↦ let missing : none ≡ some m = rw h at e in cc
]

outer-IsSound : IsSound outer
outer-IsSound = record { cuts = whole_cuts; inside = (second_x-inside, tt) }

not_cached :
    (lx : Lexer) (c : Cache) (token lang source : Text)
    → classify lx c token ≡ embedded lang source
    → kind_of (choose_style lx token) ≡ embedded lang source
unfolding classify
not_cached lx c token lang source e = elim (Option-cases (cached token c)) [
  | inl s ↦ rw (s, classify) at e
  | inr (style, s) ↦
      let plain : plain_token style ≡ embedded lang source = rw (s, classify) at e in cc
]

inner_kind : (token : Text) → kind_of (choose_style inner token) ≡ plain_token pr_plain
unfolding choose_style
inner_kind [] = refl
inner_kind (c ∷ s) = refl

Embeds : Text → Text → Text → Type 0
Embeds token lang source = (lang ≡ codes "inner") × (source ≡ b'x' ∷ []) × (1 < length token)

outer_pair :
    (x d : ℕ) (s : Text)
    → kind_of (choose_style outer (x ∷ d ∷ s))
      ≡ (if d == b'x' then embedded (codes "inner") (b'x' ∷ []) else plain_token pr_plain)
unfolding choose_style
outer_pair x d s = elim (Bool-cases (d == b'x')) [
  | inl h ↦ rw (h, choose_style, fall_through)
  | inr h ↦ rw (h, choose_style, fall_through)
]

outer_kind :
    (token lang source : Text)
    → kind_of (choose_style outer token) ≡ embedded lang source
    → Embeds token lang source
unfolding choose_style Embeds
outer_kind [] lang source e = cc
outer_kind (x ∷ []) lang source e = cc
outer_kind (x ∷ d ∷ s) lang source e = elim (Bool-cases (d == b'x')) [
  | inl h ↦
      let k : embedded (codes "inner") (b'x' ∷ []) ≡ embedded lang source =
        rw (outer_pair x d s, h) at e in
      (cc, cc, omega arith)
  | inr h ↦
      let k : plain_token pr_plain ≡ embedded lang source = rw (outer_pair x d s, h) at e in cc
]

pub inner-IsGraded : IsGraded handlers (λ _. 0) 0 inner
inner-IsGraded = record {
  sound = inner-IsSound;
  within = omega arith;
  falls = λ c token lang source e.
      let k = not_cached inner c token lang source e in
      let p : plain_token pr_plain ≡ embedded lang source = rw (inner_kind token) at k in cc;
}

inner_found :
    (source : Text) → lang_handler_for_extension handlers (codes "inner") source ≡ some inner
unfolding lang_handler_for_extension
inner_found source = refl

outer_falls :
    (token lang source : Text)
    → Embeds token lang source
    → (h : Lexer) × (lang_handler_for_extension handlers lang source ≡ some h)
      × ((length source < length token) ⊎ (0 < 0))
unfolding Embeds
outer_falls token lang source (l, s, n) = (inner, rw l (inner_found source), inl (rw s n))

outer-IsGraded : IsGraded handlers (λ _. 0) 0 outer
outer-IsGraded = record {
  sound = outer-IsSound;
  within = omega arith;
  falls = λ c token lang source e.
      outer_falls token lang source
        (outer_kind token lang source (not_cached outer c token lang source e));
}

decorate_total_example :
    (ms : List Mark) × (decorate handlers 10 outer (codes "axb") 0 ≡ some ms)
    × IsOrdered 0 (0 + length (codes "axb")) ms
decorate_total_example =
    decorate_total handlers (λ _. 0) 0 (inner-IsGraded, tt) 10 outer (codes "axb") 0 outer-IsGraded
      (omega arith)

registered-register_lang_handler_example :
    registered (codes "js") (register_lang_handler outer (codes "js" ∷ codes "inner" ∷ []) handlers)
    ≡ or_else
        (registered (codes "js") handlers)
        (if names (codes "js") (codes "js" ∷ codes "inner" ∷ []) then some outer else none)
registered-register_lang_handler_example =
    registered-register_lang_handler outer (codes "js" ∷ codes "inner" ∷ []) handlers (codes "js")

abbrev mark : ℕ → Text → Mark
mark n style = record { at = n; text = style }

marks_of_axb :
    decorate handlers 10 outer (codes "axb") 0
    ≡ some (
        mark 0 pr_plain
        ∷ mark 0 pr_plain
        ∷ mark 0 pr_plain
        ∷ mark 1 pr_plain
        ∷ mark 1 pr_plain
        ∷ mark 2 pr_plain
        ∷ mark 2 pr_plain
        ∷ [])
unfolding decorate lang_handler_for_extension classify
marks_of_axb = refl

abbrev in_pairs : Text → List Text
in_pairs [] = []
in_pairs (c ∷ []) = (c ∷ []) ∷ []
in_pairs (c ∷ d ∷ s) = (c ∷ d ∷ []) ∷ in_pairs s

abbrev outer_pairs : Lexer
outer_pairs = record outer { tokenize = in_pairs }

decorate-afresh_example :
    decorate handlers 4 outer_pairs (codes "ababaxax") 0
    ≡ decorate_afresh handlers 4 outer_pairs (codes "ababaxax") 0
decorate-afresh_example = decorate-afresh handlers 4 outer_pairs (codes "ababaxax") 0
