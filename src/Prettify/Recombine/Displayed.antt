-- ===== src/Prettify/Recombine/Displayed.antt =====
-- What a browser shows of a chunk's html: an independent reading of the four entities and of the
-- line break that `emitTextUpTo` writes.
use java_study_project.Base.{
  ℕ, zero, suc, Bool, true, false, ◌≡◌, ◌≢◌, refl, sym, append-nil, ap, ◌∙◌, arith, Option, none,
  some, List, [], ◌∷◌, ◌++◌, length, ◌==◌, if◌then◌else◌, Bool-cases, inl, inr,
}
use java_study_project.Text.{Text, codes, starts_with, replace_char, Lacks}
use java_study_project.Prettify.Recombine.{line_break}
use java_study_project.Prettify.Recombine.Chunk.{break_lines}

-- What shows as a character of its own, and the character.
abbrev glyphs : List (Text × ℕ)
glyphs =
    (codes "&amp;", b'&')
    ∷ (codes "&lt;", b'<')
    ∷ (codes "&gt;", b'>')
    ∷ (codes "&nbsp;", b' ')
    ∷ (codes "<br />", 0xa)
    ∷ []

abbrev glyph_at : List (Text × ℕ) → Text → Option (Text × ℕ)
glyph_at [] s = none
glyph_at ((w, c) ∷ gs) s = if starts_with w s then some (w, c) else glyph_at gs s

-- The text that is shown. The number counts the characters of a glyph that are still to be skipped.
unfoldable pub displayed_from : ℕ → Text → Text
displayed_from k [] = []
displayed_from (suc k) (c ∷ s) = displayed_from k s
displayed_from zero (c ∷ s) = elim (glyph_at glyphs (c ∷ s)) [
  | none ↦ c ∷ displayed_from 0 s
  | some ([], d) ↦ d ∷ displayed_from 0 s
  | some (x ∷ w, d) ↦ d ∷ displayed_from (length w) s
]

abbrev pub displayed : Text → Text
displayed s = displayed_from 0 s

-- The entities but for their `&`.
pub data Entity : Text → ℕ → Type 0 where
  amp : Entity (codes "amp;") b'&'
  lt : Entity (codes "lt;") b'<'
  gt : Entity (codes "gt;") b'>'
  nbsp : Entity (codes "nbsp;") b' '

-- `Shows html s`: character by character, `html` is `s` written as it is or as an entity.
pub data Shows : Text → Text → Type 0 where
  nil : Shows [] []
  plain : {c : ℕ} {g t : Text} → c ≢ b'&' → c ≢ b'<' → Shows g t → Shows (c ∷ g) (c ∷ t)
  entity : {c : ℕ} {e g t : Text} → Entity e c → Shows g t → Shows (b'&' ∷ e ++ g) (c ∷ t)

displayed-plain : (c : ℕ) (s : Text) → c ≢ b'&' → c ≢ b'<' → displayed (c ∷ s) ≡ c ∷ displayed s
unfolding displayed_from
displayed-plain c s a l =
    let na : (c == b'&') ≡ false = ground arith in
    let nl : (c == b'<') ≡ false = ground arith in rw (displayed_from, na, nl)

displayed-Entity : (c : ℕ) (e s : Text) → Entity e c → displayed (b'&' ∷ e ++ s) ≡ c ∷ displayed s
unfolding displayed_from
displayed-Entity c e s amp = refl
displayed-Entity c e s lt = refl
displayed-Entity c e s gt = refl
displayed-Entity c e s nbsp = refl

-- How a line ends on the screen. In IE 6 there is a blank in front of the break.
abbrev pub line_end : Bool → Text
line_end is_ie6 = if is_ie6 then codes " \n" else codes "\n"

displayed-line_break :
    (is_ie6 : Bool) (s : Text) → displayed (line_break is_ie6 ++ s) ≡ line_end is_ie6 ++ displayed s
unfolding displayed_from
displayed-line_break true s = refl
displayed-line_break false s = refl

break_lines-cons :
    (b : Text) (c : ℕ) (h : Text)
    → c ≢ 0xd
    → break_lines b (c ∷ h) ≡ (if c == 0xa then b else c ∷ []) ++ break_lines b h
unfolding break_lines
break_lines-cons b c [] n =
    let r : (c == 0xd) ≡ false = ground arith in
    elim (Bool-cases (c == 0xa)) [ inl e ↦ rw (r, e) (sym (append-nil b)) | inr e ↦ rw (r, e) ]
break_lines-cons b c (d ∷ h) n =
    let r : (c == 0xd) ≡ false = ground arith in
    elim (Bool-cases (c == 0xa)) [ inl e ↦ rw (r, e) | inr e ↦ rw (r, e) ]

break_lines-Entity :
    (b : Text) (c : ℕ) (e h : Text)
    → Entity e c
    → break_lines b (b'&' ∷ e ++ h) ≡ b'&' ∷ e ++ break_lines b h
unfolding break_lines
break_lines-Entity b c e [] amp = refl
break_lines-Entity b c e [] lt = refl
break_lines-Entity b c e [] gt = refl
break_lines-Entity b c e [] nbsp = refl
break_lines-Entity b c e (d ∷ h) amp = refl
break_lines-Entity b c e (d ∷ h) lt = refl
break_lines-Entity b c e (d ∷ h) gt = refl
break_lines-Entity b c e (d ∷ h) nbsp = refl

module _ (is_ie6 : Bool) (h s : Text) where
  line_step :
      (c : ℕ)
      → c ≢ b'&'
      → c ≢ b'<'
      → displayed h ≡ s
      → displayed ((if c == 0xa then line_break is_ie6 else c ∷ []) ++ h)
        ≡ (if c == 0xa then line_end is_ie6 else c ∷ []) ++ s
  line_step c a b e = elim (Bool-cases (c == 0xa)) [
    | inl y ↦ rw y (displayed-line_break is_ie6 h ∙ ap (λ t. line_end is_ie6 ++ t) e)
    | inr n ↦ rw n (displayed-plain c h a b ∙ ap (◌∷◌ c) e)
  ]

-- No entity stands for a line end.
Entity-line_end : (c : ℕ) (e : Text) → Entity e c → (c == 0xa) ≡ false
Entity-line_end c e amp = refl
Entity-line_end c e lt = refl
Entity-line_end c e gt = refl
Entity-line_end c e nbsp = refl

-- Only line ends are changed by `newlineRe`, if there is no carriage return.
pub displayed-break_lines :
    (is_ie6 : Bool) (h s : Text)
    → Shows h s
    → Lacks 0xd s
    → displayed (break_lines (line_break is_ie6) h) ≡ replace_char 0xa (line_end is_ie6) s
unfolding replace_char
displayed-break_lines is_ie6 h s nil l = unfold break_lines displayed_from in refl
displayed-break_lines is_ie6 h s (plain {c} {g} {t} a b r) (n, l) =
    ap displayed (break_lines-cons (line_break is_ie6) c g n)
    ∙ line_step is_ie6 (break_lines (line_break is_ie6) g) (replace_char 0xa (line_end is_ie6) t) c
        a b (displayed-break_lines is_ie6 g t r l)
displayed-break_lines is_ie6 h s (entity {c} {e} {g} {t} en r) (n, l) =
    ap displayed (break_lines-Entity (line_break is_ie6) c e g en)
    ∙ displayed-Entity c e (break_lines (line_break is_ie6) g) en
    ∙ rw (Entity-line_end c e en) (ap (◌∷◌ c) (displayed-break_lines is_ie6 g t r l))
