-- ===== src/Prettify/Lexer/Afresh.antt =====
-- `styleCache` only saves work: a lexer that looks at every token afresh makes the same decorations.
use mathlib.Core.Path.{fun_ext}
use java_study_project.Base.{
  ℕ, zero, suc, ◌+◌, ◌≡◌, refl, sym, ap, ◌∙◌, Option, none, some, List, [], ◌∷◌, All, inl, inr,
  Bool-cases, Option-cases, length,
}
use java_study_project.Text.{Text, eq_text}
use java_study_project.Text.Search.{eq_text-true}
use java_study_project.Prettify.Recombine.{Mark}
use java_study_project.Prettify.Lexer.{
  Lexer, pr_plain, Kind, plain_token, embedded, choose_style, kind_of, Cache, cached, remember,
  classify, Handlers, Run, append_marks, token_marks, tokens_marks, decorate,
}

-- The reference: the kind of a token is asked for each time that the token comes.
abbrev afresh : Lexer → Text → Kind
afresh lx token = kind_of (choose_style lx token)

module _ (hs : Handlers) (run : Run) (lx : Lexer) (base_pos : ℕ) where
  unfoldable pub tokens_marks_afresh : List Text → ℕ → Option (List Mark)
  tokens_marks_afresh [] pos = some []
  tokens_marks_afresh (token ∷ tokens) pos =
      append_marks (token_marks hs run lx base_pos token pos (afresh lx token))
        (tokens_marks_afresh tokens (pos + length token))

unfoldable pub decorate_afresh : Handlers → ℕ → Run
decorate_afresh hs zero lx source base_pos = none
decorate_afresh hs (suc f) lx source base_pos =
    append_marks (some (record { at = base_pos; text = pr_plain } ∷ []))
      (tokens_marks_afresh hs (decorate_afresh hs f) lx base_pos (lx.tokenize source) 0)

-- What is kept of a token is the style that it would be given again.
IsFresh : Lexer → Cache → Type 0
IsFresh lx c = All (λ e. afresh lx e.0 ≡ plain_token e.1) c

cached-IsFresh :
    (lx : Lexer) (token : Text) (c : Cache) (style : Text)
    → IsFresh lx c
    → cached token c ≡ some style
    → afresh lx token ≡ plain_token style
unfolding IsFresh
cached-IsFresh lx token [] style h e = cc
cached-IsFresh lx token ((t, s) ∷ c) style h e = elim (Bool-cases (eq_text t token)) [
  | inl k ↦
      let same : some s ≡ some style = rw k at e in
      let named : s ≡ style = cc in rw⁻¹ (eq_text-true t token k) (h.0 ∙ ap plain_token named)
  | inr k ↦ cached-IsFresh lx token c style h.1 (rw k at e)
]

classify-afresh :
    (lx : Lexer) (c : Cache) (token : Text) → IsFresh lx c → classify lx c token ≡ afresh lx token
unfolding classify
classify-afresh lx c token h = elim (Option-cases (cached token c)) [
  | inl e ↦ rw e refl
  | inr (style, e) ↦ rw e (sym (cached-IsFresh lx token c style h e))
]

remember-IsFresh :
    (lx : Lexer) (token : Text) (k : Kind) (c : Cache)
    → afresh lx token ≡ k
    → IsFresh lx c
    → IsFresh lx (remember token k c)
unfolding IsFresh
remember-IsFresh lx token (plain_token style) c e h = (e, h)
remember-IsFresh lx token (embedded lang source) c e h = h

tokens_marks-afresh :
    (hs : Handlers) (run : Run) (lx : Lexer) (base : ℕ) (tokens : List Text) (pos : ℕ) (c : Cache)
    → IsFresh lx c
    → tokens_marks hs run lx base tokens pos c ≡ tokens_marks_afresh hs run lx base tokens pos
unfolding tokens_marks tokens_marks_afresh
tokens_marks-afresh hs run lx base [] pos c h = refl
tokens_marks-afresh hs run lx base (token ∷ tokens) pos c h =
    let same = classify-afresh lx c token h in
    let rest =
      tokens_marks-afresh hs run lx base tokens (pos + length token)
        (remember token (afresh lx token) c)
        (remember-IsFresh lx token (afresh lx token) c refl h) in
    rw (same, rest) refl

-- The decorations of a source are those that are made when every token is looked at afresh, whatever
-- the handlers, and also where there are none for want of fuel or of a handler.
pub decorate-afresh :
    (hs : Handlers) (f : ℕ) (lx : Lexer) (source : Text) (base : ℕ)
    → decorate hs f lx source base ≡ decorate_afresh hs f lx source base
unfolding decorate decorate_afresh IsFresh
decorate-afresh hs zero lx source base = refl
decorate-afresh hs (suc f) lx source base =
    let inner : decorate hs f ≡ decorate_afresh hs f =
      fun_ext (λ l. fun_ext (λ s. fun_ext (λ b. decorate-afresh hs f l s b))) in
    ap (append_marks (some (record { at = base; text = pr_plain } ∷ []))) (
      tokens_marks-afresh hs (decorate hs f) lx base (lx.tokenize source) 0 [] tt
      ∙ ap (λ (run : Run). tokens_marks_afresh hs run lx base (lx.tokenize source) 0) inner)
