-- ===== src/Prettify/Lexer/Registry.antt =====
-- The handler that an extension gets, after one registration and after a file's worth of them.
use java_study_project.Base.{
  ◌≡◌, refl, sym, ◌∙◌, arith, Bool, false, ◌||◌, Option, none, some, List, [], ◌∷◌, inl, inr,
  Option-cases, Bool-cases, if◌then◌else◌,
}
use mathlib.Core.Path.{subst}
use java_study_project.Text.{Text, eq_text}
use java_study_project.Text.Search.{eq_text-true, eq_text_refl}
use java_study_project.Prettify.Lexer.{
  Lexer, Handlers, registered, register_one, register_lang_handler,
}

abbrev pub or_else : Option Lexer → Option Lexer → Option Lexer
or_else none y = y
or_else (some x) y = some x

-- The extension is in the list.
abbrev pub names : Text → List Text → Bool
names ext [] = false
names ext (e ∷ es) = eq_text e ext || names ext es

or_else-none : (x : Option Lexer) → or_else x none ≡ x
or_else-none none = refl
or_else-none (some x) = refl

own_case :
    (h : Lexer) (e : Text) (hs : Handlers)
    → registered e (register_one h e hs) ≡ or_else (registered e hs) (some h)
unfolding register_one
own_case h e hs = elim (Option-cases (registered e hs)) [
  | inl free ↦ rw (free, register_one, eq_text_refl)
  | inr (old, taken) ↦ rw (taken, register_one, taken)
]

other_case :
    (h : Lexer) (e ext : Text) (hs : Handlers)
    → eq_text e ext ≡ false
    → registered ext (register_one h e hs) ≡ registered ext hs
unfolding register_one
other_case h e ext hs other = elim (Option-cases (registered e hs)) [
  | inl free ↦ rw (free, register_one, other)
  | inr (old, taken) ↦ rw (taken, register_one)
]

registered-register_one :
    (h : Lexer) (e ext : Text) (hs : Handlers)
    → registered ext (register_one h e hs)
      ≡ or_else (registered ext hs) (if eq_text e ext then some h else none)
unfolding register_one
registered-register_one h e ext hs = elim (Bool-cases (eq_text e ext)) [
  | inl same ↦ rw same (
      subst (λ (k : Text). registered k (register_one h e hs) ≡ or_else (registered k hs) (some h))
        (eq_text-true e ext same) (own_case h e hs))
  | inr other ↦ rw (other, or_else-none) (other_case h e ext hs other)
]

or_else_again :
    (x : Option Lexer) (a b : Bool) (h : Lexer)
    → or_else (or_else x (if a then some h else none)) (if b then some h else none)
      ≡ or_else x (if b || a then some h else none)
or_else_again x a b h = ground arith

-- After a registration every extension keeps the handler that it had, and of the others exactly those
-- that were named have the new one.
pub registered-register_lang_handler :
    (h : Lexer) (exts : List Text) (hs : Handlers) (ext : Text)
    → registered ext (register_lang_handler h exts hs)
      ≡ or_else (registered ext hs) (if names ext exts then some h else none)
unfolding register_lang_handler
registered-register_lang_handler h [] hs ext = sym (or_else-none (registered ext hs))
registered-register_lang_handler h (e ∷ exts) hs ext =
    registered-register_one h e ext (register_lang_handler h exts hs)
    ∙ rw (registered-register_lang_handler h exts hs ext)
        (or_else_again (registered ext hs) (names ext exts) (eq_text e ext) h)
