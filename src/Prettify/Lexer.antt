-- ===== src/Prettify/Lexer.antt =====
-- `createSimpleLexer`, `appendDecorations` and the registry of language handlers.
--
-- A compiled pattern stands for what it matches: `token.match(pattern)` is a function of the token,
-- and `sourceCode.match(tokenizer)` is the list of the tokens. Decorations are marks.
pub mod Sound
pub mod Order
pub mod Registry
pub mod Fuel
pub mod Chosen
pub mod Afresh
use java_study_project.Base.{
  ℕ, zero, suc, ◌+◌, Bool, true, false, ◌||◌, Option, none, some, List, [], ◌∷◌, ◌++◌, ◌==◌,
  if◌then◌else◌, length, drop,
}
use java_study_project.Text.{Text, codes, eq_text, starts_with, index_of, substring}
use java_study_project.Text.Number.{is_space}
use java_study_project.Prettify.Recombine.{Mark}
use mathlib.Core.Option

-- What `token.match(pattern)` gives: group 1 is empty if it took no part.
pub record Match : Type 0 where
  pub group : Text

-- `[style, pattern, context, shortcut]`; the context is not used.
pub record Pattern : Type 0 where
  pub style : Text
  pub matches : Text → Option Match
  pub shortcut : Text

-- What `createSimpleLexer` is called with, and the tokenizer that `combinePrefixPatterns` makes of it.
-- Every call gives at least one fallthrough pattern, `first`.
pub record Lexer : Type 0 where
  pub shortcut_patterns : List Pattern
  pub first : Pattern
  pub others : List Pattern
  pub tokenize : Text → List Text

abbrev pub pr_plain : Text
pr_plain = codes "pln"

abbrev pub pr_source : Text
pr_source = codes "src"

abbrev pub includes : ℕ → Text → Bool
includes c [] = false
includes c (d ∷ s) = c == d || includes c s

-- `shortcuts[c]`: a later pattern takes the place of an earlier one.
unfoldable pub shortcut_for : ℕ → List Pattern → Option Pattern
shortcut_for c [] = none
shortcut_for c (p ∷ ps) = elim (shortcut_for c ps) [
  | some q ↦ some q
  | none ↦ if includes c p.shortcut then some p else none
]

-- A style with the match that it came with.
pub record Styled : Type 0 where
  pub style : Text
  pub found : Option Match

-- The loop over the fallthrough patterns: the first that matches; else plain, so that progress is made.
unfoldable pub fall_through : Text → List Pattern → Styled
fall_through token [] = record { style = pr_plain; found = none }
fall_through token (p ∷ ps) = elim (p.matches token) [
  | some m ↦ record { style = p.style; found = some m }
  | none ↦ fall_through token ps
]

abbrev pub all_patterns : Lexer → List Pattern
all_patterns lx = lx.shortcut_patterns ++ lx.first ∷ lx.others

abbrev pub head_shortcut : Lexer → Text → Option Pattern
head_shortcut lx [] = none
head_shortcut lx (c ∷ s) = shortcut_for c (all_patterns lx)

-- A shortcut decides the style, also if its pattern does not match.
unfoldable pub choose_style : Lexer → Text → Styled
unfolding shortcut_for fall_through
choose_style lx token = elim (head_shortcut lx token) [
  | some p ↦ record { style = p.style; found = p.matches token }
  | none ↦ fall_through token (lx.first ∷ lx.others)
]

-- A token is given a style, or holds a piece of another language.
pub data Kind : Type 0 where
  plain_token : Text → Kind
  embedded : Text → Text → Kind

abbrev pub embed_group : Text → Text → Kind
embed_group style [] = plain_token pr_source
embed_group style (c ∷ s) = embedded (drop 5 style) (c ∷ s)

abbrev pub embed_or_source : Text → Option Match → Kind
embed_or_source style none = plain_token pr_source
embed_or_source style (some m) = embed_group style m.group

abbrev pub kind_of : Styled → Kind
kind_of s =
    if starts_with (codes "lang-") s.style
    then embed_or_source s.style s.found
    else plain_token s.style

-- `styleCache`.
abbrev pub Cache : Type 0
Cache = List (Text × Text)

abbrev pub cached : Text → Cache → Option Text
cached token [] = none
cached token ((t, style) ∷ c) = if eq_text t token then some style else cached token c

abbrev pub remember : Text → Kind → Cache → Cache
remember token (plain_token style) c = (token, style) ∷ c
remember token (embedded lang source) c = c

abbrev pub uncached : Lexer → Text → Option Text → Kind
uncached lx token (some style) = plain_token style
uncached lx token none = kind_of (choose_style lx token)

unfoldable pub classify : Lexer → Cache → Text → Kind
unfolding choose_style
classify lx c token = uncached lx token (cached token c)

abbrev pub Handlers : Type 0
Handlers = List (Text × Lexer)

abbrev pub registered : Text → Handlers → Option Lexer
registered ext [] = none
registered ext ((e, h) ∷ hs) = if eq_text e ext then some h else registered ext hs

-- `registerLangHandler`: the extensions from the last to the first; one that has a handler keeps it.
unfoldable pub register_one : Lexer → Text → Handlers → Handlers
register_one h ext hs = elim (registered ext hs) [ some old ↦ hs | none ↦ (ext, h) ∷ hs ]

unfoldable pub register_lang_handler : Lexer → List Text → Handlers → Handlers
unfolding register_one
register_lang_handler h [] hs = hs
register_lang_handler h (ext ∷ exts) hs = register_one h ext (register_lang_handler h exts hs)

-- `/^\s*</.test(source)`.
unfoldable pub is_markup : Text → Bool
is_markup [] = false
is_markup (c ∷ s) =
    let rest = is_markup s in if c == b'<' then true else if is_space c then rest else false

abbrev pub default_extension : Text → Text
default_extension source = if is_markup source then codes "default-markup" else codes "default-code"

-- `langHandlerForExtension(extension, source)`. No handler is registered for the empty extension.
unfoldable pub lang_handler_for_extension : Handlers → Text → Text → Option Lexer
unfolding is_markup
lang_handler_for_extension hs extension source = elim (registered extension hs) [
  | some h ↦ if eq_text extension [] then registered (default_extension source) hs else some h
  | none ↦ registered (default_extension source) hs
]

-- A handler's work on a piece of source at a base position.
abbrev pub Run : Type 0
Run = Lexer → Text → ℕ → Option (List Mark)

abbrev pub append_marks : Option (List Mark) → Option (List Mark) → Option (List Mark)
append_marks none ys = none
append_marks (some xs) none = none
append_marks (some xs) (some ys) = some (xs ++ ys)

-- `appendDecorations`; there is no call without source.
abbrev pub append_decorations : Run → Option Lexer → Text → ℕ → Option (List Mark)
append_decorations run lx [] base_pos = some []
append_decorations run none (c ∷ s) base_pos = none
append_decorations run (some lx) (c ∷ s) base_pos = run lx (c ∷ s) base_pos

-- Group 1 is a part of its token, so that `indexOf` finds it.
abbrev pub embedded_start : Text → Text → ℕ
embedded_start source token = Option.get_or (index_of source token) 0

module _ (hs : Handlers) (run : Run) (lx : Lexer) (base_pos : ℕ) where
  -- The marks of one token that starts at `pos`.
  unfoldable pub token_marks : Text → ℕ → Kind → Option (List Mark)
  token_marks token pos (plain_token style) =
      some (record { at = base_pos + pos; text = style } ∷ [])
  token_marks token pos (embedded lang source) =
      let start = embedded_start source token in
      let end = start + length source in
      append_marks (append_decorations run (some lx) (substring token 0 start) (base_pos + pos)) (
        append_marks
          (append_decorations run (lang_handler_for_extension hs lang source) source
            (base_pos + pos + start))
          (append_decorations run (some lx) (drop end token) (base_pos + pos + end)))

  unfoldable pub tokens_marks : List Text → ℕ → Cache → Option (List Mark)
  unfolding token_marks
  tokens_marks [] pos c = some []
  tokens_marks (token ∷ tokens) pos c =
      let kind = classify lx c token in
      append_marks (token_marks token pos kind)
        (tokens_marks tokens (pos + length token) (remember token kind c))

-- `decorate(job)`: `job.decorations`. The fuel bounds how deep pieces of source are embedded in one
-- another; `none` means that it ran out, or that no handler is registered for a piece.
unfoldable pub decorate : Handlers → ℕ → Run
unfolding tokens_marks
decorate hs zero lx source base_pos = none
decorate hs (suc f) lx source base_pos =
    append_marks (some (record { at = base_pos; text = pr_plain } ∷ []))
      (tokens_marks hs (decorate hs f) lx base_pos (lx.tokenize source) 0 [])
