-- ===== src/Prettify/Lexer/Order.antt =====
-- Decorations come in the order of their positions and stay inside the source.
use mathlib.Core.List.{flatten}
use mathlib.Core.Path.{subst}
use java_study_project.Prettify.Lexer.Sound.{
  IsSound, AllHandlers, classify-embedded, lang_handler-AllHandlers,
}
use java_study_project.Base.{
  ℕ, zero, suc, ◌+◌, ◌≤◌, ◌≡◌, ◌≢◌, refl, ap, arith, Option, none, some, List, [], ◌∷◌, ◌++◌,
  length, drop, length-drop, length-append, inl, inr, Option-cases,
}
use java_study_project.Text.{Text, index_of, substring}
use java_study_project.Text.Search.{index_of-bound, length-substring_le}
use java_study_project.Prettify.Recombine.{Mark}
use java_study_project.Prettify.Lexer.{
  Lexer, Kind, plain_token, embedded, Handlers, Run, append_marks, append_decorations,
  embedded_start, token_marks, tokens_marks, classify, Cache, remember, decorate, pr_plain,
  lang_handler_for_extension,
}

-- The positions do not fall, and lie between `lo` and `hi`.
abbrev pub IsOrdered : ℕ → ℕ → List Mark → Type 0
IsOrdered lo hi [] = lo ≤ hi
IsOrdered lo hi (m ∷ ms) = (lo ≤ m.at) × IsOrdered m.at hi ms

IsOrdered-append :
    (a b c : ℕ) (xs ys : List Mark) → IsOrdered a b xs → IsOrdered b c ys → IsOrdered a c (xs ++ ys)
IsOrdered-append a b c [] [] h k = omega arith
IsOrdered-append a b c [] (y ∷ ys) h k = (omega arith, k.1)
IsOrdered-append a b c (x ∷ xs) ys h k = (h.0, IsOrdered-append x.at b c xs ys h.1 k)

IsOrdered-widen : (a b c : ℕ) (xs : List Mark) → b ≤ c → IsOrdered a b xs → IsOrdered a c xs
IsOrdered-widen a b c [] h k = omega arith
IsOrdered-widen a b c (x ∷ xs) h k = (k.0, IsOrdered-widen x.at b c xs h k.1)

-- A run that answers, answers in order.
abbrev pub RunsInOrder : Run → Type 0
RunsInOrder run =
    (lx : Lexer) (source : Text) (base : ℕ) (ms : List Mark)
    → IsSound lx
    → run lx source base ≡ some ms
    → IsOrdered base (base + length source) ms

some_inj : {h k : Lexer} → some h ≡ some k → h ≡ k
some_inj e = cc

append_marks-some :
    (a b : Option (List Mark)) (ms : List Mark)
    → append_marks a b ≡ some ms
    → (xs : List Mark) × (ys : List Mark) × (a ≡ some xs) × (b ≡ some ys) × (xs ++ ys ≡ ms)
append_marks-some none b ms h = cc
append_marks-some (some xs) none ms h = cc
append_marks-some (some xs) (some ys) ms h = (xs, ys, refl, refl, cc)

-- Two runs one behind the other.
append_marks-IsOrdered :
    (lo mid hi : ℕ) (a b : Option (List Mark))
    → ((xs : List Mark) → a ≡ some xs → IsOrdered lo mid xs)
    → ((ys : List Mark) → b ≡ some ys → IsOrdered mid hi ys)
    → (ms : List Mark) → append_marks a b ≡ some ms
    → IsOrdered lo hi ms
append_marks-IsOrdered lo mid hi a b f g ms h =
    let (xs, ys, p, q, e) = append_marks-some a b ms h in
    subst (IsOrdered lo hi) e (IsOrdered-append lo mid hi xs ys (f xs p) (g ys q))

pub embedded_start-bound :
    (source token : Text)
    → index_of source token ≢ none
    → embedded_start source token + length source ≤ length token
embedded_start-bound source token h = elim (Option-cases (index_of source token)) [
  | inl e ↦ absurd (h e)
  | inr (k, e) ↦ rw e (index_of-bound source token k e)
]

module _ (run : Run) (ordered : RunsInOrder run) where
  append_decorations-IsOrdered :
      (lx : Option Lexer) (source : Text) (base : ℕ) (ms : List Mark)
      → ((h : Lexer) → lx ≡ some h → IsSound h)
      → append_decorations run lx source base ≡ some ms
      → IsOrdered base (base + length source) ms
  append_decorations-IsOrdered lx [] base ms sound h =
      let e : [] ≡ ms = cc in subst (IsOrdered base (base + 0)) e (omega arith)
  append_decorations-IsOrdered none (c ∷ s) base ms sound h = cc
  append_decorations-IsOrdered (some lx) (c ∷ s) base ms sound h =
      ordered lx (c ∷ s) base ms (sound lx refl) h

  module _ (hs : Handlers) (all : AllHandlers IsSound hs) (lx : Lexer) (sound : IsSound lx)
      (base : ℕ) where
    token_marks-IsOrdered :
        (token : Text) (pos : ℕ) (kind : Kind) (ms : List Mark)
        → ((lang source : Text) → kind ≡ embedded lang source → index_of source token ≢ none)
        → token_marks hs run lx base token pos kind ≡ some ms
        → IsOrdered (base + pos) (base + (pos + length token)) ms
    unfolding token_marks
    token_marks-IsOrdered token pos (plain_token style) ms inside h =
        let e : record { at = base + pos; text = style } ∷ [] ≡ ms = cc in
        subst (IsOrdered (base + pos) (base + (pos + length token))) e (omega arith, omega arith)
    token_marks-IsOrdered token pos (embedded lang source) ms inside h =
        let start = embedded_start source token in
        let end = start + length source in
        let fits = embedded_start-bound source token (inside lang source refl) in
        append_marks-IsOrdered (base + pos) (base + pos + start) (base + (pos + length token)) _ _
          (λ xs p.
            IsOrdered-widen (base + pos) _ (base + pos + start) xs
              (omega (arith, length-substring_le token 0 start))
              (append_decorations-IsOrdered (some lx) (substring token 0 start) (base + pos) xs
                (λ k q. subst IsSound (some_inj q) sound) p))
          (append_marks-IsOrdered (base + pos + start) (base + pos + end)
            (base + (pos + length token)) _ _
            (λ xs p. IsOrdered-widen (base + pos + start) _ (base + pos + end) xs (omega arith) (
              append_decorations-IsOrdered (lang_handler_for_extension hs lang source) source
                (base + pos + start) xs
                (λ k q. lang_handler-AllHandlers IsSound hs lang source k all q) p))
            (λ xs p.
              IsOrdered-widen (base + pos + end) _ (base + (pos + length token)) xs
                (omega (arith, length-drop end token))
                (append_decorations-IsOrdered (some lx) (drop end token) (base + pos + end) xs
                  (λ k q. subst IsSound (some_inj q) sound) p)))
          ms h

    tokens_marks-IsOrdered :
        (tokens : List Text) (pos : ℕ) (c : Cache) (ms : List Mark)
        → tokens_marks hs run lx base tokens pos c ≡ some ms
        → IsOrdered (base + pos) (base + (pos + length (flatten tokens))) ms
    unfolding tokens_marks flatten
    tokens_marks-IsOrdered [] pos c ms h =
        let e : [] ≡ ms = cc in subst (IsOrdered (base + pos) (base + (pos + 0))) e (omega arith)
    tokens_marks-IsOrdered (token ∷ tokens) pos c ms h =
        let kind = classify lx c token in
        append_marks-IsOrdered (base + pos) (base + (pos + length token)) _ _ _
          (λ xs p.
            token_marks-IsOrdered token pos kind xs
              (λ lang source e. (classify-embedded lx c token lang source sound e).0) p)
          (λ xs p.
            IsOrdered-widen (base + (pos + length token)) _ _ xs
              (omega (arith, length-append token (flatten tokens)))
              (tokens_marks-IsOrdered tokens (pos + length token) (remember token kind c) xs p))
          ms h

head_mark :
    (base : ℕ) (style : Text) (xs : List Mark)
    → some (record { at = base; text = style } ∷ []) ≡ some xs
    → IsOrdered base (base + 0) xs
head_mark base style xs p =
    let e : record { at = base; text = style } ∷ [] ≡ xs = cc in
    subst (IsOrdered base (base + 0)) e (omega arith, omega arith)

decorate-RunsInOrder :
    (hs : Handlers) (f : ℕ) → AllHandlers IsSound hs → RunsInOrder (decorate hs f)
unfolding decorate
decorate-RunsInOrder hs zero all lx source base ms sound h = cc
decorate-RunsInOrder hs (suc f) all lx source base ms sound h =
    append_marks-IsOrdered base (base + 0) (base + length source)
      (some (record { at = base; text = pr_plain } ∷ []))
      (tokens_marks hs (decorate hs f) lx base (lx.tokenize source) 0 [])
      (λ xs p. head_mark base pr_plain xs p)
      (λ xs p.
        IsOrdered-widen (base + 0) _ (base + length source) xs
          (omega (arith, ap length (sound.cuts source)))
          (tokens_marks-IsOrdered (decorate hs f) (decorate-RunsInOrder hs f all) hs all lx sound
            base (lx.tokenize source) 0 [] xs p))
      ms h

-- Whatever it embeds, a handler that answers gives marks whose positions never fall and that lie
-- between the base position and the end of the source.
pub decorate-IsOrdered :
    (hs : Handlers) (f : ℕ) (lx : Lexer) (source : Text) (base : ℕ) (ms : List Mark)
    → AllHandlers IsSound hs
    → IsSound lx
    → decorate hs f lx source base ≡ some ms
    → IsOrdered base (base + length source) ms
decorate-IsOrdered hs f lx source base ms all sound h =
    decorate-RunsInOrder hs f all lx source base ms sound h
