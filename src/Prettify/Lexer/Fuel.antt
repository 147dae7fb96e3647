-- ===== src/Prettify/Lexer/Fuel.antt =====
-- Enough fuel: handlers that embed ever smaller pieces, or hand them to handlers of lower rank, end.
use mathlib.Core.List.{flatten}
use java_study_project.Base.{
  ℕ, zero, suc, ◌+◌, ◌*◌, ◌≤◌, ◌<◌, ◌≡◌, ◌≢◌, refl, ap, arith, ◌⊎◌, inl, inr, Option, none, some,
  List, [], ◌∷◌, length, drop, length-drop, length-append, Option-cases,
}
use java_study_project.Text.{Text, substring}
use java_study_project.Text.Search.{length-substring_le}
use java_study_project.Prettify.Recombine.{Mark}
use java_study_project.Prettify.Lexer.{
  Lexer, Kind, plain_token, embedded, Handlers, Run, append_marks, append_decorations,
  embedded_start, token_marks, tokens_marks, classify, Cache, remember, decorate,
  lang_handler_for_extension, pr_plain,
}
use java_study_project.Prettify.Lexer.Sound.{
  IsSound, AllHandlers, classify-embedded, lang_handler-AllHandlers,
}
use java_study_project.Prettify.Lexer.Order.{embedded_start-bound, IsOrdered, decorate-IsOrdered}

-- A piece that is as long as its token goes to a handler of lower rank, and there is a handler.
pub record IsGraded (hs : Handlers) (rank : Lexer → ℕ) (top : ℕ) (lx : Lexer) : Type 0 where
  pub sound : IsSound lx
  pub within : rank lx ≤ top
  pub falls :
      (c : Cache) (token lang source : Text)
      → classify lx c token ≡ embedded lang source
      → (h : Lexer) × (lang_handler_for_extension hs lang source ≡ some h)
        × ((length source < length token) ⊎ (rank h < rank lx))

append_marks-ne-none : (a b : Option (List Mark)) → a ≢ none → b ≢ none → append_marks a b ≢ none
append_marks-ne-none none b h k e = h refl
append_marks-ne-none (some xs) none h k e = k refl
append_marks-ne-none (some xs) (some ys) h k e = cc

append_decorations-ne-none :
    (run : Run) (lx : Lexer) (source : Text) (base : ℕ)
    → (source ≢ [] → run lx source base ≢ none)
    → append_decorations run (some lx) source base ≢ none
append_decorations-ne-none run lx [] base h e = cc
append_decorations-ne-none run lx (c ∷ s) base h e = h (λ x. cc) e

module _ (hs : Handlers) (rank : Lexer → ℕ) (top : ℕ) where
  abbrev measure : Lexer → Text → ℕ
  measure lx source = length source * (top + 1) + rank lx

  -- A run that answers for everything below a measure.
  abbrev AnswersBelow : Run → ℕ → Type 0
  AnswersBelow run n =
      (lx : Lexer) (source : Text) (base : ℕ)
      → IsGraded hs rank top lx
      → measure lx source < n
      → run lx source base ≢ none

  shorter : (a b r s : ℕ) → a < b → r ≤ top → a * (top + 1) + r < b * (top + 1) + s
  shorter a b r s h k = grind arith

  lower : (a b r s : ℕ) → a ≤ b → r < s → a * (top + 1) + r < b * (top + 1) + s
  lower a b r s h k = grind arith

  nonempty : (t : Text) → t ≢ [] → 0 < length t
  nonempty [] h = absurd (h refl)
  nonempty (c ∷ t) h = omega arith

  module _ (all : AllHandlers (IsGraded hs rank top) hs) (run : Run) (lx : Lexer) (whole base : ℕ)
      (graded : IsGraded hs rank top lx)
      (answers : AnswersBelow run (whole * (top + 1) + rank lx)) where
    embedded_smaller :
        (n m l : ℕ) (h : Lexer)
        → (n < m) ⊎ (rank h < rank lx)
        → rank h ≤ top
        → n ≤ m
        → m ≤ l
        → n * (top + 1) + rank h < l * (top + 1) + rank lx
    embedded_smaller n m l h (inl short) within le fits =
        shorter n l (rank h) (rank lx) (omega arith) within
    embedded_smaller n m l h (inr low) within le fits =
        lower n l (rank h) (rank lx) (omega arith) low

    token_marks-ne-none :
        (token : Text) (pos : ℕ) (c : Cache) (kind : Kind)
        → length token ≤ whole
        → classify lx c token ≡ kind
        → token_marks hs run lx base token pos kind ≢ none
    unfolding token_marks
    token_marks-ne-none token pos c (plain_token style) fits e = λ n. cc
    token_marks-ne-none token pos c (embedded lang source) fits e =
        let (inside, full) = classify-embedded lx c token lang source graded.sound e in
        let start = embedded_start source token in
        let end = start + length source in
        let bound = embedded_start-bound source token inside in
        let some_char = nonempty source full in
        let (h, found, smaller) = graded.falls c token lang source e in
        append_marks-ne-none _ _
          (append_decorations-ne-none run lx (substring token 0 start) (base + pos) (λ _.
            answers lx (substring token 0 start) (base + pos) graded (
              shorter (length (substring token 0 start)) whole (rank lx) (rank lx)
                (omega (arith, length-substring_le token 0 start)) graded.within)))
          (append_marks-ne-none _ _
            (rw found (
              append_decorations-ne-none run h source (base + pos + start) (λ _.
                answers h source (base + pos + start)
                  (lang_handler-AllHandlers (IsGraded hs rank top) hs lang source h all found)
                  (embedded_smaller (length source) (length token) whole h smaller
                    (lang_handler-AllHandlers (IsGraded hs rank top) hs lang source h all
                      found).within
                    (omega arith) fits))))
            (append_decorations-ne-none run lx (drop end token) (base + pos + end) (λ _.
              answers lx (drop end token) (base + pos + end) graded (
                shorter (length (drop end token)) whole (rank lx) (rank lx)
                  (omega (arith, length-drop end token)) graded.within))))

    tokens_marks-ne-none :
        (tokens : List Text) (pos : ℕ) (c : Cache)
        → length (flatten tokens) ≤ whole
        → tokens_marks hs run lx base tokens pos c ≢ none
    unfolding tokens_marks flatten
    tokens_marks-ne-none [] pos c fits = λ n. cc
    tokens_marks-ne-none (token ∷ tokens) pos c fits =
        let long = length-append token (flatten tokens) in
        append_marks-ne-none _ _
          (token_marks-ne-none token pos c (classify lx c token) (omega arith) refl)
          (tokens_marks-ne-none tokens (pos + length token) (remember token (classify lx c token) c)
            (omega arith))

some-ne-none : (xs : List Mark) → some xs ≢ none
some-ne-none xs e = cc

graded_handlers :
    (hs : Handlers) (rank : Lexer → ℕ) (top : ℕ) (rest : Handlers)
    → AllHandlers (IsGraded hs rank top) rest
    → AllHandlers IsSound rest
graded_handlers hs rank top [] a = tt
graded_handlers hs rank top (h ∷ rest) a = (a.0.sound, graded_handlers hs rank top rest a.1)

module _ (hs : Handlers) (rank : Lexer → ℕ) (top : ℕ)
    (all : AllHandlers (IsGraded hs rank top) hs) where
  decorate-answers :
      (f : ℕ) (lx : Lexer) (source : Text) (base : ℕ)
      → IsGraded hs rank top lx
      → length source * (top + 1) + rank lx < f
      → decorate hs f lx source base ≢ none
  unfolding decorate
  decorate-answers zero lx source base graded fuel = absurd (omega arith)
  decorate-answers (suc f) lx source base graded fuel =
      append_marks-ne-none (some (record { at = base; text = pr_plain } ∷ []))
        (tokens_marks hs (decorate hs f) lx base (lx.tokenize source) 0 [])
        (some-ne-none (record { at = base; text = pr_plain } ∷ []))
        (tokens_marks-ne-none hs rank top all (decorate hs f) lx (length source) base graded
          (λ h s b g small. decorate-answers f h s b g (omega arith)) (lx.tokenize source) 0 []
          (omega (arith, ap length (graded.sound.cuts source))))

  -- Where the handler and all that are registered are graded, and the fuel is above its rank and the
  -- length of the source, weighted by the number of ranks, it answers, and its marks come in the order
  -- of their positions and stay inside the source.
  pub decorate_total :
      (f : ℕ) (lx : Lexer) (source : Text) (base : ℕ)
      → IsGraded hs rank top lx
      → length source * (top + 1) + rank lx < f
      → (ms : List Mark) × (decorate hs f lx source base ≡ some ms)
        × IsOrdered base (base + length source) ms
  decorate_total f lx source base graded fuel = elim (Option-cases (decorate hs f lx source base)) [
    | inl e ↦ absurd (decorate-answers f lx source base graded fuel e)
    | inr (ms, e) ↦ (
      ms,
      e,
      decorate-IsOrdered hs f lx source base ms (graded_handlers hs rank top hs all) graded.sound e,
    )
  ]
