-- ===== src/Text/Split.antt =====
-- `split` by one character and `join`.
use java_study_project.Base.{
  ℕ, ◌≡◌, ◌≢◌, refl, ap, List, [], ◌∷◌, ◌++◌, append_assoc, ◌==◌, if◌then◌else◌, inl, inr,
  Bool-cases, ==_iff, ◌∙◌,
}
use java_study_project.Text.{Text}

abbrev pub glue : ℕ → List Text → List Text
glue c [] = (c ∷ []) ∷ []
glue c (w ∷ ws) = (c ∷ w) ∷ ws

-- `s.split(sep)` for one character.
unfoldable pub split : ℕ → Text → List Text
split sep [] = [] ∷ []
split sep (c ∷ s) = let rest = split sep s in if c == sep then [] ∷ rest else glue c rest

-- `ws.join(sep)` for one character.
unfoldable pub join : ℕ → List Text → Text
join sep [] = []
join sep (w ∷ []) = w
join sep (w ∷ v ∷ ws) = w ++ sep ∷ join sep (v ∷ ws)

glue-ne-nil : (c : ℕ) (ws : List Text) → glue c ws ≢ []
glue-ne-nil c [] e = cc
glue-ne-nil c (w ∷ ws) e = cc

pub split-ne-nil : (sep : ℕ) (s : Text) → split sep s ≢ []
unfolding split
split-ne-nil sep [] = λ e. cc
split-ne-nil sep (c ∷ s) = elim (Bool-cases (c == sep)) [
  | inl h ↦ rw h (λ e. cc)
  | inr h ↦ rw h (glue-ne-nil c (split sep s))
]

join-nil_cons : (sep : ℕ) (ws : List Text) → ws ≢ [] → join sep ([] ∷ ws) ≡ sep ∷ join sep ws
unfolding join
join-nil_cons sep [] h = absurd (h refl)
join-nil_cons sep (w ∷ ws) h = refl

join-glue : (sep c : ℕ) (ws : List Text) → ws ≢ [] → join sep (glue c ws) ≡ c ∷ join sep ws
unfolding join
join-glue sep c [] h = absurd (h refl)
join-glue sep c (w ∷ []) h = refl
join-glue sep c (w ∷ v ∷ ws) h = refl

-- Joining what was split gives the text back.
pub join-split : (sep : ℕ) (s : Text) → join sep (split sep s) ≡ s
unfolding split
join-split sep [] = unfold join in refl
join-split sep (c ∷ s) = elim (Bool-cases (c == sep)) [
  | inl h ↦ rw h (
      join-nil_cons sep (split sep s) (split-ne-nil sep s)
      ∙ rw (join-split sep s, (==_iff c sep).0 h))
  | inr h ↦
      rw h (join-glue sep c (split sep s) (split-ne-nil sep s) ∙ ap (◌∷◌ c) (join-split sep s))
]

pub join-append_last :
    (sep : ℕ) (ws : List Text) (w : Text)
    → ws ≢ []
    → join sep (ws ++ w ∷ []) ≡ join sep ws ++ sep ∷ w
unfolding join
join-append_last sep [] w h = absurd (h refl)
join-append_last sep (v ∷ []) w h = refl
join-append_last sep (v ∷ u ∷ ws) w h =
    ap (λ t. v ++ sep ∷ t) (join-append_last sep (u ∷ ws) w (λ e. cc)) ∙ simp append_assoc
