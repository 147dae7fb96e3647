-- ===== src/Prettify/Html/Entities.antt =====
-- The loop over numeric entities: it ends, and which characters of an entity it reads.
use java_study_project.Base.{
  ℕ, zero, suc, ◌+◌, ◌-◌, ◌≤◌, ◌<◌, ◌≡◌, Option, none, some, ◌∷◌, arith, length, drop, length-drop,
  length-append, inl, inr, Option-cases,
}
use java_study_project.Text.{Text, codes, index_of_from, substring}
use java_study_project.Text.Number.{Signed, from_char_code}
use java_study_project.Text.Search.{index_of_from-bound, length-substring_le}
use java_study_project.Prettify.Html.{splice, entity_code, decode_entity, decode_numeric}

length-splice :
    (pos end : ℕ) (html : Text) (n : Option Signed)
    → pos ≤ end
    → end < length html
    → length (splice pos end html n) ≤ length html
length-splice pos end html none p q = omega arith
length-splice pos end html (some n) p q = omega (
  arith,
  length-append (substring html 0 pos) (from_char_code n ∷ drop (end + 1) html),
  length-substring_le html 0 pos,
  length-drop (end + 1) html,
)

length-decode_entity : (pos : ℕ) (html : Text) → length (decode_entity pos html) ≤ length html
unfolding decode_entity
length-decode_entity pos html = elim (Option-cases (index_of_from (codes ";") pos html)) [
  | inl e ↦ rw (e, length) (omega arith)
  | inr (end, e) ↦
      let b = index_of_from-bound (codes ";") html pos end (omega arith) e in
      rw (e, length)
        (length-splice pos end html (entity_code (substring html (pos + 3) end)) b.0 (omega arith))
]

-- More fuel than there are characters left to search is enough: the loop over numeric entities ends,
-- and the text has not grown.
pub decode_numeric_total :
    (f start : ℕ) (html : Text)
    → length html - start < f
    → (t : Text) × (decode_numeric f start html ≡ some t) × (length t ≤ length html)
unfolding decode_numeric
decode_numeric_total zero start html h = absurd (omega arith)
decode_numeric_total (suc f) start html h =
    elim (Option-cases (index_of_from (codes "&#") start html)) [
      | inl e ↦ (html, rw (e, decode_numeric), omega arith)
      | inr (pos, e) ↦
          let b = index_of_from-bound (codes "&#") html start pos (omega arith) e in
          let fits = length-decode_entity pos html in
          let (t, done, small) =
            decode_numeric_total f (pos + 1) (decode_entity pos html) (omega arith) in
          (t, rw (e, decode_numeric) done, omega arith)
    ]
