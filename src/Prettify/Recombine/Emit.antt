-- ===== src/Prettify/Recombine/Emit.antt =====
-- `emitTextUpTo` keeps what the pieces read as in step with the variables.
use java_study_project.Base.{
  ℕ, ◌-◌, ◌≤◌, ◌<◌, min, max, Bool, true, false, not, ◌&&◌, ◌≡◌, refl, ◌∙◌, arith, List, [], ◌∷◌,
  ◌++◌, append-nil, take, drop, ltb, ltb→lt, inl, inr, Bool-cases,
}
use mathlib.Core.Path.{ap₂, subst}
use java_study_project.Text.{Text, eq_text, substring}
use java_study_project.Text.Search.{eq_text-true}
use java_study_project.Prettify.Recombine.{
  Mark, Weaver, truthy, close_stale, open_current, push_chunk, emit_text_up_to, close_open,
}
use java_study_project.Prettify.Recombine.Reading.{Painted, paint, painted, read, read-push}

-- The pieces pushed so far nest, they leave open the span that the variable names, they show `done`,
-- and the tags among them are `ts`.
pub record IsRead (v : Weaver) (done : Painted) (ts : List Text) : Type 0 where
  pub reads :
      read v.html
      ≡ record { well_nested = true; style = v.open_decoration; shown = done; tags = ts }

-- What no emission changes.
pub record SameCursor (v w : Weaver) : Type 0 where
  pub output_idx : w.output_idx ≡ v.output_idx
  pub current : w.current_decoration ≡ v.current_decoration

and_left : (a b : Bool) → (a && b) ≡ true → a ≡ true
and_left a b h = ground arith

module _ (v : Weaver) (done : Painted) (ts : List Text) where
  pub close_open-IsRead : IsRead v done ts → IsRead (close_open v) done ts
  unfolding close_open
  close_open-IsRead r = elim (Bool-cases (truthy v.open_decoration)) [
    | inl e ↦ rw e (record { reads = rw (read-push, r.reads, e) })
    | inr e ↦ rw e r
  ]

  close_stale-IsRead : IsRead v done ts → IsRead (close_stale v) done ts
  unfolding close_stale
  close_stale-IsRead r =
      elim (Bool-cases
        (truthy v.open_decoration && not (eq_text v.open_decoration v.current_decoration))) [
          | inl e ↦ rw e (record {
            reads = rw (
              read-push,
              r.reads,
              and_left (truthy v.open_decoration)
                  (not (eq_text v.open_decoration v.current_decoration)) e,
            );
          })
          | inr e ↦ rw e r
        ]

  open_current-IsRead : IsRead v done ts → IsRead (open_current v) done ts
  unfolding open_current
  open_current-IsRead r =
      elim (Bool-cases (not (truthy v.open_decoration) && truthy v.current_decoration)) [
        | inl e ↦ rw e (record { reads = rw (read-push, r.reads, e) })
        | inr e ↦ rw e r
      ]

pub truthy-false : (t : Text) → truthy t ≡ false → t ≡ []
truthy-false [] h = refl
truthy-false (c ∷ t) h = cc

-- Where text is emitted, the open span has the current style, and there is none if that is none.
opened_style : (v : Weaver) → (open_current (close_stale v)).open_decoration ≡ v.current_decoration
unfolding open_current close_stale
opened_style v = ground (
  arith,
  truthy-false v.open_decoration,
  truthy-false v.current_decoration,
  eq_text-true v.open_decoration v.current_decoration,
)

opened_SameCursor : (v : Weaver) → SameCursor v (open_current (close_stale v))
unfolding open_current close_stale
opened_SameCursor v = record { output_idx = ground arith; current = ground arith }

-- No decoration stands before `k`.
abbrev pub Reaches : ℕ → List Mark → Type 0
Reaches k [] = Unit
Reaches k (d ∷ ds) = k ≤ d.at

-- What is left to show: the text behind the output index, in the styles that hold from there.
abbrev pub to_show : Text → List Mark → Weaver → Painted
to_show source ds v = painted v.current_decoration ds v.output_idx (drop v.output_idx source)

pub slice_lem :
    (source : Text) (a b : ℕ) → a < b → substring source a b ≡ take (b - a) (drop a source)
slice_lem source a b h =
    let e : max a b - min a b ≡ b - a = omega arith in
    let f : min a b ≡ a = omega arith in rw (e, f)

module _ (is_ie6 : Bool) (tab_width : ℕ) (source : Text) where
  push_chunk-IsRead :
      (slice : Text) (k : ℕ) (v : Weaver) (done : Painted) (ts : List Text)
      → IsRead v done ts
      → IsRead (push_chunk is_ie6 tab_width slice k v) (done ++ paint v.open_decoration slice) ts
  unfolding push_chunk
  push_chunk-IsRead slice k v done ts r = record { reads = rw (read-push, r.reads) }

  pub push_chunk_cursor :
      (slice : Text) (k : ℕ) (v : Weaver)
      → ((push_chunk is_ie6 tab_width slice k v).output_idx ≡ k)
        × ((push_chunk is_ie6 tab_width slice k v).current_decoration ≡ v.current_decoration)
  unfolding push_chunk
  push_chunk_cursor slice k v = (refl, refl)

  emit_fires :
      (k : ℕ) (v : Weaver)
      → ltb v.output_idx k ≡ true
      → emit_text_up_to is_ie6 tab_width source k v
        ≡ push_chunk is_ie6 tab_width
            (substring source v.output_idx k)
            k
            (open_current (close_stale v))
  unfolding emit_text_up_to
  emit_fires k v e = rw e

  emit_waits :
      (k : ℕ) (v : Weaver)
      → ltb v.output_idx k ≡ false
      → emit_text_up_to is_ie6 tab_width source k v ≡ v
  unfolding emit_text_up_to
  emit_waits k v e = rw e

  pub emit-IsRead :
      (k : ℕ) (v : Weaver) (done : Painted) (ts : List Text)
      → IsRead v done ts
      → IsRead
          (emit_text_up_to is_ie6 tab_width source k v)
          (done ++ paint v.current_decoration (take (k - v.output_idx) (drop v.output_idx source)))
          ts
  unfolding paint
  emit-IsRead k v done ts r = elim (Bool-cases (ltb v.output_idx k)) [
    | inl e ↦
        let w = open_current (close_stale v) in
        let ready = open_current-IsRead (close_stale v) done ts (close_stale-IsRead v done ts r) in
        let out = push_chunk-IsRead (substring source v.output_idx k) k w done ts ready in
        let same =
          ap₂ (λ (c t : Text). done ++ paint c t) (opened_style v)
            (slice_lem source v.output_idx k (ltb→lt v.output_idx k e)) in
        rw (emit_fires k v e) (
          subst
            (λ (d : Painted).
              IsRead (push_chunk is_ie6 tab_width (substring source v.output_idx k) k w) d ts)
            same out)
    | inr e ↦ let z : k - v.output_idx ≡ 0 = ground arith in rw (emit_waits k v e, z, append-nil) r
  ]

  pub emit_cursor :
      (k : ℕ) (v : Weaver)
      → ((emit_text_up_to is_ie6 tab_width source k v).output_idx ≡ max v.output_idx k)
        × ((emit_text_up_to is_ie6 tab_width source k v).current_decoration ≡ v.current_decoration)
  emit_cursor k v = elim (Bool-cases (ltb v.output_idx k)) [
    | inl e ↦
        let (idx, cur) =
          push_chunk_cursor (substring source v.output_idx k) k (open_current (close_stale v)) in
        rw (emit_fires k v e) (idx ∙ ground arith, cur ∙ (opened_SameCursor v).current)
    | inr e ↦ rw (emit_waits k v e) (ground arith, refl)
  ]
