-- ===== src/Prettify/Charset/Ordered.antt =====
-- The ranges of a class that is folded do not run backwards if those that it spells do not.
use Prim.Native.Nat.{bit_and, bit_or}
use java_study_project.Base.{
  ℕ, ◌+◌, ◌≤◌, ◌≡◌, refl, min, max, arith, Bool, true, false, not, ◌||◌, List, [], ◌∷◌, ◌++◌, All,
  All-append, ltb, leb, if◌then◌else◌, inl, inr, Bool-cases,
}
use java_study_project.Text.{Text, codes, eq_text}
use java_study_project.Prettify.Characters.{decode_escape}
use java_study_project.Prettify.Charset.{
  Range, is_group, expand_range, collect, range_le, insert_range, sort_ranges, join_ranges,
  consolidate,
}
use java_study_project.Prettify.Charset.Folding.{spelled, to_lower, to_upper}

abbrev pub IsForward : Range → Type 0
IsForward r = r.lo ≤ r.hi

-- A range that stands in the list if a test holds, in which case it is forward.
optional :
    (b : Bool) (r : Range) → (b ≡ true → IsForward r) → All IsForward (if b then r ∷ [] else [])
optional true r h = (h refl, tt)
optional false r h = tt

lower_forward :
    (start end : ℕ)
    → start ≤ end
    → not (ltb end 65 || ltb 90 start) ≡ true
    → bit_or (max 65 start) 32 ≤ bit_or (min end 90) 32
lower_forward start end h meets = ground (arith, to_lower (max 65 start), to_lower (min end 90))

upper_forward :
    (start end : ℕ)
    → start ≤ end
    → not (ltb end 97 || ltb 122 start) ≡ true
    → bit_and (max 97 start) 0xffffffdf ≤ bit_and (min end 122) 0xffffffdf
upper_forward start end h meets = ground (arith, to_upper (max 97 start), to_upper (min end 122))

expand_range-IsForward : (start end : ℕ) → start ≤ end → All IsForward (expand_range start end)
unfolding expand_range
expand_range-IsForward start end h = elim (Bool-cases (not (ltb end 65 || ltb 122 start))) [
  | inr e ↦ rw e (h, tt)
  | inl e ↦ rw e (
    h,
    All-append IsForward _ _
        (optional (not (ltb end 65 || ltb 90 start)) _ (lower_forward start end h))
        (optional (not (ltb end 97 || ltb 122 start)) _ (upper_forward start end h)),
  )
]

-- One range more is forward with all that it makes necessary.
expanded-IsForward :
    (start end : ℕ) (ss rs : List Range)
    → (All IsForward ss → All IsForward rs)
    → All IsForward (record { lo = start; hi = end } ∷ ss)
    → All IsForward (expand_range start end ++ rs)
expanded-IsForward start end ss rs keep (h, hs) =
    All-append IsForward (expand_range start end) rs (expand_range-IsForward start end h) (keep hs)

collect-IsForward :
    (parts : List Text) → All IsForward (spelled parts) → All IsForward (collect parts).ranges
unfolding collect spelled
collect-IsForward [] h = tt
collect-IsForward (p ∷ []) h = elim (Bool-cases (is_group p)) [
  | inl e ↦ rw e tt
  | inr e ↦
      rw e (expanded-IsForward (decode_escape p) (decode_escape p) [] [] (λ t. tt) (rw e at h))
]
collect-IsForward (p ∷ q ∷ []) h = elim (Bool-cases (is_group p)) [
  | inl e ↦ rw e (collect-IsForward (q ∷ []) (rw e at h))
  | inr e ↦ rw e (
      expanded-IsForward (decode_escape p) (decode_escape p) (spelled (q ∷ []))
        (collect (q ∷ [])).ranges (collect-IsForward (q ∷ [])) (rw e at h))
]
collect-IsForward (p ∷ q ∷ r ∷ parts) h = elim (Bool-cases (is_group p)) [
  | inl e ↦ rw (e, collect) (collect-IsForward (q ∷ r ∷ parts) (rw (e, spelled) at h))
  | inr e ↦ elim (Bool-cases (eq_text q (codes "-"))) [
    | inl d ↦
        rw (e, d, collect)
          (expanded-IsForward (decode_escape p) (decode_escape r) (spelled parts)
            (collect parts).ranges (collect-IsForward parts) (rw (e, d, spelled) at h))
    | inr d ↦
        rw (e, d, collect)
          (expanded-IsForward (decode_escape p) (decode_escape p) (spelled (q ∷ r ∷ parts))
            (collect (q ∷ r ∷ parts)).ranges (collect-IsForward (q ∷ r ∷ parts))
            (rw (e, d, spelled) at h))
  ]
]

insert_range-IsForward :
    (r : Range) (rs : List Range)
    → IsForward r
    → All IsForward rs
    → All IsForward (insert_range r rs)
unfolding insert_range
insert_range-IsForward r [] h hs = (h, tt)
insert_range-IsForward r (s ∷ rs) h hs = elim (Bool-cases (range_le r s)) [
  | inl e ↦ rw e (h, hs)
  | inr e ↦ rw e (hs.0, insert_range-IsForward r rs h hs.1)
]

sort_ranges-IsForward : (rs : List Range) → All IsForward rs → All IsForward (sort_ranges rs)
unfolding sort_ranges
sort_ranges-IsForward [] h = tt
sort_ranges-IsForward (r ∷ rs) h =
    insert_range-IsForward r (sort_ranges rs) h.0 (sort_ranges-IsForward rs h.1)

join_ranges-IsForward :
    (last : Range) (rs : List Range)
    → IsForward last
    → All IsForward rs
    → All IsForward (join_ranges last rs)
unfolding join_ranges
join_ranges-IsForward last [] h hs = (h, tt)
join_ranges-IsForward last (r ∷ rs) h hs = elim (Bool-cases (leb r.lo (last.hi + 1))) [
  | inl e ↦
      rw (e, join_ranges)
        (join_ranges-IsForward (record last { hi = max last.hi r.hi }) rs (omega arith) hs.1)
  | inr e ↦ rw (e, join_ranges) (h, join_ranges-IsForward r rs hs.0 hs.1)
]

consolidate-IsForward : (rs : List Range) → All IsForward rs → All IsForward (consolidate rs)
unfolding consolidate
consolidate-IsForward [] h = tt
consolidate-IsForward (r ∷ rs) h = join_ranges-IsForward r rs h.0 h.1

pub folded-IsForward :
    (parts : List Text)
    → All IsForward (spelled parts)
    → All IsForward (consolidate (sort_ranges (collect parts).ranges))
folded-IsForward parts h =
    consolidate-IsForward (sort_ranges (collect parts).ranges)
      (sort_ranges-IsForward (collect parts).ranges (collect-IsForward parts h))
