-- ===== src/Prettify/Charset/Ranges.antt =====
-- Sorting and joining ranges keeps the characters that they cover, and separates them.
use java_study_project.Base.{
  ℕ, ◌+◌, ◌≤◌, ◌<◌, max, Bool, false, ◌&&◌, ◌||◌, ◌≡◌, refl, ◌∙◌, ap, arith, List, [], ◌∷◌, leb,
  inl, inr, Bool-cases,
}
use java_study_project.Prettify.Charset.{
  Range, range_le, insert_range, sort_ranges, join_ranges, consolidate,
}

abbrev pub in_range : ℕ → Range → Bool
in_range x r = leb r.lo x && leb x r.hi

-- Some range of the list holds the character.
unfoldable pub covered : ℕ → List Range → Bool
covered x [] = false
covered x (r ∷ rs) = in_range x r || covered x rs

-- No range starts before `n`; each starts no earlier than the one before.
abbrev pub StartsFrom : ℕ → List Range → Type 0
StartsFrom n [] = Unit
StartsFrom n (r ∷ rs) = (n ≤ r.lo) × StartsFrom r.lo rs

covered-insert_range :
    (x : ℕ) (r : Range) (rs : List Range)
    → covered x (insert_range r rs) ≡ (in_range x r || covered x rs)
unfolding covered insert_range
covered-insert_range x r [] = refl
covered-insert_range x r (s ∷ rs) = ground (arith, covered-insert_range x r rs)

covered-sort_ranges : (x : ℕ) (rs : List Range) → covered x (sort_ranges rs) ≡ covered x rs
unfolding covered sort_ranges
covered-sort_ranges x [] = refl
covered-sort_ranges x (r ∷ rs) = rw (covered-insert_range, covered-sort_ranges x rs)

insert_range-StartsFrom :
    (n : ℕ) (r : Range) (rs : List Range)
    → n ≤ r.lo
    → StartsFrom n rs
    → StartsFrom n (insert_range r rs)
unfolding insert_range
insert_range-StartsFrom n r [] h s = (h, tt)
insert_range-StartsFrom n r (t ∷ rs) h s = elim (Bool-cases (range_le r t)) [
  | inl e ↦ rw e (h, (ground arith, s.1))
  | inr e ↦ rw e (s.0, insert_range-StartsFrom t.lo r rs (ground arith) s.1)
]

sort_ranges-StartsFrom : (rs : List Range) → StartsFrom 0 (sort_ranges rs)
unfolding sort_ranges
sort_ranges-StartsFrom [] = tt
sort_ranges-StartsFrom (r ∷ rs) =
    insert_range-StartsFrom 0 r (sort_ranges rs) (omega arith) (sort_ranges-StartsFrom rs)

StartsFrom-mono : (m n : ℕ) (rs : List Range) → m ≤ n → StartsFrom n rs → StartsFrom m rs
StartsFrom-mono m n [] h s = tt
StartsFrom-mono m n (r ∷ rs) h s = (omega arith, s.1)

in_range-join :
    (x : ℕ) (last r : Range)
    → last.lo ≤ r.lo
    → r.lo ≤ last.hi + 1
    → in_range x (record last { hi = max last.hi r.hi }) ≡ (in_range x last || in_range x r)
in_range-join x last r h k = ground arith

or_assoc : (a b c : Bool) → ((a || b) || c) ≡ (a || (b || c))
or_assoc a b c = ground arith

covered-join_ranges :
    (x : ℕ) (last : Range) (rs : List Range)
    → StartsFrom last.lo rs
    → covered x (join_ranges last rs) ≡ (in_range x last || covered x rs)
unfolding covered join_ranges
covered-join_ranges x last [] s = refl
covered-join_ranges x last (r ∷ rs) s = elim (Bool-cases (leb r.lo (last.hi + 1))) [
  | inl e ↦
      rw (e, join_ranges)
        (covered-join_ranges x (record last { hi = max last.hi r.hi }) rs
            (StartsFrom-mono last.lo r.lo rs s.0 s.1)
          ∙ rw (in_range-join x last r s.0 (ground arith))
              (or_assoc (in_range x last) (in_range x r) (covered x rs)))
  | inr e ↦ rw (e, join_ranges) (ap (λ b. in_range x last || b) (covered-join_ranges x r rs s.1))
]

covered-consolidate :
    (x : ℕ) (rs : List Range) → StartsFrom 0 rs → covered x (consolidate rs) ≡ covered x rs
unfolding consolidate covered
covered-consolidate x [] s = refl
covered-consolidate x (r ∷ rs) s = covered-join_ranges x r rs s.1

-- Sorting and joining the ranges of a class changes no character that it covers.
pub consolidate-covered :
    (x : ℕ) (rs : List Range) → covered x (consolidate (sort_ranges rs)) ≡ covered x rs
consolidate-covered x rs =
    covered-consolidate x (sort_ranges rs) (sort_ranges-StartsFrom rs) ∙ covered-sort_ranges x rs

-- Every range starts behind `n`, and each leaves out at least one character after the one before.
abbrev pub Apart : ℕ → List Range → Type 0
Apart n [] = Unit
Apart n (r ∷ rs) = (n < r.lo) × Apart (r.hi + 1) rs

abbrev pub IsSeparated : List Range → Type 0
IsSeparated [] = Unit
IsSeparated (r ∷ rs) = Apart (r.hi + 1) rs

join_ranges-Apart :
    (n : ℕ) (last : Range) (rs : List Range) → n < last.lo → Apart n (join_ranges last rs)
unfolding join_ranges
join_ranges-Apart n last [] h = (h, tt)
join_ranges-Apart n last (r ∷ rs) h = elim (Bool-cases (leb r.lo (last.hi + 1))) [
  | inl e ↦ rw (e, join_ranges) (join_ranges-Apart n (record last { hi = max last.hi r.hi }) rs h)
  | inr e ↦ rw (e, join_ranges) (h, join_ranges-Apart (last.hi + 1) r rs (ground arith))
]

join_ranges-IsSeparated : (last : Range) (rs : List Range) → IsSeparated (join_ranges last rs)
unfolding join_ranges
join_ranges-IsSeparated last [] = tt
join_ranges-IsSeparated last (r ∷ rs) = elim (Bool-cases (leb r.lo (last.hi + 1))) [
  | inl e ↦ rw (e, join_ranges) (join_ranges-IsSeparated (record last { hi = max last.hi r.hi }) rs)
  | inr e ↦ rw (e, join_ranges) (join_ranges-Apart (last.hi + 1) r rs (ground arith))
]

-- Ranges that overlap or touch are always joined: in the result at least one character lies between
-- two neighbours.
pub consolidate-IsSeparated : (rs : List Range) → IsSeparated (consolidate rs)
unfolding consolidate
consolidate-IsSeparated [] = tt
consolidate-IsSeparated (r ∷ rs) = join_ranges-IsSeparated r rs
