-- ===== src/Prettify/Charset/Folding.antt =====
-- A class that was expanded holds a letter in both cases or in neither.
use Prim.Native.Nat.{bit_and, bit_or}
use java_study_project.Base.{
  ℕ, ◌+◌, ◌-◌, ◌≤◌, min, max, Bool, true, ◌&&◌, ◌||◌, ◌≡◌, refl, ◌∙◌, arith, List, [], ◌∷◌, ◌++◌,
  leb, ◌==◌, if◌then◌else◌, inl, inr, Bool-cases, holds_on, holds_on_at,
}
use java_study_project.Text.{Text, codes, eq_text}
use java_study_project.Prettify.Charset.{
  Range, expand_range, sort_ranges, consolidate, collect, is_group,
}
use java_study_project.Prettify.Characters.{decode_escape}
use java_study_project.Prettify.Charset.Ranges.{in_range, covered, consolidate-covered}

-- The letter in its other case; any other character itself.
abbrev pub other_case : ℕ → ℕ
other_case x = if leb 65 x && leb x 90 then x + 32 else if leb 97 x && leb x 122 then x - 32 else x

lower_table : holds_on (λ n. bit_or n 32 == n + 32) 65 26 ≡ true
unfolding holds_on
lower_table = refl

upper_table : holds_on (λ n. bit_and n 0xffffffdf == n - 32) 97 26 ≡ true
unfolding holds_on
upper_table = refl

-- Setting bit 5 of a capital letter gives the small one.
pub to_lower : (n : ℕ) → 65 ≤ n → n ≤ 90 → bit_or n 32 ≡ n + 32
to_lower n h k =
    let t = holds_on_at (λ n. bit_or n 32 == n + 32) 65 26 n lower_table h (omega arith) in
    ground arith

-- Clearing bit 5 of a small letter gives the capital one.
pub to_upper : (n : ℕ) → 97 ≤ n → n ≤ 122 → bit_and n 0xffffffdf ≡ n - 32
to_upper n h k =
    let t = holds_on_at (λ n. bit_and n 0xffffffdf == n - 32) 97 26 n upper_table h (omega arith) in
    ground arith

expand_range_lem :
    (x start end : ℕ)
    → covered x (expand_range start end) ≡ (
        in_range x (record { lo = start; hi = end })
        || in_range (other_case x) (record { lo = start; hi = end }))
unfolding covered expand_range
expand_range_lem x start end = ground (
  arith,
  to_lower (max 65 start),
  to_lower (min end 90),
  to_upper (max 97 start),
  to_upper (min end 122),
)

covered-append :
    (x : ℕ) (rs ss : List Range) → covered x (rs ++ ss) ≡ (covered x rs || covered x ss)
unfolding covered
covered-append x [] ss = refl
covered-append x (r ∷ rs) ss = ground (arith, covered-append x rs ss)

-- The ranges as the class spells them.
unfoldable pub spelled : List Text → List Range
spelled [] = []
spelled (p ∷ []) =
    if is_group p then [] else record { lo = decode_escape p; hi = decode_escape p } ∷ []
spelled (p ∷ q ∷ []) =
    let rest = spelled (q ∷ []) in
    if is_group p then rest else record { lo = decode_escape p; hi = decode_escape p } ∷ rest
spelled (p ∷ q ∷ r ∷ parts) =
    let rest = spelled (q ∷ r ∷ parts) in
    let beyond = spelled parts in
    if is_group p
    then rest
    else if eq_text q (codes "-")
    then record { lo = decode_escape p; hi = decode_escape r } ∷ beyond
    else record { lo = decode_escape p; hi = decode_escape p } ∷ rest

shuffle : (a b c d : Bool) → ((a || b) || (c || d)) ≡ ((a || c) || (b || d))
shuffle a b c d = ground arith

-- Both sides grow alike when one range is added.
add_range_lem :
    (x start end : ℕ) (rs ss : List Range)
    → covered x rs ≡ (covered x ss || covered (other_case x) ss)
    → covered x (expand_range start end ++ rs) ≡ (
        covered x (record { lo = start; hi = end } ∷ ss)
        || covered (other_case x) (record { lo = start; hi = end } ∷ ss))
add_range_lem x start end rs ss h =
    rw (covered-append, expand_range_lem x start end, h)
      (unfold covered in
        shuffle (in_range x (record { lo = start; hi = end }))
          (in_range (other_case x) (record { lo = start; hi = end })) (covered x ss)
          (covered (other_case x) ss))

pub collect-covered :
    (x : ℕ) (parts : List Text)
    → covered x (collect parts).ranges
      ≡ (covered x (spelled parts) || covered (other_case x) (spelled parts))
unfolding collect spelled
collect-covered x [] = unfold covered in refl
collect-covered x (p ∷ []) = elim (Bool-cases (is_group p)) [
  | inl e ↦ rw e (unfold covered in refl)
  | inr e ↦
      rw e (add_range_lem x (decode_escape p) (decode_escape p) [] [] (unfold covered in refl))
]
collect-covered x (p ∷ q ∷ []) = elim (Bool-cases (is_group p)) [
  | inl e ↦ rw e (collect-covered x (q ∷ []))
  | inr e ↦ rw e (
      add_range_lem x (decode_escape p) (decode_escape p) (collect (q ∷ [])).ranges
        (spelled (q ∷ [])) (collect-covered x (q ∷ [])))
]
collect-covered x (p ∷ q ∷ r ∷ parts) = elim (Bool-cases (is_group p)) [
  | inl e ↦ rw (e, collect, spelled) (collect-covered x (q ∷ r ∷ parts))
  | inr e ↦
      rw (e, collect, spelled)
        (elim (Bool-cases (eq_text q (codes "-"))) [
          | inl d ↦ rw d (
              add_range_lem x (decode_escape p) (decode_escape r) (collect parts).ranges
                (spelled parts) (collect-covered x parts))
          | inr d ↦ rw d (
              add_range_lem x (decode_escape p) (decode_escape p) (collect (q ∷ r ∷ parts)).ranges
                (spelled (q ∷ r ∷ parts)) (collect-covered x (q ∷ r ∷ parts)))
        ])
]

-- The ranges that are written out hold a character just when the class as it was spelled holds the
-- character or its letter in the other case; the groups such as \d are copied and not counted.
pub folded-covered :
    (x : ℕ) (parts : List Text)
    → covered x (consolidate (sort_ranges (collect parts).ranges))
      ≡ (covered x (spelled parts) || covered (other_case x) (spelled parts))
folded-covered x parts = consolidate-covered x (collect parts).ranges ∙ collect-covered x parts
