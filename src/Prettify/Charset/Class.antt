-- ===== src/Prettify/Charset/Class.antt =====
-- Reading a class that `caseFoldCharset` wrote, the way `caseFoldCharset` reads one.
use mathlib.Core.List.{flatten}
use java_study_project.Base.{
  ℕ, ◌+◌, ◌≤◌, ◌<◌, ◌≡◌, ◌∙◌, refl, ap, arith, true, false, List, [], ◌∷◌, ◌++◌, append-nil, All,
  All-append, ltb, ◌==◌, if◌then◌else◌, inl, inr, Bool-cases, flatten-append,
}
use java_study_project.Text.{Text, codes, eq_text}
use java_study_project.Prettify.Characters.{decode_escape, encode_escape}
use java_study_project.Prettify.Charset.{
  Range, charset_parts, is_group, collect, range_text, ranges_text,
}
use java_study_project.Prettify.Charset.Escapes.{decode_escape-encode_escape}
use java_study_project.Prettify.Charset.Folding.{spelled}
use java_study_project.Prettify.Charset.Written.{
  IsPart, parts-flatten, encode_escape-IsPart, is_group-encode_escape, hyphen-encode_escape,
  group-IsPart,
}

-- The parts of a range as it is written.
abbrev pub range_parts : Range → List Text
range_parts r =
    if ltb r.lo r.hi
    then encode_escape r.lo ∷ codes "-" ∷ encode_escape r.hi ∷ []
    else encode_escape r.lo ∷ []

unfoldable pub written : List Range → List Text
written [] = []
written (r ∷ rs) = range_parts r ++ written rs

hyphen-IsPart : IsPart (codes "-")
unfolding charset_parts
hyphen-IsPart [] = refl
hyphen-IsPart (c ∷ s) = refl

range_parts-IsPart : (r : Range) → All IsPart (range_parts r)
range_parts-IsPart r = elim (Bool-cases (ltb r.lo r.hi)) [
  | inl e ↦ rw e (encode_escape-IsPart r.lo, (hyphen-IsPart, (encode_escape-IsPart r.hi, tt)))
  | inr e ↦ rw e (encode_escape-IsPart r.lo, tt)
]

pub written-IsPart : (rs : List Range) → All IsPart (written rs)
unfolding written
written-IsPart [] = tt
written-IsPart (r ∷ rs) =
    All-append IsPart (range_parts r) (written rs) (range_parts-IsPart r) (written-IsPart rs)

range_text-flatten : (r : Range) → range_text r ≡ flatten (range_parts r)
unfolding flatten
range_text-flatten r = elim (Bool-cases (ltb r.lo r.hi)) [
  | inl e ↦ let past : ltb r.lo (r.hi + 1) ≡ true = ground arith in rw (e, past, append-nil)
  | inr e ↦ rw e
]

pub ranges_text-flatten : (rs : List Range) → ranges_text rs ≡ flatten (written rs)
unfolding written
ranges_text-flatten [] = unfold flatten in refl
ranges_text-flatten (r ∷ rs) =
    rw (range_text-flatten r, ranges_text-flatten rs, flatten-append (range_parts r) (written rs))

-- The head is no hyphen by which a range would go on.
abbrev pub IsFree : List Text → Type 0
IsFree [] = Unit
IsFree (p ∷ ps) = eq_text p (codes "-") ≡ false

written-IsFree : (rs : List Range) → IsFree (written rs)
unfolding written
written-IsFree [] = tt
written-IsFree (r ∷ rs) = elim (Bool-cases (ltb r.lo r.hi)) [
  | inl e ↦ rw e (hyphen-encode_escape r.lo)
  | inr e ↦ rw e (hyphen-encode_escape r.lo)
]

module _ (p : Text) where
  spelled-group : (ps : List Text) → is_group p ≡ true → spelled (p ∷ ps) ≡ spelled ps
  unfolding spelled
  spelled-group [] h = rw h refl
  spelled-group (q ∷ []) h = rw h refl
  spelled-group (q ∷ r ∷ ps) h = rw (h, spelled) refl

  groups-group :
      (ps : List Text) → is_group p ≡ true → (collect (p ∷ ps)).groups ≡ p ∷ (collect ps).groups
  unfolding collect
  groups-group [] h = rw h refl
  groups-group (q ∷ []) h = rw h refl
  groups-group (q ∷ r ∷ ps) h = rw (h, collect) refl

  spelled-single :
      (ps : List Text)
      → is_group p ≡ false
      → IsFree ps
      → spelled (p ∷ ps) ≡ record { lo = decode_escape p; hi = decode_escape p } ∷ spelled ps
  unfolding spelled
  spelled-single [] h f = rw h refl
  spelled-single (q ∷ []) h f = rw h refl
  spelled-single (q ∷ r ∷ ps) h f = rw (h, f, spelled) refl

  groups-single :
      (ps : List Text)
      → is_group p ≡ false
      → IsFree ps
      → (collect (p ∷ ps)).groups ≡ (collect ps).groups
  unfolding collect
  groups-single [] h f = rw h refl
  groups-single (q ∷ []) h f = rw h refl
  groups-single (q ∷ r ∷ ps) h f = rw (h, f, collect) refl

-- A range that does not run backwards, and does not start with the null character.
abbrev pub IsSound : Range → Type 0
IsSound r = (0 < r.lo) × (r.lo ≤ r.hi)

read_back : (c : ℕ) → 0 < c → decode_escape (encode_escape c) ≡ c
read_back c h = let e : (c == 0) ≡ false = ground arith in decode_escape-encode_escape c ∙ rw e refl

module _ (lo hi : ℕ) (ps : List Text) where
  spelled-long :
      spelled (encode_escape lo ∷ codes "-" ∷ encode_escape hi ∷ ps)
      ≡ record { lo = decode_escape (encode_escape lo); hi = decode_escape (encode_escape hi) }
        ∷ spelled ps
  unfolding spelled
  spelled-long = rw (is_group-encode_escape lo) refl

  groups-long :
      (collect (encode_escape lo ∷ codes "-" ∷ encode_escape hi ∷ ps)).groups ≡ (collect ps).groups
  unfolding collect
  groups-long = rw (is_group-encode_escape lo) refl

same_range : (r : Range) → r.lo ≡ r.hi → record { lo = r.lo; hi = r.lo } ≡ r
same_range r e = ap (λ (h : ℕ). record { lo = r.lo; hi = h }) e

spelled-written : (rs : List Range) → All IsSound rs → spelled (written rs) ≡ rs
unfolding written
spelled-written [] h = unfold spelled in refl
spelled-written (r ∷ rs) h = elim (Bool-cases (ltb r.lo r.hi)) [
  | inl e ↦
      rw
        (
          e,
          spelled-long r.lo r.hi (written rs),
          read_back r.lo h.0.0,
          read_back r.hi (omega (arith, h.0)),
        )
        (ap (λ (ss : List Range). r ∷ ss) (spelled-written rs h.1))
  | inr e ↦
      let same : r.lo ≡ r.hi = ground (arith, h.0.1) in
      rw
        (
          e,
          spelled-single (encode_escape r.lo) (written rs) (is_group-encode_escape r.lo)
              (written-IsFree rs),
          read_back r.lo h.0.0,
          same_range r same,
        )
        (ap (λ (ss : List Range). r ∷ ss) (spelled-written rs h.1))
]

groups-written : (rs : List Range) → (collect (written rs)).groups ≡ []
unfolding written
groups-written [] = unfold collect in refl
groups-written (r ∷ rs) = elim (Bool-cases (ltb r.lo r.hi)) [
  | inl e ↦ rw e (groups-long r.lo r.hi (written rs) ∙ groups-written rs)
  | inr e ↦ rw e (
      groups-single (encode_escape r.lo) (written rs) (is_group-encode_escape r.lo)
        (written-IsFree rs)
      ∙ groups-written rs)
]

-- Groups before a written class are read as they are, and its ranges as they were.
pub spelled-append :
    (gs : List Text) (rs : List Range)
    → All (λ g. is_group g ≡ true) gs
    → All IsSound rs
    → spelled (gs ++ written rs) ≡ rs
spelled-append [] rs gh rh = spelled-written rs rh
spelled-append (g ∷ gs) rs gh rh =
    spelled-group g (gs ++ written rs) gh.0 ∙ spelled-append gs rs gh.1 rh

pub groups-append :
    (gs : List Text) (rs : List Range)
    → All (λ g. is_group g ≡ true) gs
    → (collect (gs ++ written rs)).groups ≡ gs
groups-append [] rs gh = groups-written rs
groups-append (g ∷ gs) rs gh =
    groups-group g (gs ++ written rs) gh.0
    ∙ ap (λ (hs : List Text). g ∷ hs) (groups-append gs rs gh.1)

groups-IsPart : (gs : List Text) → All (λ g. is_group g ≡ true) gs → All IsPart gs
groups-IsPart [] h = tt
groups-IsPart (g ∷ gs) h = (group-IsPart g h.0, groups-IsPart gs h.1)

-- The inside of a written class falls into the parts that it was put together from.
pub parts-written :
    (gs : List Text) (rs : List Range)
    → All (λ g. is_group g ≡ true) gs
    → charset_parts (flatten gs ++ ranges_text rs) 0 ≡ gs ++ written rs
parts-written gs rs h =
    rw
      (
        ranges_text-flatten rs,
        ← flatten-append gs (written rs),
        ← append-nil (flatten (gs ++ written rs)),
      )
      (parts-flatten (gs ++ written rs) []
          (All-append IsPart gs (written rs) (groups-IsPart gs h) (written-IsPart rs))
        ∙ unfold charset_parts in append-nil (gs ++ written rs))
