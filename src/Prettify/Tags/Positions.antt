-- ===== src/Prettify/Tags/Positions.antt =====
-- The chunks are the whole html, and the tags that are taken out keep their places in the text.
use mathlib.Core.List.{flatten}
use java_study_project.Base.{
  ℕ, zero, suc, ◌+◌, ◌≤◌, ◌≡◌, ◌≢◌, refl, sym, ap, arith, Bool, true, false, ◌&&◌, Option, none,
  some, List, [], ◌∷◌, ◌++◌, append-nil, flatten-append, ◌==◌, ==_iff, if◌then◌else◌, length,
  length-append, take, drop, take-append-drop, take-nil, drop-nil, All, inl, inr, Bool-cases,
  Option-cases,
}
use java_study_project.Text.{Text, codes, starts_with, index_of}
use java_study_project.Prettify.Html.{html_to_text}
use java_study_project.Prettify.Recombine.{Mark}
use java_study_project.Prettify.Lexer.Order.{IsOrdered}
use java_study_project.Prettify.NoCode.{is_no_code_tag}
use java_study_project.Prettify.Tags.Shape.{is_comment, is_section, IsTagged, chunks-IsTagged}
use java_study_project.Prettify.Tags.{
  markup_length, run_length, chunks, Extracted, add_source, add_tag, tag_name, find_end, Round,
  skip_section, is_br, is_cdata, is_markup_chunk, is_found, consume, extract_loop, extract_tags,
}

-- Nothing of the html is lost between two chunks.
pub flatten-chunks : (s : Text) (k : ℕ) → flatten (chunks s k) ≡ drop k s
unfolding chunks flatten
flatten-chunks [] k = sym (drop-nil k)
flatten-chunks (c ∷ s) (suc k) = flatten-chunks s k
flatten-chunks (c ∷ s) zero =
    let n = if c == b'<' then markup_length s else run_length s in
    ap (◌∷◌ c) (rw (flatten-chunks s n, take-append-drop))

abbrev pub NoCdata : Text → Type 0
NoCdata m = is_cdata m ≡ false

tail_none :
    (n d : ℕ) (s : Text)
    → (d == b'[') ≡ false
    → starts_with (codes "[CDATA[") (take n (d ∷ s)) ≡ false
tail_none zero d s h = refl
tail_none (suc n) d s h = rw h

bracket_length : (s : Text) → markup_length (b'[' ∷ s) ≡ 0
unfolding markup_length
bracket_length s = refl

chunk-NoCdata :
    (c : ℕ) (s : Text) → NoCdata (c ∷ take (if c == b'<' then markup_length s else run_length s) s)
chunk-NoCdata c s = elim (Bool-cases (c == b'<')) [ inr e ↦ rw e | inl e ↦ rw e (behind s) ]
  where
    behind : (s : Text) → starts_with (codes "[CDATA[") (take (markup_length s) s) ≡ false
    behind [] = rw (take-nil (markup_length []))
    behind (d ∷ t) = elim (Bool-cases (d == b'[')) [
      | inl h ↦ rw ((==_iff d b'[').0 h, bracket_length t)
      | inr h ↦ tail_none (markup_length (d ∷ t)) d t h
    ]

pub chunks-NoCdata : (s : Text) (k : ℕ) → All NoCdata (chunks s k)
unfolding chunks
chunks-NoCdata [] k = tt
chunks-NoCdata (c ∷ s) (suc k) = chunks-NoCdata s k
chunks-NoCdata (c ∷ s) zero = (chunk-NoCdata c s, chunks-NoCdata s _)

-- The counted length is that of the text, and the tags stand in it in order.
record IsKept (e : Extracted) : Type 0 where
  counted : e.source_buf_len ≡ length (flatten e.source_buf)
  ordered : IsOrdered 0 e.source_buf_len e.extracted_tags

IsOrdered-wider : (a b c : ℕ) (xs : List Mark) → b ≤ c → IsOrdered a b xs → IsOrdered a c xs
IsOrdered-wider a b c [] h k = omega arith
IsOrdered-wider a b c (x ∷ xs) h k = (k.0, IsOrdered-wider x.at b c xs h k.1)

IsOrdered-last :
    (a b : ℕ) (t : Text) (xs : List Mark)
    → IsOrdered a b xs
    → IsOrdered a b (xs ++ record { at = b; text = t } ∷ [])
IsOrdered-last a b t [] h = (h, omega arith)
IsOrdered-last a b t (x ∷ xs) h = (h.0, IsOrdered-last x.at b t xs h.1)

add_tag-IsKept : (t : Text) (e : Extracted) → IsKept e → IsKept (add_tag t e)
add_tag-IsKept t e k = record {
  counted = k.counted;
  ordered = IsOrdered-last 0 e.source_buf_len t e.extracted_tags k.ordered;
}

add_source-IsKept :
    (s : Text) (n : ℕ) (e : Extracted)
    → n ≡ e.source_buf_len + length s
    → IsKept e
    → IsKept (add_source s n e)
unfolding flatten
add_source-IsKept s n e h k = record {
  counted = rw (flatten-append, append-nil, length-append) (omega (arith, k.counted));
  ordered = IsOrdered-wider 0 e.source_buf_len n e.extracted_tags (omega arith) k.ordered;
}

skip_section-IsKept :
    (m : Text) (ms : List Text) (e : Extracted) (found : Option ℕ)
    → IsKept e
    → IsKept (skip_section m ms e found).0
skip_section-IsKept m ms e none k = add_tag-IsKept m e k
skip_section-IsKept m ms e (some n) k = add_tag-IsKept (flatten (m ∷ take n ms)) e k

and-right : (a b : Bool) → (a && b) ≡ true → b ≡ true
and-right true b h = h
and-right false b h = cc

-- No section passes for a tag of the class nocode.
abbrev pub IsSectionFree : Text → Type 0
IsSectionFree m = is_section m ≡ true → is_no_code_tag m ≡ false

asked-named :
    (m : Text)
    → IsTagged m
    → IsSectionFree m
    → is_markup_chunk m ≡ true
    → is_comment m ≡ false
    → is_no_code_tag m ≡ true
    → tag_name m ≢ none
asked-named m tagged section_free markup comment nocode = elim (Bool-cases (is_section m)) [
  | inr e ↦ tagged markup comment e
  | inl e ↦ let not_asked : is_no_code_tag m ≡ false = section_free e in cc
]

consume-IsKept :
    (m : Text) (ms : List Text) (e : Extracted)
    → NoCdata m
    → IsTagged m
    → IsSectionFree m
    → IsKept e
    → (round : Round) × (consume m ms e ≡ some round) × IsKept round.0
unfolding consume
consume-IsKept m ms e free tagged section_free k = elim (Bool-cases (is_markup_chunk m)) [
  | inr h ↦ (
    (add_source (html_to_text m) (e.source_buf_len + length (html_to_text m)) e, 0),
    rw h,
    add_source-IsKept (html_to_text m) (e.source_buf_len + length (html_to_text m)) e refl k,
  )
  | inl h ↦ elim (Bool-cases (starts_with (codes "<!--") m)) [
    | inl h2 ↦ ((e, 0), rw (h, h2), k)
    | inr h2 ↦ elim (Bool-cases (is_br m)) [
      | inl h3 ↦ (
        (add_source (codes "\n") (e.source_buf_len + 1) e, 0),
        rw (h, h2, free, h3),
        add_source-IsKept (codes "\n") (e.source_buf_len + 1) e refl k,
      )
      | inr h3 ↦ elim (Bool-cases (is_found (index_of (codes "nocode") m) && is_no_code_tag m)) [
        | inr h4 ↦ ((add_tag m e, 0), rw (h, h2, free, h3, h4), add_tag-IsKept m e k)
        | inl h4 ↦ elim (Option-cases (tag_name m)) [
          | inl h5 ↦ absurd (
              asked-named m tagged section_free h h2
                (and-right (is_found (index_of (codes "nocode") m)) (is_no_code_tag m) h4) h5)
          | inr (name, h5) ↦ (
            skip_section m ms e (find_end name.1 1 ms),
            rw (h, h2, free, h3, h4, h5),
            skip_section-IsKept m ms e (find_end name.1 1 ms) k,
          )
        ]
      ]
    ]
  ]
]

extract_loop-IsKept :
    (ms : List Text) (skip : ℕ) (e : Extracted)
    → All NoCdata ms
    → All IsTagged ms
    → All IsSectionFree ms
    → IsKept e
    → (after : Extracted) × (extract_loop ms skip e ≡ some after) × IsKept after
unfolding extract_loop
extract_loop-IsKept [] skip e free tagged sections k = (e, refl, k)
extract_loop-IsKept (m ∷ ms) (suc skip) e free tagged sections k =
    extract_loop-IsKept ms skip e free.1 tagged.1 sections.1 k
extract_loop-IsKept (m ∷ ms) zero e free tagged sections k =
    let (round, step, kept) = consume-IsKept m ms e free.0 tagged.0 sections.0 k in
    let (after, rest, last) =
      extract_loop-IsKept ms round.1 round.0 free.1 tagged.1 sections.1 kept in
    (after, rw (step, extract_loop) rest, last)

-- If no CDATA section of the html passes for a tag of the class nocode, the function returns; then the
-- length that it counts is that of the text, and the tags that it takes out are in the order of their
-- positions and stand inside the text.
pub extract_tags_total :
    (s : Text)
    → All IsSectionFree (chunks s 0)
    → (e : Extracted) × (extract_tags s ≡ some e)
      × (e.source_buf_len ≡ length (flatten e.source_buf))
      × IsOrdered 0 (length (flatten e.source_buf)) e.extracted_tags
unfolding extract_tags flatten
extract_tags_total s sections =
    let (e, done, kept) =
      extract_loop-IsKept (chunks s 0) 0
        (record { source_buf = []; source_buf_len = 0; extracted_tags = [] }) (chunks-NoCdata s 0)
        (chunks-IsTagged s 0) sections (record { counted = refl; ordered = omega arith }) in
    (e, done, kept.counted, rw (← kept.counted) kept.ordered)
