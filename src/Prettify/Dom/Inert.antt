-- ===== src/Prettify/Dom/Inert.antt =====
-- What a page says cannot make tags: every angle bracket of the html is one of a tag.
use java_study_project.Base.{
  ℕ, ◌+◌, ◌≡◌, refl, arith, not, ◌||◌, List, [], ◌∷◌, ◌++◌, ◌==◌, if◌then◌else◌, inl, inr,
  Bool-cases, All,
}
use java_study_project.Text.{Text, codes}
use java_study_project.Prettify.Html.{attrib_to_html, text_to_html}
use java_study_project.Prettify.Html.Escape.{
  IsInert, attrib_to_html-IsInert, text_escape, text_to_html-flat_map,
}
use java_study_project.Prettify.Dom.{
  Attribute, Node, element, text, other, Nodes, no_more, sibling, has_child, is_empty_tag,
  attribute_html, attributes_html, closing_html, normalized_html, nodes_html,
}
use mathlib.Core.List.{flat_map}

unfoldable pub count_of : ℕ → Text → ℕ
count_of c [] = 0
count_of c (d ∷ s) = (if d == c then 1 else 0) + count_of c s

count-nil : (c : ℕ) → count_of c [] ≡ 0
unfolding count_of
count-nil c = refl

count-append : (c : ℕ) (s t : Text) → count_of c (s ++ t) ≡ count_of c s + count_of c t
unfolding count_of
count-append c [] t = omega arith
count-append c (d ∷ s) t = omega (arith, count-append c s t)

-- A name without angle brackets.
abbrev pub IsPlainName : Text → Type 0
IsPlainName s = (count_of b'<' s ≡ 0) × (count_of b'>' s ≡ 0)

inert_none : (s : Text) → All IsInert s → IsPlainName s
unfolding count_of IsInert
inert_none [] h = (refl, refl)
inert_none (c ∷ s) h = let rest = inert_none s h.1 in ground (arith, h.0, rest)

one_escape : (c : ℕ) → IsPlainName (text_escape c)
unfolding count_of text_escape
one_escape c = ground arith

plain-append : (s t : Text) → IsPlainName s → IsPlainName t → IsPlainName (s ++ t)
plain-append s t h k =
    rw (count-append b'<' s t, count-append b'>' s t)
      (omega (arith, h.0, k.0), omega (arith, h.1, k.1))

escape_none : (s : Text) → IsPlainName (flat_map text_escape s)
unfolding count_of flat_map
escape_none [] = (refl, refl)
escape_none (c ∷ s) =
    plain-append (text_escape c) (flat_map text_escape s) (one_escape c) (escape_none s)

text_none : (s : Text) → IsPlainName (text_to_html s)
text_none s = rw text_to_html-flat_map (escape_none s)

module _ (lower : Text → Text) where
  abbrev AttributesNamed : List Attribute → Type 0
  AttributesNamed [] = Unit
  AttributesNamed (a ∷ attributes) = IsPlainName (lower a.name) × AttributesNamed attributes

  -- The names of tags and attributes hold no angle bracket.
  abbrev mutual
    pub IsNamed : Node → Type 0
    IsNamed (element tag_name attributes children) =
        IsPlainName (lower tag_name) × AttributesNamed attributes × AreNamed children
    IsNamed (text value) = Unit
    IsNamed other = Unit

    pub AreNamed : Nodes → Type 0
    AreNamed no_more = Unit
    AreNamed (sibling n ns) = IsNamed n × AreNamed ns

  -- How many tags, opening and closing, a node is written with.
  unfoldable mutual
    pub tags_of : Node → ℕ
    tags_of (element tag_name attributes children) =
        1
        + (tags_among children
            + (if has_child children || not (is_empty_tag (lower tag_name)) then 1 else 0))
    tags_of (text value) = 0
    tags_of other = 0

    pub tags_among : Nodes → ℕ
    tags_among no_more = 0
    tags_among (sibling n ns) = tags_of n + tags_among ns

  attribute_none :
      (a : Attribute) → IsPlainName (lower a.name) → IsPlainName (attribute_html lower a)
  unfolding attribute_html count_of
  attribute_none a h =
      plain-append (lower a.name) (codes "=\"" ++ (attrib_to_html a.value ++ codes "\"")) h (
        plain-append (codes "=\"") (attrib_to_html a.value ++ codes "\"") (refl, refl)
          (plain-append (attrib_to_html a.value) (codes "\"")
            (inert_none (attrib_to_html a.value) (attrib_to_html-IsInert a.value)) (refl, refl)))

  attributes_none :
      (attributes : List Attribute)
      → AttributesNamed attributes
      → IsPlainName (attributes_html lower attributes)
  unfolding attributes_html count_of
  attributes_none [] h = (refl, refl)
  attributes_none (a ∷ attributes) h = elim (Bool-cases a.specified) [
    | inr e ↦ rw e (attributes_none attributes h.1)
    | inl e ↦ rw e (
        plain-append (b' ' ∷ attribute_html lower a) (attributes_html lower attributes)
          (plain-append (b' ' ∷ []) (attribute_html lower a) (refl, refl) (attribute_none a h.0))
          (attributes_none attributes h.1))
  ]

  closing_count :
      (c : ℕ) (name : Text) (children : Nodes)
      → count_of c name ≡ 0
      → count_of c (codes "</") + count_of c (codes ">") ≡ 1
      → count_of c (closing_html lower name children)
        ≡ (if has_child children || not (is_empty_tag name) then 1 else 0)
  closing_count c name children h one =
      elim (Bool-cases (has_child children || not (is_empty_tag name))) [
        | inr e ↦ rw e (unfold count_of in refl)
        | inl e ↦
            rw (e, count-append c (codes "</") (name ++ codes ">"), count-append c name (codes ">"))
              (omega (arith, h, one))
      ]

  mutual
    unfolding normalized_html tags_of

    tags_counted :
        (c : ℕ) (n : Node)
        → ((t : Text) → IsPlainName t → count_of c t ≡ 0)
        → count_of c (codes "<") + count_of c (codes ">") ≡ 1
        → count_of c (codes "</") + count_of c (codes ">") ≡ 1
        → IsNamed n
        → count_of c (normalized_html lower n) ≡ tags_of n
    tags_counted c (element tag_name attributes children) plain one two (own, its, below) =
        let name = lower tag_name in
        let close = closing_html lower name children in
        let e1 = count-append c (codes "<") (
          name
          ++ (attributes_html lower attributes
              ++ (codes ">" ++ (nodes_html lower children ++ close)))) in
        let e2 = count-append c name (
          attributes_html lower attributes
          ++ (codes ">" ++ (nodes_html lower children ++ close))) in
        let e3 =
          count-append c (attributes_html lower attributes)
            (codes ">" ++ (nodes_html lower children ++ close)) in
        let e4 = count-append c (codes ">") (nodes_html lower children ++ close) in
        let e5 = count-append c (nodes_html lower children) close in
        let e6 = closing_count c name children (plain name own) two in
        omega (
          arith,
          e1,
          e2,
          e3,
          e4,
          e5,
          e6,
          plain name own,
          plain (attributes_html lower attributes) (attributes_none attributes its),
          tags_among_counted c children plain one two below,
          one,
        )
    tags_counted c (text value) plain one two h = plain (text_to_html value) (text_none value)
    tags_counted c other plain one two h = count-nil c

    tags_among_counted :
        (c : ℕ) (ns : Nodes)
        → ((t : Text) → IsPlainName t → count_of c t ≡ 0)
        → count_of c (codes "<") + count_of c (codes ">") ≡ 1
        → count_of c (codes "</") + count_of c (codes ">") ≡ 1
        → AreNamed ns
        → count_of c (nodes_html lower ns) ≡ tags_among ns
    tags_among_counted c no_more plain one two h = count-nil c
    tags_among_counted c (sibling n ns) plain one two h = omega (
      arith,
      count-append c (normalized_html lower n) (nodes_html lower ns),
      tags_counted c n plain one two h.0,
      tags_among_counted c ns plain one two h.1,
    )

  -- The html of a node has as many `<` and as many `>` as the node has tags, whatever its texts and
  -- the values of its attributes are: neither can open or close a tag. Names hold no angle bracket.
  pub normalized_html-tags_of :
      (n : Node)
      → IsNamed n
      → (count_of b'<' (normalized_html lower n) ≡ tags_of n)
        × (count_of b'>' (normalized_html lower n) ≡ tags_of n)
  normalized_html-tags_of n h = (
    tags_counted b'<' n (λ t k. k.0) (unfold count_of in refl) (unfold count_of in refl) h,
    tags_counted b'>' n (λ t k. k.1) (unfold count_of in refl) (unfold count_of in refl) h,
  )
