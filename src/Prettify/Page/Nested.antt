-- ===== src/Prettify/Page/Nested.antt =====
-- The test for nested elements, on a page of html.
use java_study_project.Base.{
  ℕ, ◌≡◌, refl, ap, arith, Bool, true, false, ◌&&◌, List, [], ◌∷◌, leb, if◌then◌else◌, All,
}
use java_study_project.Text.{Text, codes, eq_text}
use java_study_project.Prettify.Page.{Browser, is_nested, rewrite_element, visit}
use java_study_project.Prettify.Document.{visited, has_prettyprint, is_code_tag}

abbrev is_small : ℕ → Bool
is_small c = leb b'a' c && leb c b'z'

-- A text without small letters.
abbrev pub IsUpperCase : Text → Type 0
IsUpperCase = All (λ c. is_small c ≡ false)

eq_text-small : (t s : Text) (c : ℕ) → IsUpperCase t → is_small c ≡ true → eq_text t (c ∷ s) ≡ false
eq_text-small [] s c upper small = refl
eq_text-small (d ∷ t) s c (upper, _) small = ground arith

is_code_tag-IsUpperCase : (t : Text) → IsUpperCase t → is_code_tag t ≡ false
is_code_tag-IsUpperCase t upper = rw (
  eq_text-small t (codes "re") b'p' upper refl,
  eq_text-small t (codes "ode") b'c' upper refl,
  eq_text-small t (codes "mp") b'x' upper refl,
)

and_true : (b : Bool) → (b && true) ≡ b
and_true true = refl
and_true false = refl

module _ {D E : Type 0} (b : Browser D E) where
  is_nested-IsUpperCase :
      (parents : List E) (d : D)
      → ((p : E) → IsUpperCase (b.document.tag_name p d))
      → is_nested b parents d ≡ false
  unfolding is_nested
  is_nested-IsUpperCase [] d upper = refl
  is_nested-IsUpperCase (p ∷ parents) d upper = rw (
    is_code_tag-IsUpperCase (b.document.tag_name p d) (upper p),
    is_nested-IsUpperCase parents d upper,
  )

  -- Where the tag names of a page are in upper case, as in html, the test for nested elements never
  -- holds: every element of the class is rewritten, whatever stands around it.
  pub visit-rewrite_element :
      (cs : E) (d : D)
      → ((p : E) → IsUpperCase (b.document.tag_name p d))
      → visit b cs d ≡ (
          if has_prettyprint (b.document.class_name cs d)
          then rewrite_element b cs d
          else visited d)
  unfolding visit
  visit-rewrite_element cs d upper =
      rw (is_nested-IsUpperCase (b.document.ancestors cs d) d upper) (
        ap (λ wanted. if wanted then rewrite_element b cs d else visited d)
          (and_true (has_prettyprint (b.document.class_name cs d))))
