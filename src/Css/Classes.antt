-- ===== src/Css/Classes.antt =====
-- Adding, testing and removing a class.
use java_study_project.Base.{
  ℕ, Bool, true, false, ◌||◌, ◌≡◌, ◌≢◌, refl, some, List, [], ◌∷◌, ◌++◌, ◌==◌, if◌then◌else◌, inl,
  inr, Bool-cases, ==_iff,
}
use java_study_project.Text.{Text, eq_text, Lacks}
use java_study_project.Text.Search.{eq_text_refl}
use java_study_project.Text.Split.{split, glue, join-split, join-append_last, split-ne-nil}
use java_study_project.Css.{
  Element, is_word, starts_word, element_has_class, add_class_to_element, remove_class_from_element,
  blank_first,
}
use java_study_project.Css.Words.{IsWord, has_word-prefix, has_word-last}

-- What is written: nothing if the test finds the class, else a blank and the class.
add_class_lem :
    (el : Element) (c : Text)
    → add_class_to_element el c ≡ (
        if element_has_class (some el) c
        then el
        else record { class_name = el.class_name ++ b' ' ∷ c })
unfolding add_class_to_element
add_class_lem el c = rw (
  join-append_last b' ' (split b' ' el.class_name) c (split-ne-nil b' ' el.class_name),
  join-split,
)

-- After a class was added the element has it, and adding it once more changes nothing. The class is
-- a word of letters, digits and underscores.
pub add_class-has_class :
    (el : Element) (c : Text)
    → IsWord c
    → c ≢ []
    → (element_has_class (some (add_class_to_element el c)) c ≡ true)
      × (add_class_to_element (add_class_to_element el c) c ≡ add_class_to_element el c)
add_class-has_class el c h n = (has, rw (add_class_lem (add_class_to_element el c) c, has))
  where
    has : element_has_class (some (add_class_to_element el c)) c ≡ true
    has = elim (Bool-cases (element_has_class (some el) c)) [
      | inl e ↦ rw (add_class_lem el c, e) e
      | inr e ↦
          rw (add_class_lem el c, e)
            (unfold element_has_class in has_word-last c el.class_name false h n)
    ]

-- An element whose class name begins with the class and goes on with a character that is none of a
-- word, such as a hyphen, passes for having the class, and the class is not added to it.
pub add_class-prefix :
    (c s : Text)
    → IsWord c
    → c ≢ []
    → starts_word s ≡ false
    → add_class_to_element (record { class_name = c ++ s }) c ≡ record { class_name = c ++ s }
add_class-prefix c s h n e =
    let has : element_has_class (some (record { class_name = c ++ s })) c ≡ true =
      unfold element_has_class in has_word-prefix c s h n e in
    rw (add_class_lem (record { class_name = c ++ s }) c, has)

-- The class is one of the entries.
abbrev pub has_entry : Text → List Text → Bool
has_entry c [] = false
has_entry c (w ∷ ws) = eq_text c w || has_entry c ws

glue-append : (c : ℕ) (ws vs : List Text) → ws ≢ [] → glue c (ws ++ vs) ≡ glue c ws ++ vs
glue-append c [] vs h = absurd (h refl)
glue-append c (w ∷ ws) vs h = refl

split-Lacks : (sep : ℕ) (w : Text) → Lacks sep w → split sep w ≡ w ∷ []
unfolding split
split-Lacks sep [] h = refl
split-Lacks sep (c ∷ w) h = elim (Bool-cases (c == sep)) [
  | inl e ↦ absurd (h.0 ((==_iff c sep).0 e))
  | inr e ↦ rw (e, split-Lacks sep w h.1)
]

split-append :
    (sep : ℕ) (s w : Text) → Lacks sep w → split sep (s ++ sep ∷ w) ≡ split sep s ++ w ∷ []
unfolding split
split-append sep [] w h = rw ((==_iff sep sep).1 refl, split-Lacks sep w h)
split-append sep (c ∷ s) w h = elim (Bool-cases (c == sep)) [
  | inl e ↦ rw (e, split-append sep s w h)
  | inr e ↦
      rw (e, split-append sep s w h) (glue-append c (split sep s) (w ∷ []) (split-ne-nil sep s))
]

blank_first-last :
    (c : Text) (ws : List Text)
    → has_entry c ws ≡ false
    → blank_first c (ws ++ c ∷ []) ≡ ws ++ [] ∷ []
unfolding blank_first
blank_first-last c [] h = rw eq_text_refl
blank_first-last c (w ∷ ws) h = elim (Bool-cases (eq_text c w)) [
  | inl e ↦ let n : true ≡ false = rw e at h in cc
  | inr e ↦ rw (e, blank_first-last c ws (rw e at h))
]

IsWord-Lacks : (c : Text) → IsWord c → Lacks b' ' c
IsWord-Lacks [] h = tt
IsWord-Lacks (d ∷ c) (h, rest) =
    ((λ e. let n : is_word b' ' ≡ true = rw e at h in cc), IsWord-Lacks c rest)

-- Adding a class that the element lacks and removing it again does not give the old class name back:
-- a blank stays behind at its end. The class is of letters, digits and underscores.
pub remove_class-add_class :
    (el : Element) (c : Text)
    → IsWord c
    → element_has_class (some el) c ≡ false
    → has_entry c (split b' ' el.class_name) ≡ false
    → remove_class_from_element (add_class_to_element el c) c
      ≡ record { class_name = el.class_name ++ b' ' ∷ [] }
unfolding remove_class_from_element
remove_class-add_class el c word new entry = rw (
  add_class_lem el c,
  new,
  split-append b' ' el.class_name c (IsWord-Lacks c word),
  blank_first-last c (split b' ' el.class_name) entry,
  join-append_last b' ' (split b' ' el.class_name) [] (split-ne-nil b' ' el.class_name),
  join-split,
)
