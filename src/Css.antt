-- ===== src/Css.antt =====
-- webapps/admin/js/css.js: classes of elements. An element is known by its `className`; the page's
-- `getElementById` and `getElementsByTagName` are arguments, the elements that they give.
pub mod Words
pub mod Classes
use java_study_project.Base.{
  ℕ, Bool, true, false, not, ◌&&◌, ◌||◌, Option, none, some, List, [], ◌∷◌, ◌++◌, leb, ◌==◌,
  if◌then◌else◌, length, drop,
}
use java_study_project.Text.{Text, eq_text, starts_with}
use java_study_project.Text.Split.{split, join}

pub record Element : Type 0 where
  pub class_name : Text

-- The class `\w` of a pattern.
abbrev pub is_word : ℕ → Bool
is_word c =
    leb b'0' c && leb c b'9' || leb b'A' c && leb c b'Z' || leb b'a' c && leb c b'z' || c == b'_'

abbrev pub starts_word : Text → Bool
starts_word [] = false
starts_word (c ∷ s) = is_word c

abbrev pub differ : Bool → Bool → Bool
differ true b = not b
differ false b = b

-- Whether the last character of a text, or `before` if it has none, is one of a word.
abbrev pub ends_word : Bool → Text → Bool
ends_word before [] = before
ends_word before (c ∷ s) = ends_word (is_word c) s

-- `\b` + word + `\b` at the head of `s`; `before` tells of the character in front of it.
abbrev pub word_here : Text → Bool → Text → Bool
word_here word before s =
    differ before (starts_word s)
    && (starts_with word s && differ (ends_word before word) (starts_word (drop (length word) s)))

-- `s.match(new RegExp('\\b' + word + '\\b'))` for a word with no character that is special in a
-- pattern; the names that the scripts pass are such.
unfoldable pub has_word : Text → Bool → Text → Bool
has_word word before [] = word_here word before []
has_word word before (c ∷ s) = word_here word before (c ∷ s) || has_word word (is_word c) s

unfoldable pub private_get_class_array : Element → List Text
unfolding split
private_get_class_array el = split b' ' el.class_name

unfoldable pub private_create_class_string : List Text → Text
unfolding join
private_create_class_string class_array = join b' ' class_array

-- `none` is an element that is not there.
unfoldable pub element_has_class : Option Element → Text → Bool
unfolding has_word
element_has_class none class_string = false
element_has_class (some el) class_string = has_word class_string false el.class_name

unfoldable pub get_elements_by_class : List Element → Text → List Element
unfolding element_has_class
get_elements_by_class [] search_class = []
get_elements_by_class (el ∷ els) search_class =
    let rest = get_elements_by_class els search_class in
    if element_has_class (some el) search_class then el ∷ rest else rest

unfoldable pub add_class_to_element : Element → Text → Element
unfolding element_has_class private_get_class_array private_create_class_string
add_class_to_element el class_string =
    if element_has_class (some el) class_string then el else record {
      class_name = private_create_class_string (private_get_class_array el ++ class_string ∷ []);
    }

-- The loop that blanks the first entry that is equal to the class.
unfoldable pub blank_first : Text → List Text → List Text
blank_first class_string [] = []
blank_first class_string (w ∷ ws) =
    let rest = blank_first class_string ws in if eq_text class_string w then [] ∷ ws else w ∷ rest

unfoldable pub remove_class_from_element : Element → Text → Element
unfolding private_get_class_array private_create_class_string blank_first
remove_class_from_element el class_string = record {
  class_name = private_create_class_string (blank_first class_string (private_get_class_array el));
}

-- `addClassToId`: with no element of that id, the call throws.
unfoldable pub add_class_to_id : Option Element → Text → Option Element
unfolding add_class_to_element
add_class_to_id none class_string = none
add_class_to_id (some el) class_string = some (add_class_to_element el class_string)

unfoldable pub remove_class_from_id : Option Element → Text → Option Element
unfolding remove_class_from_element
remove_class_from_id none class_string = none
remove_class_from_id (some el) class_string = some (remove_class_from_element el class_string)
