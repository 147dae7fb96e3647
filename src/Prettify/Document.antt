-- ===== src/Prettify/Document.antt =====
-- What `prettyPrint` uses of a page: the document, and the tests of its names and texts.
use java_study_project.Base.{
  Bool, true, false, not, ◌&&◌, ◌||◌, Option, none, some, List, [], ◌∷◌, ◌==◌, if◌then◌else◌, drop,
}
use java_study_project.Text.{Text, codes, eq_text, starts_with, index_of}
use java_study_project.Css.{is_word, starts_word, differ}
use java_study_project.Prettify.NoCode.{word_of}
use java_study_project.Prettify.Dom.{Attribute, Nodes}

-- What the script uses of a document `D` whose nodes are named by `E`. A class name that is not there
-- is empty, and `replace_child` gives nothing if the node that is to go has no parent.
pub record Document (D E : Type 0) : Type 0 where
  pub get_elements_by_tag_name : Text → D → List E
  pub descendants_by_tag_name : E → Text → D → List E
  pub class_name : E → D → Text
  pub tag_name : E → D → Text
  pub ancestors : E → D → List E
  pub attributes : E → D → List Attribute
  pub inner_html : E → D → Text
  pub children : E → D → Nodes
  pub set_inner_html : E → Text → D → D
  pub create_element : Text → D → E × D
  pub create_text_node : Text → D → E × D
  pub set_class_name : E → Text → D → D
  pub set_attribute : E → Text → Text → D → D
  pub replace_child : E → E → D → Option D

-- What is left of the document by code that returns, and by code that a TypeError leaves.
pub data Visit (D : Type 0) : Type 0 where
  visited : D → Visit D
  threw : D → Visit D

abbrev pub and_then : {D : Type 0} → Visit D → (D → Visit D) → Visit D
and_then (visited d) f = f d
and_then (threw d) f = threw d

abbrev pub replaced : {D : Type 0} → D → Option D → Visit D
replaced d none = threw d
replaced d (some changed) = visited changed

-- `content.replace(/(?:\r\n?|\n)$/, '')`.
unfoldable pub strip_newline : Text → Text
strip_newline [] = []
strip_newline (c ∷ s) =
    let rest = strip_newline s in
    if c == b'\r' && (eq_text s [] || eq_text s (b'\n' ∷ [])) || c == b'\n' && eq_text s []
    then []
    else c ∷ rest

abbrev pub holds_extension : Bool → Text → Bool
holds_extension before s =
    differ before (starts_word s)
    && (starts_with (codes "lang-") s && not (eq_text (word_of (drop 5 s)) []))

-- Group 1 of `className.match(/\blang-(\w+)\b/)`, empty if there is no match; `before` tells whether the
-- character in front is one of a word.
unfoldable pub lang_extension : Bool → Text → Text
lang_extension before [] = []
lang_extension before (c ∷ s) =
    let rest = lang_extension (is_word c) s in
    if holds_extension before (c ∷ s) then word_of (drop 5 (c ∷ s)) else rest

abbrev pub has_prettyprint : Text → Bool
has_prettyprint class_name = elim (index_of (codes "prettyprint") class_name) [
  | none ↦ false
  | some i ↦ true
]

abbrev pub is_code_tag : Text → Bool
is_code_tag tag_name =
    eq_text tag_name (codes "pre")
    || (eq_text tag_name (codes "code") || eq_text tag_name (codes "xmp"))
