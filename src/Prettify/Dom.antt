-- ===== src/Prettify/Dom.antt =====
-- `normalizedHtml` and `getInnerHtml`: the html of an element's contents.
pub mod Inert
use java_study_project.Base.{Bool, true, false, not, ◌||◌, List, [], ◌∷◌, ◌++◌, if◌then◌else◌}
use java_study_project.Text.{Text, codes, eq_text}
use java_study_project.Prettify.Html.{attrib_to_html, text_to_html}

pub record Attribute : Type 0 where
  pub name : Text
  pub value : Text
  pub specified : Bool

-- Nodes by their types: an element with its tag name, attributes and children, a text (also one in a
-- CDATA section), and those of other types.
mutual
  pub data Node : Type 0 where
    element : Text → List Attribute → Nodes → Node
    text : Text → Node
    other : Node

  pub data Nodes : Type 0 where
    no_more : Nodes
    sibling : Node → Nodes → Nodes

abbrev pub is_raw_content : Text → Bool
is_raw_content tag_name = eq_text tag_name (codes "XMP")

abbrev pub has_child : Nodes → Bool
has_child no_more = false
has_child (sibling n ns) = true

-- `/^(?:br|link|img)$/`.
abbrev pub is_empty_tag : Text → Bool
is_empty_tag name =
    eq_text name (codes "br") || eq_text name (codes "link") || eq_text name (codes "img")

module _ (to_lower_case : Text → Text) where
  unfoldable pub attribute_html : Attribute → Text
  unfolding attrib_to_html
  attribute_html a = to_lower_case a.name ++ (codes "=\"" ++ (attrib_to_html a.value ++ codes "\""))

  unfoldable pub attributes_html : List Attribute → Text
  unfolding attribute_html
  attributes_html [] = []
  attributes_html (a ∷ attributes) =
      (if a.specified then b' ' ∷ attribute_html a else []) ++ attributes_html attributes

  abbrev pub closing_html : Text → Nodes → Text
  closing_html name children =
      if has_child children || not (is_empty_tag name)
      then codes "</" ++ (name ++ codes ">")
      else []

  -- What is pushed on `out` for a node, and for a node and those behind it.
  unfoldable mutual
    unfolding attributes_html text_to_html

    pub normalized_html : Node → Text
    normalized_html (element tag_name attributes children) =
        codes "<"
        ++ (to_lower_case tag_name
            ++ (attributes_html attributes
                ++ (codes ">"
                    ++ (nodes_html children ++ closing_html (to_lower_case tag_name) children))))
    normalized_html (text value) = text_to_html value
    normalized_html other = []

    pub nodes_html : Nodes → Text
    nodes_html no_more = []
    nodes_html (sibling n ns) = normalized_html n ++ nodes_html ns

  -- `getInnerHtml(node)`: `inner_html` is the browser's, which works or does not.
  unfoldable pub get_inner_html : Bool → Text → Text → Nodes → Text
  unfolding nodes_html
  get_inner_html inner_html_works tag_name inner_html children =
      if inner_html_works
      then (if is_raw_content tag_name then text_to_html inner_html else inner_html)
      else nodes_html children
