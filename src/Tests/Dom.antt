-- ===== src/Tests/Dom.antt =====
-- The html of nodes, `webapps/admin/js/prettify.js`.
use java_study_project.Base.{◌≡◌, refl, true, [], ◌∷◌}
use java_study_project.Text.{Text, codes}
use java_study_project.Prettify.Dom.{Node, element, text, other, no_more, sibling, normalized_html}
use java_study_project.Prettify.Dom.Inert.{count_of, IsNamed, tags_of, normalized_html-tags_of}

abbrev same : Text → Text
same s = s

abbrev node : Node
node =
    element (codes "pre")
      (record { name = codes "title"; value = codes "<b>"; specified = true } ∷ [])
      (sibling (text (codes "a < b > c"))
        (sibling (element (codes "br") [] no_more) (sibling other no_more)))

node-IsNamed : IsNamed same node
unfolding count_of
node-IsNamed = ((refl, refl), ((refl, refl), tt), (tt, (((refl, refl), tt, tt), (tt, tt))))

normalized_html-tags_of_example :
    (count_of b'<' (normalized_html same node) ≡ tags_of same node)
    × (count_of b'>' (normalized_html same node) ≡ tags_of same node)
normalized_html-tags_of_example = normalized_html-tags_of same node node-IsNamed

html_of_node :
    normalized_html same node ≡ codes "<pre title=\"&lt;b&gt;\">a &lt; b &gt; c<br></pre>"
unfolding normalized_html
html_of_node = refl
