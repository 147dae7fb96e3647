-- ===== src/Tests/TableSort.antt =====
-- Sorting keys and cell texts, `webapps/admin/js/standardista-table-sorting.js`.

use java_study_project.Base.{◌≡◌, refl, []}
use java_study_project.Text.{codes}
use java_study_project.TableSort.Inner.{
  Cell, Children, inner_text, after_inner_text, inner_text-stale, set_children,
}
use java_study_project.TableSort.Keys.{make_standard_ip_address}
use java_study_project.TableSort.Kinds.{SortKind, determine_sort_function}

abbrev nested_children : Children
nested_children = Children.other_node (
    Children.element (Cell.cell [] [] (Children.text_node (codes "7") Children.last)) Children.last)

abbrev nested : Cell
nested = Cell.cell [] [] nested_children

inner_text-stale_example :
    (inner_text (after_inner_text nested) ≡ inner_text nested)
    × (inner_text
          (set_children (Children.text_node (codes "8") Children.last) (after_inner_text nested))
        ≡ codes "7")
unfolding inner_text
inner_text-stale_example =
    inner_text-stale [] nested_children (Children.text_node (codes "8") Children.last) (λ e. cc)

an_address : make_standard_ip_address (codes "10.0.0.9") ≡ codes "010.000.000.009"
unfolding make_standard_ip_address
an_address = refl

a_version : determine_sort_function (codes "1.2.3.4") ≡ SortKind.ip
unfolding determine_sort_function
a_version = refl

an_amount : determine_sort_function (codes "$12") ≡ SortKind.currency
unfolding determine_sort_function
an_amount = refl
