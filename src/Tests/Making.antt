-- ===== src/Tests/Making.antt =====
-- Headings that become links, `webapps/admin/js/standardista-table-sorting.js`.
use java_study_project.Base.{◌≡◌, refl, ℕ, ◌+◌, ◌*◌, true, none, List, [], ◌∷◌}
use java_study_project.Text.{codes}
use java_study_project.TableSort.Making.{HtmlTable, TableMaker, make_sortable, make_cell}
use java_study_project.TableSort.Making.Cells.{IsMade, make_sortable-IsMade}

-- A node is its number; a link is 100 for its column and the numbers in it.
abbrev sum : List ℕ → ℕ
sum [] = 0
sum (n ∷ ns) = n + sum ns

abbrev link : ℕ → List ℕ → ℕ
link i contents = 100 * (i + 1) + sum contents

abbrev heading : List (List ℕ)
heading = (1 ∷ 2 ∷ 3 ∷ []) ∷ (4 ∷ []) ∷ []

abbrev table : HtmlTable ℕ
table = record {
  id = [];
  classes = record { class_name = codes "sortable autostripe" };
  head = heading ∷ [];
  has_body = true;
  table = record { body = 0 ∷ 1 ∷ []; rows = λ r. record { class_name = [] }; headings = [] };
}

abbrev maker : TableMaker
maker = record {
  sorter = record {
    is_odd = true;
    sort_column_index = none;
    new_rows = [];
    last_sorted_table = none;
  };
  last_assigned_id = 12;
}

make_sortable-IsMade_example : IsMade link 9 table [] heading (make_sortable link 9 table maker)
make_sortable-IsMade_example = make_sortable-IsMade link 9 table maker [] heading refl

-- The second of three children is left in front of the link.
second_stays : make_cell link 9 0 (1 ∷ 2 ∷ 3 ∷ []) ≡ 2 ∷ 104 ∷ 9 ∷ []
unfolding make_cell
second_stays = refl
