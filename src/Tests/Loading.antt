-- ===== src/Tests/Loading.antt =====
-- A page that was loaded, `webapps/admin/js/standardista-table-sorting.js`.
use Prim.Native.Nat.{compare}
use java_study_project.Base.{ℕ, ◌+◌, ◌*◌, ◌≡◌, refl, arith, true, false, none, some, List, [], ◌∷◌}
use java_study_project.Text.{codes}
use java_study_project.Text.Number.{scan_digits}
use java_study_project.Css.{element_has_class}
use java_study_project.TableSort.Table.{first_filled}
use java_study_project.TableSort.Making.{HtmlTable, TableMaker, init}
use java_study_project.TableSort.Loading.{
  element, text, returned, click_node, standardista_table_sorting_init,
}
use java_study_project.TableSort.Loading.Sorted.{
  IsShown, IsSortable, standardista_table_sorting_init-IsShown,
}
use java_study_project.Tests.Sorting.{insertion_sort-IsSort, whole-IsArithmetic, beta}
use java_study_project.Tests.Clicks.{insertion_sort, cells, page-IsDistinct}

-- A node is its number; a link is 100 for its column and its first child.
abbrev link : ℕ → List ℕ → ℕ
link i [] = 100 * (i + 1)
link i (n ∷ ns) = 100 * (i + 1) + n

abbrev table : HtmlTable ℕ
table = record {
  id = [];
  classes = record { class_name = codes "sortable" };
  head = ((1 ∷ []) ∷ (4 ∷ 5 ∷ []) ∷ []) ∷ [];
  has_body = true;
  table = record { body = 0 ∷ 1 ∷ 2 ∷ []; rows = λ r. record { class_name = [] }; headings = [] };
}

abbrev maker : TableMaker
maker = record {
  sorter = record {
    is_odd = false;
    sort_column_index = none;
    new_rows = [];
    last_sorted_table = none;
  };
  last_assigned_id = 0;
}

rows-IsSortable :
    IsSortable cells
      (λ s. s)
      (scan_digits 10 0)
      (λ n. false)
      0
      compare
      insertion_sort
      (λ n. element)
      link
      9
      (codes "beta")
      (0 ∷ 1 ∷ 2 ∷ [])
rows-IsSortable = record {
  distinct = page-IsDistinct;
  not_money = beta;
  long = omega arith;
  filled = unfold first_filled in refl;
  complete = refl;
}

standardista_table_sorting_init-IsShown_example :
    (after : HtmlTable ℕ) × (later : List (HtmlTable ℕ)) × (m : TableMaker)
    × (standardista_table_sorting_init cells
          (λ s. s)
          (scan_digits 10 0)
          (λ n. false)
          0
          compare
          insertion_sort
          (λ n. element)
          link
          9
          true
          (some (record { table = 0; cell = 0 }))
          (table ∷ [])
          maker
        ≡ returned (after ∷ later) m)
    × IsShown cells
        (λ s. s)
        (scan_digits 10 0)
        (λ n. false)
        0
        compare
        insertion_sort
        (λ n. element)
        link
        9
        (codes "beta")
        (0 ∷ 1 ∷ 2 ∷ [])
        after
        m
standardista_table_sorting_init-IsShown_example =
    standardista_table_sorting_init-IsShown cells (λ s. s) (scan_digits 10 0) (λ n. false) 0 compare
      insertion_sort (λ n. element) link 9 insertion_sort-IsSort whole-IsArithmetic table [] maker
      (codes "beta") [] 1 ((4 ∷ 5 ∷ []) ∷ []) (λ i contents. refl)
      (unfold element_has_class in refl) refl refl refl refl rows-IsSortable (unfold init in refl)

-- A heading that holds two nodes keeps the second in front of its link: where that is a text, nothing is
-- sorted.
text_heading :
    click_node cells
      (λ s. s)
      (scan_digits 10 0)
      (λ n. false)
      0
      compare
      insertion_sort
      (λ n. text)
      link
      9
      text
      0
      table
      maker
    ≡ returned table maker
unfolding click_node
text_heading = refl
