-- ===== src/TableSort/Sorted.antt =====
-- What one click and two clicks on a heading make of the rows.
use Prim.Native.Nat.{Ordering}
use java_study_project.Base.{ℕ, ◌<◌, ◌≡◌, ◌≢◌, Bool, true, false, ◌&&◌, some, List, length}
use java_study_project.Text.{Text}
use java_study_project.TableSort.Kinds.{SortKind, determine_sort_function}
use java_study_project.TableSort.Table.{
  State, Outcome, done, heading_clicked, first_filled, can_sort, all_have, same_table, same_column,
}
use java_study_project.TableSort.Table.Rows.{count, IsDistinct}
use java_study_project.TableSort.Ascending.{IsSort, IsArithmetic, heading_clicked-IsOrderedBy}
use java_study_project.TableSort.Descending.{heading_clicked-opposite}
use java_study_project.TableSort.InOrder.{InOrder, RowPrecedes, sort_fn-InOrder, opposite-InOrder}

module _ (texts : ℕ → List Text) (lower : Text → Text) {N : Type 0} (parse_float : Text → N)
    (is_nan : N → Bool) (zero_number : N) (difference : N → N → Ordering)
    (array_sort : (ℕ → ℕ → Ordering) → List ℕ → List ℕ)
    (numbers : IsArithmetic texts lower parse_float is_nan zero_number difference array_sort) where
  abbrev click : Text → ℕ → State → Outcome
  click = heading_clicked texts lower parse_float is_nan zero_number difference array_sort

  -- May the first of two rows stand in front, by the texts of a column?
  abbrev Precedes : Text → ℕ → ℕ → ℕ → Type 0
  Precedes itm column =
      RowPrecedes texts lower parse_float is_nan zero_number difference array_sort
        (determine_sort_function itm) column

  -- A click on a column by which the table is not sorted yet puts its rows in ascending order of their
  -- texts, dates, addresses or numbers, as the first cell of the column that is not empty asks for, also if
  -- that cell holds only white space, and keeps every row. The engine sorts and subtracts as it should, the
  -- order is not that of amounts of money, and the table has two rows at least, none of them twice, each
  -- with a cell in the column unless it is sorted by numbers.
  pub heading_clicked-ascending :
      (table_id : Text) (column : ℕ) (st : State) (itm : Text)
      → IsSort array_sort
      → determine_sort_function itm ≢ SortKind.currency
      → IsDistinct st.table.body
      → 1 < length st.table.body
      → (same_table st.sorter.last_sorted_table table_id
          && same_column st.sorter.sort_column_index column)
        ≡ false
      → first_filled texts lower parse_float is_nan zero_number difference array_sort column
          st.table.body
        ≡ some itm
      → can_sort texts lower parse_float is_nan zero_number difference array_sort
          (determine_sort_function itm)
          column
          st.table.body
        ≡ true
      → (after : State) × (click table_id column st ≡ done after)
        × InOrder (Precedes itm column) after.table.body
        × ((row : ℕ) → count row after.table.body ≡ count row st.table.body)
  heading_clicked-ascending table_id column st itm sort kind distinct long fresh filled complete =
      let (after, clicked, ordered, kept) =
        heading_clicked-IsOrderedBy texts lower parse_float is_nan zero_number difference array_sort
          numbers table_id column st itm sort kind distinct long fresh filled complete in
      (
        after,
        clicked,
        sort_fn-InOrder texts lower parse_float is_nan zero_number difference array_sort
            (determine_sort_function itm) column after.table.body ordered,
        kept,
      )

  -- A click on a column by which the table is not sorted yet, and a second one, put its rows in
  -- descending order of their texts, dates, addresses or numbers, as the first cell of the column that is
  -- not empty asked for at the first click, also if that cell holds only white space, and keep every row.
  -- The engine sorts and subtracts as it should, the order is not that of amounts of money, and the table
  -- has two rows at least, none of them twice, each with a cell in the column.
  pub heading_clicked-descending :
      (table_id : Text) (column : ℕ) (st : State) (itm : Text)
      → IsSort array_sort
      → determine_sort_function itm ≢ SortKind.currency
      → IsDistinct st.table.body
      → 1 < length st.table.body
      → (same_table st.sorter.last_sorted_table table_id
          && same_column st.sorter.sort_column_index column)
        ≡ false
      → first_filled texts lower parse_float is_nan zero_number difference array_sort column
          st.table.body
        ≡ some itm
      → all_have texts lower parse_float is_nan zero_number difference array_sort column
          st.table.body
        ≡ true
      → (once twice : State) × (click table_id column st ≡ done once)
        × (click table_id column once ≡ done twice)
        × InOrder (λ a b. Precedes itm column b a) twice.table.body
        × ((row : ℕ) → count row twice.table.body ≡ count row st.table.body)
  heading_clicked-descending table_id column st itm sort kind distinct long fresh filled full =
      let (once, twice, clicked, again, ordered, kept) =
        heading_clicked-opposite texts lower parse_float is_nan zero_number difference array_sort
          numbers table_id column st itm sort kind distinct long fresh filled full in
      (
        once,
        twice,
        clicked,
        again,
        opposite-InOrder texts lower parse_float is_nan zero_number difference array_sort
            (determine_sort_function itm) column twice.table.body ordered,
        kept,
      )
