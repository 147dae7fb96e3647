-- ===== src/TableSort/Table/Errors.antt =====
-- A click that fails.
use Prim.Native.Nat.{Ordering}
use java_study_project.Base.{
  arith, ℕ, ◌≡◌, ◌==◌, true, some, ◌⊎◌, sym, Bool, ◌&&◌, Option, List, [], leb, length, inl, inr,
  Bool-cases, Option-cases,
}
use java_study_project.Text.{Text}
use java_study_project.Text.Search.{eq_text_refl}
use java_study_project.TableSort.Kinds.{SortKind, determine_sort_function}
use java_study_project.TableSort.Table.{
  Arrow, State, Outcome, done, threw, reverse_onto, finish, reorder, first_filled, heading_clicked,
  same_table, same_column, cell_arrow, can_sort, sort_fn, set_column,
}

threw_state : {s t : State} → threw s ≡ threw t → s ≡ t
threw_state e = cc

module _ (texts : ℕ → List Text) (lower : Text → Text) {N : Type 0} (parse_float : Text → N)
    (is_nan : N → Bool) (zero_number : N) (difference : N → N → Ordering)
    (array_sort : (ℕ → ℕ → Ordering) → List ℕ → List ℕ) where
  abbrev click : Text → ℕ → State → Outcome
  click = heading_clicked texts lower parse_float is_nan zero_number difference array_sort

  abbrev filled : ℕ → List ℕ → Option Text
  filled = first_filled texts lower parse_float is_nan zero_number difference array_sort

  abbrev sortable : SortKind → ℕ → List ℕ → Bool
  sortable = can_sort texts lower parse_float is_nan zero_number difference array_sort

  reorder-threw :
      (table_id : Text) (column : ℕ) (previous : Arrow) (kind : SortKind) (st after : State)
      → reorder texts lower parse_float is_nan zero_number difference array_sort table_id column
          previous kind st
        ≡ threw after
      → after ≡ set_column column st
  unfolding reorder
  reorder-threw table_id column previous kind st after h =
      elim (Bool-cases (
        same_table st.sorter.last_sorted_table table_id
        && same_column st.sorter.sort_column_index column)) [
          | inl e ↦
              let n : done (finish table_id column previous (reverse_onto st.sorter.new_rows []) st)
                  ≡ threw after =
                rw e at h in
              cc
          | inr e ↦ elim (Bool-cases (sortable kind column st.table.body)) [
            | inl f ↦
                let n : done (
                      finish table_id column previous
                        (array_sort
                          (sort_fn texts lower parse_float is_nan zero_number difference array_sort
                            kind column)
                          st.table.body)
                        (set_column column st))
                    ≡ threw after =
                  rw (e, f) at h in
                cc
            | inr f ↦
                let n : threw (set_column column st) ≡ threw after = rw (e, f) at h in
                sym (threw_state n)
          ]
        ]

  -- A click that ends with a TypeError changes nothing, or nothing but the column that the sorter keeps:
  -- the rows, their classes, the arrows and the table that it was last used on stay as they were.
  pub heading_clicked-threw :
      (table_id : Text) (column : ℕ) (st after : State)
      → click table_id column st ≡ threw after
      → (after ≡ st) ⊎ (after ≡ set_column column st)
  unfolding heading_clicked
  heading_clicked-threw table_id column st after h =
      elim (Bool-cases (leb (length st.table.body) 1)) [
        | inl e ↦ let n : done st ≡ threw after = rw e at h in cc
        | inr e ↦ elim (Option-cases (filled column st.table.body)) [
          | inl f ↦
              let n : threw st ≡ threw after = rw (e, f, heading_clicked) at h in
              inl (sym (threw_state n))
          | inr (itm, f) ↦ inr (
              reorder-threw table_id column (cell_arrow st.table.headings column)
                (determine_sort_function itm) st after (rw (e, f, heading_clicked) at h))
        ]
      ]

  -- The column that a failed click leaves behind: on the table that was sorted last, a further click on it
  -- turns the rows round as if they were sorted by it.
  reorder-after_threw :
      (table_id : Text) (column : ℕ) (previous : Arrow) (kind : SortKind) (st : State)
      → st.sorter.last_sorted_table ≡ some table_id
      → reorder texts lower parse_float is_nan zero_number difference array_sort table_id column
          previous kind
          (set_column column st)
        ≡ done (
            finish table_id column previous
              (reverse_onto st.sorter.new_rows [])
              (set_column column st))
  unfolding reorder
  reorder-after_threw table_id column previous kind st last =
      let own : (column == column) ≡ true = ground arith in rw (last, eq_text_refl, own)
