-- ===== src/TableSort/Loading/Sorted.antt =====
-- A page that was loaded shows its first table sorted by its first column.
use Prim.Native.Nat.{Ordering}
use java_study_project.Base.{
  ℕ, ◌<◌, ◌≡◌, ◌≢◌, refl, sym, ap, ◌∙◌, Bool, true, false, Option, none, some, List, [], ◌∷◌, ◌++◌,
  length,
}
use mathlib.Core.Path.{subst}
use java_study_project.Text.{Text, codes}
use java_study_project.Css.{element_has_class}
use java_study_project.TableSort.Kinds.{SortKind, determine_sort_function}
use java_study_project.TableSort.Table.{
  asc, State, first_filled, can_sort, sort_fn, cell_arrow, set_arrow, next_arrow,
}
use java_study_project.TableSort.Table.Rows.{count, IsDistinct}
use java_study_project.TableSort.Table.Clicks.{IsSettled, heading_clicked-sort}
use java_study_project.TableSort.Ascending.{IsOrderedBy, IsSort, IsArithmetic, sort_fn-IsConsistent}
use java_study_project.TableSort.InOrder.{InOrder, RowPrecedes, sort_fn-InOrder}
use java_study_project.TableSort.Making.{
  HtmlTable, TableMaker, Made, add_arrows, make_sortable, init,
}
use java_study_project.TableSort.Loading.{
  NodeKind, element, Heading, returned, click_node, click_table, click_heading,
  standardista_table_sorting_init,
}
use java_study_project.TableSort.Loading.First.{
  make_sortable-IsKept, make_sortable-headings, first_child-link, run-first,
}

module _ (texts : ℕ → List Text) (lower : Text → Text) {F : Type 0} (parse_float : Text → F)
    (is_nan : F → Bool) (zero_number : F) (difference : F → F → Ordering)
    (array_sort : (ℕ → ℕ → Ordering) → List ℕ → List ℕ) {N : Type 0} (kind_of : N → NodeKind)
    (make_link : ℕ → List N → N) (arrow : N) where
  abbrev order_of : ℕ → Text → ℕ → ℕ → Ordering
  order_of column itm =
      sort_fn texts lower parse_float is_nan zero_number difference array_sort
        (determine_sort_function itm) column

  abbrev click : ℕ → HtmlTable N → TableMaker → Made (HtmlTable N)
  click =
      click_table texts lower parse_float is_nan zero_number difference array_sort kind_of make_link
        arrow

  abbrev load : Bool → Option Heading → List (HtmlTable N) → TableMaker → Made (List (HtmlTable N))
  load =
      standardista_table_sorting_init texts lower parse_float is_nan zero_number difference
        array_sort kind_of make_link arrow

  -- What a table shows that was sorted by its first column when a page was loaded.
  pub record IsShown (itm : Text) (body : List ℕ) (t : HtmlTable N) (m : TableMaker) : Type 0 where
    pub rows : t.table.body ≡ array_sort (order_of 0 itm) body
    pub ascending :
        InOrder
          (RowPrecedes texts lower parse_float is_nan zero_number difference array_sort
            (determine_sort_function itm)
            0)
          t.table.body
    pub kept : (row : ℕ) → count row t.table.body ≡ count row body
    pub up : cell_arrow t.table.headings 0 ≡ asc
    pub settled : IsSettled t.id 0 (record { table = t.table; sorter = m.sorter })

  -- What is asked of the rows: two at least, none of them twice, with a first cell that is not empty up to
  -- which none is missing, and without gaps in the column unless it is sorted by numbers.
  pub record IsSortable (itm : Text) (body : List ℕ) : Type 0 where
    pub distinct : IsDistinct body
    pub not_money : determine_sort_function itm ≢ SortKind.currency
    pub long : 1 < length body
    pub filled :
        first_filled texts lower parse_float is_nan zero_number difference array_sort 0 body
        ≡ some itm
    pub complete :
        can_sort texts lower parse_float is_nan zero_number difference array_sort
          (determine_sort_function itm)
          0
          body
        ≡ true

  module _ (sort : IsSort array_sort)
      (numbers : IsArithmetic texts lower parse_float is_nan zero_number difference
        array_sort) where
    click_table-IsShown :
        (t : HtmlTable N) (m : TableMaker) (itm : Text) (cell : List N) (cells : List (List N))
        → IsSortable itm t.table.body
        → t.has_body ≡ true
        → m.sorter.last_sorted_table ≡ none
        → t.table.headings ≡ add_arrows make_link arrow (cell ∷ cells) []
        → (after : HtmlTable N) × (maker : TableMaker) × (click 0 t m ≡ returned after maker)
          × IsShown itm t.table.body after maker
    unfolding click_table
    click_table-IsShown t m itm cell cells sortable body fresh blank =
        let st : State = record { table = t.table; sorter = m.sorter } in
        let (after, clicked, rows, headings, settled) =
          heading_clicked-sort texts lower parse_float is_nan zero_number difference array_sort t.id
            0 st itm sort.keeps sortable.distinct sortable.long (rw fresh) sortable.filled
            sortable.complete in
        (
          record t { table = after.table },
          record m { sorter = after.sorter },
          rw (body, clicked) refl,
          record {
            rows = rows;
            ascending =
                sort_fn-InOrder texts lower parse_float is_nan zero_number difference array_sort
                  (determine_sort_function itm) 0 after.table.body
                  (subst (IsOrderedBy (order_of 0 itm)) (sym rows) (
                    sort.orders (order_of 0 itm) t.table.body (
                      sort_fn-IsConsistent texts lower parse_float is_nan zero_number difference
                        array_sort numbers (determine_sort_function itm) 0 sortable.not_money)));
            kept = λ row. ap (count row) rows ∙ sort.keeps (order_of 0 itm) t.table.body row;
            up =
                ap (λ h. cell_arrow h 0) headings
                ∙ ap (λ h. cell_arrow (set_arrow 0 (next_arrow (cell_arrow h 0)) h) 0) blank
                ∙ unfold set_arrow add_arrows in refl;
            settled = settled;
          },
        )

    -- When a page was loaded whose first heading is that of the first cell of its first table, this table
    -- is sorted by its first column: all its rows stand in ascending order of their texts, dates, addresses or
    -- numbers, as the first cell that is not empty asks for, also if it holds only white space, its first
    -- heading shows an arrow upwards, and the sorter is settled. The table
    -- has the class sortable, a body with rows to be sorted, and a head whose first cell holds one node and
    -- that has no arrows; no table was sorted before, links are elements, the engine sorts and
    -- subtracts as it should, the order is not that of amounts of money, and no table throws when it is made sortable.
    pub standardista_table_sorting_init-IsShown :
        (t : HtmlTable N) (ts : List (HtmlTable N)) (m : TableMaker) (itm : Text)
        (front : List (List (List N))) (n : N) (cells : List (List N))
        → ((i : ℕ) (contents : List N) → kind_of (make_link i contents) ≡ element)
        → element_has_class (some t.classes) (codes "sortable") ≡ true
        → t.head ≡ front ++ ((n ∷ []) ∷ cells) ∷ []
        → t.has_body ≡ true
        → t.table.headings ≡ []
        → m.sorter.last_sorted_table ≡ none
        → IsSortable itm t.table.body
        → (init make_link arrow true (t ∷ ts) m).threw ≡ false
        → (after : HtmlTable N) × (later : List (HtmlTable N)) × (maker : TableMaker) × (load true
              (some (record { table = 0; cell = 0 }))
              (t ∷ ts)
              m
            ≡ returned (after ∷ later) maker)
          × IsShown itm t.table.body after maker
    unfolding standardista_table_sorting_init init click_heading click_node
    standardista_table_sorting_init-IsShown t ts m itm front n cells links sortable head body blank
          fresh ready quiet =
        let (later, maker, ran, last) = run-first make_link arrow t ts m sortable quiet in
        let made = (make_sortable make_link arrow t m).made in
        let kept = make_sortable-IsKept make_link arrow t m in
        let (after, clicker, clicked, shown) =
          click_table-IsShown made maker itm (n ∷ []) cells
            (subst (IsSortable itm) (sym kept.body) ready) (kept.has_body ∙ body) (last ∙ fresh)
            (make_sortable-headings make_link arrow t m front ((n ∷ []) ∷ cells) head
              ∙ ap (add_arrows make_link arrow ((n ∷ []) ∷ cells)) blank) in
        let child = first_child-link make_link arrow t m front n cells head in
        (
          after,
          later,
          clicker,
          rw (ran, child, links 0 (n ∷ []), clicked) refl,
          subst (λ rows. IsShown itm rows after clicker) kept.body shown,
        )
