-- ===== src/TableSort/Table/Clicks.antt =====
-- A click that sorts, a click that reverses, and the arrows.
use Prim.Native.Nat.{Ordering}
use mathlib.Core.Option
use java_study_project.Base.{
  ℕ, zero, suc, ◌+◌, ◌≤◌, ◌<◌, ◌≡◌, refl, sym, ap, ◌∙◌, arith, Bool, true, false, ◌&&◌, Option,
  some, List, [], ◌∷◌, leb, ◌==◌, if◌then◌else◌, length, get_elem?, map,
}
use java_study_project.Text.{Text}
use java_study_project.Text.Search.{eq_text_refl}
use java_study_project.TableSort.Kinds.{SortKind, determine_sort_function}
use java_study_project.TableSort.Table.{
  Arrow, State, Outcome, done, do_stripe, move_loop, move_rows, reverse_onto, finish, reorder,
  first_filled, heading_clicked, set_arrow, same_table, same_column, cell_arrow, next_arrow,
  can_sort, sort_fn, blank, set_column,
}
use java_study_project.TableSort.Table.Rows.{count, IsDistinct, others, move_loop-body}

get_elem?-map :
    (f : List Arrow → List Arrow) (xs : List (List Arrow)) (j : ℕ)
    → get_elem? (map f xs) j ≡ Option.map f (get_elem? xs j)
get_elem?-map f [] j = refl
get_elem?-map f (x ∷ xs) zero = refl
get_elem?-map f (x ∷ xs) (suc j) = get_elem?-map f xs j

-- The cell that was clicked shows the new arrow, and no other cell of the heading shows one.
pub set_arrow_lem :
    (column : ℕ) (arrow : Arrow) (headings : List (List Arrow)) (j : ℕ)
    → get_elem? (set_arrow column arrow headings) j
      ≡ Option.map
          (λ arrows. if j == column then arrow ∷ [] else blank arrows)
          (get_elem? headings j)
unfolding set_arrow
set_arrow_lem column arrow [] j = refl
set_arrow_lem zero arrow (cell ∷ cells) zero = refl
set_arrow_lem zero arrow (cell ∷ cells) (suc j) =
    let e : (suc j == 0) ≡ false = ground arith in rw e (get_elem?-map blank cells j)
set_arrow_lem (suc column) arrow (cell ∷ cells) zero =
    let e : (0 == suc column) ≡ false = ground arith in rw e
set_arrow_lem (suc column) arrow (cell ∷ cells) (suc j) =
    let e : (suc j == suc column) ≡ (j == column) = ground arith in
    rw e (set_arrow_lem column arrow cells j)

others-all :
    (ids body : List ℕ) → ((row : ℕ) → count row body ≤ count row ids) → others ids body ≡ []
unfolding others count
others-all ids [] h = refl
others-all ids (r ∷ rs) h = ground (arith, h r, others-all ids rs (λ row. omega (arith, h row)))

pub count-reverse_onto :
    (row : ℕ) (rs acc : List ℕ) → count row (reverse_onto rs acc) ≡ count row rs + count row acc
unfolding count
count-reverse_onto row [] acc = omega arith
count-reverse_onto row (r ∷ rs) acc = omega (arith, count-reverse_onto row rs (r ∷ acc))

-- The rows of the table are the sorter's, in its order, and it was sorted by this column.
pub record IsSettled (table_id : Text) (column : ℕ) (st : State) : Type 0 where
  pub body : st.table.body ≡ st.sorter.new_rows
  pub last : st.sorter.last_sorted_table ≡ some table_id
  pub index : st.sorter.sort_column_index ≡ some column
  pub distinct : IsDistinct st.table.body

move_loop-keeps :
    (ids : List ℕ) (st : State)
    → ((move_loop ids st).sorter.sort_column_index ≡ st.sorter.sort_column_index)
      × ((move_loop ids st).table.headings ≡ st.table.headings)
unfolding move_loop do_stripe
move_loop-keeps [] st = (refl, refl)
move_loop-keeps (row ∷ ids) st = move_loop-keeps ids _

move_rows-body :
    (ids : List ℕ) (st : State)
    → IsDistinct ids
    → ((row : ℕ) → count row st.table.body ≤ count row ids)
    → (move_rows ids st).table.body ≡ ids
unfolding move_rows
move_rows-body ids st d h =
    move_loop-body ids (record st { sorter = record (st.sorter) { is_odd = false } }) d
    ∙ rw (others-all ids st.table.body h)

move_rows-keeps :
    (ids : List ℕ) (st : State)
    → ((move_rows ids st).sorter.sort_column_index ≡ st.sorter.sort_column_index)
      × ((move_rows ids st).table.headings ≡ st.table.headings)
unfolding move_rows
move_rows-keeps ids st =
    move_loop-keeps ids (record st { sorter = record (st.sorter) { is_odd = false } })

module _ (table_id : Text) (column : ℕ) (previous : Arrow) (ids : List ℕ) (st : State) where
  finish-body :
      IsDistinct ids
      → ((row : ℕ) → count row st.table.body ≤ count row ids)
      → (finish table_id column previous ids st).table.body ≡ ids
  unfolding finish
  finish-body d h = move_rows-body ids st d h

  finish-headings :
      (finish table_id column previous ids st).table.headings
      ≡ set_arrow column (next_arrow previous) st.table.headings
  unfolding finish
  finish-headings = rw ((move_rows-keeps ids st).1)

  finish-IsSettled :
      st.sorter.sort_column_index ≡ some column
      → IsDistinct ids
      → ((row : ℕ) → count row st.table.body ≤ count row ids)
      → IsSettled table_id column (finish table_id column previous ids st)
  unfolding finish
  finish-IsSettled i d h = record {
    body = move_rows-body ids st d h;
    last = refl;
    index = (move_rows-keeps ids st).0 ∙ i;
    distinct = rw (move_rows-body ids st d h) d;
  }

turned_count :
    (row : ℕ) (st : State)
    → st.table.body ≡ st.sorter.new_rows
    → count row (reverse_onto st.sorter.new_rows []) ≡ count row st.table.body
unfolding count
turned_count row st e = rw e (omega (arith, count-reverse_onto row st.sorter.new_rows []))

module _ (texts : ℕ → List Text) (lower : Text → Text) {N : Type 0} (parse_float : Text → N)
    (is_nan : N → Bool) (zero_number : N) (difference : N → N → Ordering)
    (array_sort : (ℕ → ℕ → Ordering) → List ℕ → List ℕ) where
  abbrev click : Text → ℕ → State → Outcome
  click = heading_clicked texts lower parse_float is_nan zero_number difference array_sort

  abbrev order_of : ℕ → Text → ℕ → ℕ → Ordering
  order_of column itm =
      sort_fn texts lower parse_float is_nan zero_number difference array_sort
        (determine_sort_function itm) column

  abbrev filled : ℕ → List ℕ → Option Text
  filled = first_filled texts lower parse_float is_nan zero_number difference array_sort

  abbrev sortable : SortKind → ℕ → List ℕ → Bool
  sortable = can_sort texts lower parse_float is_nan zero_number difference array_sort

  pub heading_clicked-sort :
      (table_id : Text) (column : ℕ) (st : State) (itm : Text)
      → ((cmp : ℕ → ℕ → Ordering) (rows : List ℕ) (row : ℕ)
          → count row (array_sort cmp rows) ≡ count row rows)
      → IsDistinct st.table.body
      → 1 < length st.table.body
      → (same_table st.sorter.last_sorted_table table_id
          && same_column st.sorter.sort_column_index column)
        ≡ false
      → filled column st.table.body ≡ some itm
      → sortable (determine_sort_function itm) column st.table.body ≡ true
      → (after : State) × (click table_id column st ≡ done after)
        × (after.table.body ≡ array_sort (order_of column itm) st.table.body)
        × (after.table.headings
            ≡ set_arrow column (next_arrow (cell_arrow st.table.headings column)) st.table.headings)
        × IsSettled table_id column after
  unfolding heading_clicked reorder
  heading_clicked-sort table_id column st itm keeps d long fresh first full =
      let sorted = array_sort (order_of column itm) st.table.body in
      let start = set_column column st in
      let previous = cell_arrow st.table.headings column in
      let distinct : IsDistinct sorted =
        λ row. omega (arith, keeps (order_of column itm) st.table.body row, d row) in
      let covers : (row : ℕ) → count row st.table.body ≤ count row sorted =
        λ row. omega (arith, keeps (order_of column itm) st.table.body row) in
      let two : leb (length st.table.body) 1 ≡ false = ground arith in
      (
        finish table_id column previous sorted start,
        rw (two, first, heading_clicked, fresh, full),
        finish-body table_id column previous sorted start distinct covers,
        finish-headings table_id column previous sorted start,
        finish-IsSettled table_id column previous sorted start refl distinct covers,
      )

  pub heading_clicked-reverse :
      (table_id : Text) (column : ℕ) (st : State) (itm : Text)
      → IsSettled table_id column st
      → 1 < length st.table.body
      → filled column st.table.body ≡ some itm
      → (after : State) × (click table_id column st ≡ done after)
        × (after.table.body ≡ reverse_onto st.table.body [])
        × (after.table.headings
            ≡ set_arrow column (next_arrow (cell_arrow st.table.headings column)) st.table.headings)
        × IsSettled table_id column after
  unfolding heading_clicked reorder
  heading_clicked-reverse table_id column st itm settled long first =
      let turned = reverse_onto st.sorter.new_rows [] in
      let previous = cell_arrow st.table.headings column in
      let same : (row : ℕ) → count row turned ≡ count row st.table.body =
        λ row. turned_count row st settled.body in
      let distinct : IsDistinct turned = λ row. omega (arith, same row, settled.distinct row) in
      let covers : (row : ℕ) → count row st.table.body ≤ count row turned =
        λ row. omega (arith, same row) in
      let two : leb (length st.table.body) 1 ≡ false = ground arith in
      let own : (column == column) ≡ true = ground arith in
      (
        finish table_id column previous turned st,
        rw (two, first, heading_clicked, settled.last, settled.index, eq_text_refl, own),
        finish-body table_id column previous turned st distinct covers
            ∙ ap (λ rows. reverse_onto rows []) (sym settled.body),
        finish-headings table_id column previous turned st,
        finish-IsSettled table_id column previous turned st settled.index distinct covers,
      )
