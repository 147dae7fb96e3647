-- ===== src/TableSort/Table.antt =====
-- `headingClicked`, `moveRows` and `doStripe`: the rows of a table, by their identities, and the state
-- that the sorter keeps between clicks.
pub mod Rows
pub mod Clicks
pub mod Errors
pub mod Stripes
use Prim.Native.Nat.{Ordering}
use java_study_project.Base.{
  ℕ, zero, suc, ◌+◌, Bool, true, false, not, ◌&&◌, ◌||◌, Option, none, some, List, [], ◌∷◌, ◌++◌,
  map, leb, ◌==◌, if◌then◌else◌, length, get_elem?,
}
use java_study_project.Text.{Text, codes, eq_text}
use java_study_project.Css.{Element, add_class_to_element, remove_class_from_element}
use java_study_project.TableSort.Keys
use java_study_project.TableSort.Kinds.{SortKind, is_digit, determine_sort_function}

-- A span `tableSortArrow`, by its attribute `sortOrder`.
pub data Arrow : Type 0 where
  unsorted asc desc : Arrow

-- The first body of a table, its rows' classes, and the arrows in the cells of its heading.
pub record Table : Type 0 where
  pub body : List ℕ
  pub rows : ℕ → Element
  pub headings : List (List Arrow)

-- The sorter's variables; `none` stands for the -1 that they start with.
pub record Sorter : Type 0 where
  pub is_odd : Bool
  pub sort_column_index : Option ℕ
  pub new_rows : List ℕ
  pub last_sorted_table : Option Text

pub record State : Type 0 where
  pub table : Table
  pub sorter : Sorter

-- A handler returns, or a TypeError leaves it.
pub data Outcome : Type 0 where
  done threw : State → Outcome

abbrev pub set_row : ℕ → Element → (ℕ → Element) → ℕ → Element
set_row row el rows r = if r == row then el else rows r

unfoldable pub do_stripe : ℕ → State → State
do_stripe row st =
    let el = st.table.rows row in
    let striped =
      if st.sorter.is_odd
      then add_class_to_element el (codes "odd")
      else remove_class_from_element el (codes "odd") in
    record st {
      table = record (st.table) { rows = set_row row striped st.table.rows };
      sorter = record (st.sorter) { is_odd = not st.sorter.is_odd };
    }

abbrev pub without : ℕ → List ℕ → List ℕ
without row [] = []
without row (r ∷ rs) = if r == row then without row rs else r ∷ without row rs

-- `appendChild` of a row that may be in the body already: it is moved.
abbrev pub append_child : ℕ → List ℕ → List ℕ
append_child row body = without row body ++ row ∷ []

unfoldable pub move_loop : List ℕ → State → State
unfolding do_stripe
move_loop [] st = st
move_loop (row ∷ rows) st =
    let striped = do_stripe row st in
    move_loop rows (record striped {
      table = record (striped.table) { body = append_child row striped.table.body };
    })

unfoldable pub move_rows : List ℕ → State → State
unfolding move_loop
move_rows new_rows st =
    move_loop new_rows (record st { sorter = record (st.sorter) { is_odd = false } })

abbrev pub first_arrow : List Arrow → Arrow
first_arrow [] = unsorted
first_arrow (a ∷ arrows) = a

-- `null`, the empty text and DESC are followed by ASC.
abbrev pub next_arrow : Arrow → Arrow
next_arrow asc = desc
next_arrow desc = asc
next_arrow unsorted = asc

abbrev pub blank : List Arrow → List Arrow
blank = map (λ _. unsorted)

-- The cells of the heading after the click: the arrow of the cell that was clicked is replaced, the
-- others are blank. The number is the index of that cell, counted from here.
unfoldable pub set_arrow : ℕ → Arrow → List (List Arrow) → List (List Arrow)
set_arrow column arrow [] = []
set_arrow zero arrow (cell ∷ cells) = (arrow ∷ []) ∷ map blank cells
set_arrow (suc column) arrow (cell ∷ cells) = blank cell ∷ set_arrow column arrow cells

abbrev pub cell_arrow : List (List Arrow) → ℕ → Arrow
cell_arrow headings column = elim (get_elem? headings column) [
  | none ↦ unsorted
  | some arrows ↦ first_arrow arrows
]

abbrev pub same_table : Option Text → Text → Bool
same_table none id = false
same_table (some last) id = eq_text id last

abbrev pub same_column : Option ℕ → ℕ → Bool
same_column none column = false
same_column (some last) column = column == last

abbrev pub reverse_onto : List ℕ → List ℕ → List ℕ
reverse_onto [] acc = acc
reverse_onto (r ∷ rs) acc = reverse_onto rs (r ∷ acc)

-- From `moveRows` to the end of the handler; `previous` is the arrow that the cell had.
unfoldable pub finish : Text → ℕ → Arrow → List ℕ → State → State
unfolding move_rows set_arrow
finish table_id column previous new_rows st =
    let moved = move_rows new_rows st in
    record {
      table = record (moved.table) {
        headings = set_arrow column (next_arrow previous) moved.table.headings;
      };
      sorter = record (moved.sorter) { new_rows = new_rows; last_sorted_table = some table_id };
    }

abbrev pub set_column : ℕ → State → State
set_column column st = record st { sorter = record (st.sorter) { sort_column_index = some column } }

-- `texts` are what `getInnerText` gives for the cells of a row, in order; it gives the same each time.
-- The order of `parseFloat(a) - parseFloat(b)`, `isNaN` and the engine's sort are the runtime's.
module _ (texts : ℕ → List Text) (to_lower_case : Text → Text) {N : Type 0} (parse_float : Text → N)
    (is_nan : N → Bool) (zero_number : N) (difference : N → N → Ordering)
    (array_sort : (ℕ → ℕ → Ordering) → List ℕ → List ℕ) where
  -- A cell that is missing gives `undefined`, which only `parseFloat` takes, as the text undefined.
  abbrev pub cell_text : ℕ → ℕ → Text
  cell_text column row = elim (get_elem? (texts row) column) [
    | none ↦ codes "undefined"
    | some t ↦ t
  ]

  abbrev pub has_cell : ℕ → ℕ → Bool
  has_cell column row = elim (get_elem? (texts row) column) [ none ↦ false | some t ↦ true ]

  abbrev pub all_have : ℕ → List ℕ → Bool
  all_have column [] = true
  all_have column (row ∷ rows) = has_cell column row && all_have column rows

  -- Every comparator but `sortNumeric` calls a method of each text, which throws for `undefined`.
  abbrev pub needs_cells : SortKind → Bool
  needs_cells SortKind.case_insensitive = true
  needs_cells SortKind.date = true
  needs_cells SortKind.currency = true
  needs_cells SortKind.numeric = false
  needs_cells SortKind.ip = true

  -- A comparator that needs a cell fails where there is none, so that the sort goes on only if all rows
  -- have one.
  abbrev pub can_sort : SortKind → ℕ → List ℕ → Bool
  can_sort kind column rows = all_have column rows || not (needs_cells kind)

  -- `replace(/[^0-9.]/g, '')`.
  abbrev pub amount : Text → Text
  amount [] = []
  amount (c ∷ s) = if is_digit c || c == b'.' then c ∷ amount s else amount s

  abbrev pub sort_currency : Text → Text → Ordering
  sort_currency a b = difference (parse_float (amount a)) (parse_float (amount b))

  abbrev pub number_or_zero : N → N
  number_or_zero n = if is_nan n then zero_number else n

  abbrev pub sort_numeric : Text → Text → Ordering
  sort_numeric a b = difference (number_or_zero (parse_float a)) (number_or_zero (parse_float b))

  abbrev pub sort_with : SortKind → Text → Text → Ordering
  sort_with SortKind.case_insensitive = Keys.sort_case_insensitive to_lower_case
  sort_with SortKind.date = Keys.sort_date
  sort_with SortKind.currency = sort_currency
  sort_with SortKind.numeric = sort_numeric
  sort_with SortKind.ip = Keys.sort_ip to_lower_case

  abbrev pub sort_fn : SortKind → ℕ → ℕ → ℕ → Ordering
  sort_fn kind column a b = sort_with kind (cell_text column a) (cell_text column b)

  -- The text of the first cell of the column that is not empty; `none` if a cell on the way is missing.
  unfoldable pub first_filled : ℕ → List ℕ → Option Text
  first_filled column [] = some []
  first_filled column (row ∷ rows) =
      let rest = first_filled column rows in
      elim (get_elem? (texts row) column) [
        | none ↦ none
        | some [] ↦ rest
        | some (c ∷ s) ↦ some (c ∷ s)
      ]

  -- The body has at least two rows, so that every sort asks for the text of each of them.
  unfoldable pub reorder : Text → ℕ → Arrow → SortKind → State → Outcome
  unfolding finish
  reorder table_id column previous kind st =
      if same_table st.sorter.last_sorted_table table_id
        && same_column st.sorter.sort_column_index column
      then done (finish table_id column previous (reverse_onto st.sorter.new_rows []) st)
      else if can_sort kind column st.table.body
      then done (
          finish table_id column previous (array_sort (sort_fn kind column) st.table.body)
            (set_column column st))
      else threw (set_column column st)

  unfoldable pub heading_clicked : Text → ℕ → State → Outcome
  unfolding reorder first_filled determine_sort_function
  heading_clicked table_id column st =
      if leb (length st.table.body) 1 then done st else elim (first_filled column st.table.body) [
        | none ↦ threw st
        | some itm ↦
            reorder table_id column (cell_arrow st.table.headings column)
              (determine_sort_function itm) st
      ]
