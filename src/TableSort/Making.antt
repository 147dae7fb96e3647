-- ===== src/TableSort/Making.antt =====
-- `init`, `run` and `makeSortable`: the headings of tables become links.
pub mod Cells
use java_study_project.Base.{
  ℕ, zero, suc, ◌+◌, Bool, true, false, not, none, some, List, [], ◌∷◌, ◌++◌, if◌then◌else◌, length,
  get_elem?,
}
use java_study_project.Text.{Text, codes}
use java_study_project.Text.Number.{digits_of, number_text}
use java_study_project.Css.{Element, element_has_class}
use java_study_project.TableSort.Table.{Arrow, unsorted, Table, Sorter, State, do_stripe}

-- A table of the page: its id, which may be empty, its classes, the contents of the cells in the rows of
-- its head, and whether it has a body, which is part of `table`.
pub record HtmlTable (N : Type 0) : Type 0 where
  pub id : Text
  pub classes : Element
  pub head : List (List (List N))
  pub has_body : Bool
  pub table : Table

-- What the sorter keeps over the tables.
pub record TableMaker : Type 0 where
  pub sorter : Sorter
  pub last_assigned_id : ℕ

-- Tables and the sorter after code that returned, or that a TypeError left.
pub record Made (T : Type 0) : Type 0 where
  pub made : T
  pub maker : TableMaker
  pub threw : Bool

abbrev pub remove_at : {N : Type 0} → ℕ → List N → List N
remove_at i [] = []
remove_at zero (n ∷ ns) = ns
remove_at (suc i) (n ∷ ns) = n ∷ remove_at i ns

-- The loop over `innerEls`, from the index `j` on. They are the children that the cell has at the time,
-- and each that is moved into the link is one of them no more.
unfoldable pub move_children : {N : Type 0} → ℕ → ℕ → List N → List N → List N × List N
move_children zero j inner_els link = (inner_els, link)
move_children (suc fuel) j inner_els link = elim (get_elem? inner_els j) [
  | none ↦ (inner_els, link)
  | some n ↦ move_children fuel (suc j) (remove_at j inner_els) (link ++ n ∷ [])
]

-- An id that is not empty, or a new one.
unfoldable pub assign_id : Text → TableMaker → Text × TableMaker
unfolding digits_of
assign_id [] m = (
  codes "sortableTable" ++ number_text m.last_assigned_id,
  record m { last_assigned_id = m.last_assigned_id + 1 },
)
assign_id (c ∷ s) m = (c ∷ s, m)

-- `make_link i contents` is an `a` for the column `i`, and `arrow` a span of the class `tableSortArrow`.
module _ {N : Type 0} (make_link : ℕ → List N → N) (arrow : N) where
  unfoldable pub make_cell : ℕ → List N → List N
  unfolding move_children
  make_cell i cell =
      let (left, link) = move_children (length cell) 0 cell [] in
      left ++ make_link i link ∷ arrow ∷ []

  unfoldable pub make_cells : ℕ → List (List N) → List (List N)
  unfolding make_cell
  make_cells i [] = []
  make_cells i (cell ∷ cells) = make_cell i cell ∷ make_cells (suc i) cells

  -- The last row of the head.
  unfoldable pub make_head : List (List (List N)) → List (List (List N))
  unfolding make_cells
  make_head [] = []
  make_head (row ∷ []) = make_cells 0 row ∷ []
  make_head (row ∷ next ∷ rows) = row ∷ make_head (next ∷ rows)

  abbrev pub last_row : List (List (List N)) → List (List N)
  last_row [] = []
  last_row (row ∷ []) = row
  last_row (row ∷ next ∷ rows) = last_row (next ∷ rows)

  -- Every cell of the row has one more arrow.
  unfoldable pub add_arrows : {A : Type 0} → List A → List (List Arrow) → List (List Arrow)
  add_arrows [] headings = headings
  add_arrows (cell ∷ cells) [] = (unsorted ∷ []) ∷ add_arrows cells []
  add_arrows (cell ∷ cells) (arrows ∷ headings) =
      (arrows ++ unsorted ∷ []) ∷ add_arrows cells headings

  unfoldable pub stripe_loop : List ℕ → State → State
  unfolding do_stripe
  stripe_loop [] st = st
  stripe_loop (row ∷ rows) st = stripe_loop rows (do_stripe row st)

  unfoldable pub auto_stripe : HtmlTable N → TableMaker → Made (HtmlTable N)
  unfolding stripe_loop element_has_class
  auto_stripe t m =
      let off : Sorter = record (m.sorter) { is_odd = false } in
      if not (element_has_class (some t.classes) (codes "autostripe"))
      then record { made = t; maker = m; threw = false }
      else if t.has_body
      then (let st = stripe_loop t.table.body (record { table = t.table; sorter = off }) in
          record {
            made = record t { table = st.table };
            maker = record m { sorter = st.sorter };
            threw = false;
          })
      else record { made = t; maker = record m { sorter = off }; threw = true }

  -- The head of a table with an id: without rows the table is left as it is.
  abbrev pub make_links : HtmlTable N → TableMaker → List (List (List N)) → Made (HtmlTable N)
  make_links t m [] = record { made = t; maker = m; threw = false }
  make_links t m (row ∷ rows) =
      auto_stripe
        (record t {
          head = make_head (row ∷ rows);
          table = record (t.table) {
            headings = add_arrows (last_row (row ∷ rows)) t.table.headings;
          };
        })
        m

  unfoldable pub make_sortable : HtmlTable N → TableMaker → Made (HtmlTable N)
  unfolding assign_id make_head add_arrows auto_stripe
  make_sortable t m =
      let (id, counted) = assign_id t.id m in make_links (record t { id = id }) counted t.head

  abbrev pub make_if : Bool → HtmlTable N → TableMaker → Made (HtmlTable N)
  make_if true t m = make_sortable t m
  make_if false t m = record { made = t; maker = m; threw = false }

  unfoldable pub run : List (HtmlTable N) → TableMaker → Made (List (HtmlTable N))
  unfolding make_sortable element_has_class
  run [] m = record { made = []; maker = m; threw = false }
  run (t ∷ ts) m =
      let one = make_if (element_has_class (some t.classes) (codes "sortable")) t m in
      let others = run ts one.maker in
      if one.threw
      then record { made = one.made ∷ ts; maker = one.maker; threw = true }
      else record { made = one.made ∷ others.made; maker = others.maker; threw = others.threw }

  -- The browser can or cannot look up elements by their names.
  unfoldable pub init : Bool → List (HtmlTable N) → TableMaker → Made (List (HtmlTable N))
  unfolding run
  init capable tables m =
      if capable then run tables m else record { made = tables; maker = m; threw = false }
