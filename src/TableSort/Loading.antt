-- ===== src/TableSort/Loading.antt =====
-- `standardistaTableSortingInit`: when the page was loaded its tables are made sortable, and its first
-- heading is clicked.
pub mod First
pub mod Sorted
use Prim.Native.Nat.{Ordering}
use java_study_project.Base.{
  ℕ, zero, suc, Bool, true, false, Option, none, some, List, [], ◌∷◌, leb, if◌then◌else◌, length,
  get_elem?,
}
use java_study_project.Text.{Text}
use java_study_project.TableSort.Table.{Table, Sorter, State, Outcome, done, heading_clicked}
use java_study_project.TableSort.Making.{HtmlTable, TableMaker, Made, last_row, init}

-- What a node is to `getEventTarget` and `getAttribute`.
pub data NodeKind : Type 0 where
  element text other : NodeKind

-- The first TH of the page, if it stands in the last row of a table's head: which table, and which cell.
pub record Heading : Type 0 where
  pub table : ℕ
  pub cell : ℕ

abbrev pub returned : {T : Type 0} → T → TableMaker → Made T
returned t m = record { made = t; maker = m; threw = false }

abbrev pub left_by : {T : Type 0} → T → TableMaker → Made T
left_by t m = record { made = t; maker = m; threw = true }

abbrev pub first_of : {N : Type 0} → List N → Option N
first_of [] = none
first_of (n ∷ ns) = some n

-- `firstChild` of a cell in the last row of the head.
abbrev pub first_child : {N : Type 0} → ℕ → List (List N) → Option N
first_child cell [] = none
first_child zero (contents ∷ cells) = first_of contents
first_child (suc cell) (contents ∷ cells) = first_child cell cells

abbrev pub in_first : {T : Type 0} → List T → Made T → Made (List T)
in_first ts one = record { made = one.made ∷ ts; maker = one.maker; threw = one.threw }

abbrev pub in_later : {T : Type 0} → T → Made (List T) → Made (List T)
in_later t others = record { made = t ∷ others.made; maker = others.maker; threw = others.threw }

-- The parameters of a click, and what the nodes are.
module _ (texts : ℕ → List Text) (to_lower_case : Text → Text) {F : Type 0} (parse_float : Text → F)
    (is_nan : F → Bool) (zero_number : F) (difference : F → F → Ordering)
    (array_sort : (ℕ → ℕ → Ordering) → List ℕ → List ℕ) {N : Type 0} (kind_of : N → NodeKind)
    (make_link : ℕ → List N → N) (arrow : N) where
  abbrev pub after_click : HtmlTable N → TableMaker → Outcome → Made (HtmlTable N)
  after_click t m (Outcome.done st) =
      returned (record t { table = st.table }) (record m { sorter = st.sorter })
  after_click t m (Outcome.threw st) =
      left_by (record t { table = st.table }) (record m { sorter = st.sorter })

  -- `headingClicked` for a table that may lack a body, which throws.
  unfoldable pub click_table : ℕ → HtmlTable N → TableMaker → Made (HtmlTable N)
  unfolding heading_clicked
  click_table cell t m =
      if t.has_body
      then after_click t m (
          heading_clicked texts to_lower_case parse_float is_nan zero_number difference array_sort
            t.id cell (record { table = t.table; sorter = m.sorter }))
      else left_by t m

  -- The target is the node, or the TH around it if it is text: then what stands four levels above is no
  -- table, and nothing happens. A node that is no element has no `getAttribute`, which is called if the
  -- table has two rows.
  unfoldable pub click_node : NodeKind → ℕ → HtmlTable N → TableMaker → Made (HtmlTable N)
  unfolding click_table
  click_node element cell t m = click_table cell t m
  click_node text cell t m = returned t m
  click_node other cell t m =
      if t.has_body
      then (if leb (length t.table.body) 1 then returned t m else left_by t m)
      else left_by t m

  -- No child at all gives an event without a target, which throws.
  abbrev pub click_first : Option N → ℕ → HtmlTable N → TableMaker → Made (HtmlTable N)
  click_first none cell t m = left_by t m
  click_first (some n) cell t m = click_node (kind_of n) cell t m

  unfoldable pub click_heading : ℕ → ℕ → List (HtmlTable N) → TableMaker → Made (List (HtmlTable N))
  unfolding click_node
  click_heading index cell [] m = returned [] m
  click_heading zero cell (t ∷ ts) m =
      in_first ts (click_first (first_child cell (last_row make_link arrow t.head)) cell t m)
  click_heading (suc index) cell (t ∷ ts) m = in_later t (click_heading index cell ts m)

  abbrev pub click_if : Option Heading → List (HtmlTable N) → TableMaker → Made (List (HtmlTable N))
  click_if none tables m = returned tables m
  click_if (some th) tables m = click_heading th.table th.cell tables m

  -- A browser that cannot look up elements by their names throws behind `init`.
  abbrev pub then_click :
      Bool → Option Heading → Made (List (HtmlTable N)) → Made (List (HtmlTable N))
  then_click capable th loaded =
      if loaded.threw
      then loaded
      else if capable
      then click_if th loaded.made loaded.maker
      else left_by loaded.made loaded.maker

  unfoldable pub standardista_table_sorting_init :
      Bool → Option Heading → List (HtmlTable N) → TableMaker → Made (List (HtmlTable N))
  unfolding click_heading init
  standardista_table_sorting_init capable th tables m =
      then_click capable th (init make_link arrow capable tables m)
