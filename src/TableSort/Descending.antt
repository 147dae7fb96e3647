-- ===== src/TableSort/Descending.antt =====
-- Two clicks on a heading: ascending order, then descending order.
use Prim.Native.Nat.{Ordering}
use mathlib.Core.Path.{subst}
use java_study_project.Base.{
  ℕ, ◌+◌, ◌<◌, ◌≡◌, ◌≢◌, refl, sym, ap, ◌∙◌, arith, Bool, true, false, ◌&&◌, Option, some, List, [],
  ◌∷◌, All, get_elem?, inl, inr, Bool-cases, Option-cases, ◌==◌, length, and_split,
}
use java_study_project.Text.{Text}
use java_study_project.TableSort.Kinds.{SortKind, determine_sort_function}
use java_study_project.TableSort.Table.{
  State, Outcome, done, heading_clicked, first_filled, all_have, has_cell, sort_fn, reverse_onto,
  same_table, same_column,
}
use java_study_project.TableSort.Table.Rows.{count, IsDistinct}
use java_study_project.TableSort.Table.Clicks.{
  count-reverse_onto, heading_clicked-sort, heading_clicked-reverse,
}
use java_study_project.TableSort.Ascending.{IsOrderedBy, IsSort, IsArithmetic, sort_fn-IsConsistent}

abbrev pub opposite : (ℕ → ℕ → Ordering) → ℕ → ℕ → Ordering
opposite cmp a b = cmp b a

-- Every row of the one list may stand in front of every row of the other.
abbrev Before : (ℕ → ℕ → Ordering) → List ℕ → List ℕ → Type 0
Before cmp acc [] = Unit
Before cmp acc (s ∷ rs) = All (λ a. cmp a s ≢ Ordering.gt) acc × Before cmp acc rs

Before-cons :
    (cmp : ℕ → ℕ → Ordering) (r : ℕ) (acc rs : List ℕ)
    → All (λ s. cmp r s ≢ Ordering.gt) rs
    → Before cmp acc rs
    → Before cmp (r ∷ acc) rs
Before-cons cmp r acc [] h b = tt
Before-cons cmp r acc (s ∷ rs) h b = ((h.0, b.0), Before-cons cmp r acc rs h.1 b.1)

reverse_onto-IsOrderedBy :
    (cmp : ℕ → ℕ → Ordering) (rs acc : List ℕ)
    → IsOrderedBy cmp rs
    → IsOrderedBy (opposite cmp) acc
    → Before cmp acc rs
    → IsOrderedBy (opposite cmp) (reverse_onto rs acc)
reverse_onto-IsOrderedBy cmp [] acc o a b = a
reverse_onto-IsOrderedBy cmp (r ∷ rs) acc o a b =
    reverse_onto-IsOrderedBy cmp rs (r ∷ acc) o.1 (b.0, a) (Before-cons cmp r acc rs o.0 b.1)

Before-nil : (cmp : ℕ → ℕ → Ordering) (rs : List ℕ) → Before cmp [] rs
Before-nil cmp [] = tt
Before-nil cmp (r ∷ rs) = (tt, Before-nil cmp rs)

reversed_count : (row : ℕ) (rs : List ℕ) → count row (reverse_onto rs []) ≡ count row rs
unfolding count
reversed_count row rs = omega (arith, count-reverse_onto row rs [])

-- A list with two rows or more, none of them twice, has as many in any other order.
length-reordered :
    (xs ys : List ℕ)
    → IsDistinct xs
    → ((row : ℕ) → count row ys ≡ count row xs)
    → 1 < length xs
    → 1 < length ys
unfolding count
length-reordered [] ys d h k = absurd (omega arith)
length-reordered (a ∷ []) ys d h k = absurd (omega arith)
length-reordered (a ∷ b ∷ xs) [] d h k = absurd (ground (arith, h a))
length-reordered (a ∷ b ∷ xs) (y ∷ []) d h k = absurd (ground (arith, h a, h b, d a, d b))
length-reordered (a ∷ b ∷ xs) (y ∷ z ∷ ys) d h k = omega arith

module _ (texts : ℕ → List Text) (lower : Text → Text) {N : Type 0} (parse_float : Text → N)
    (is_nan : N → Bool) (zero_number : N) (difference : N → N → Ordering)
    (array_sort : (ℕ → ℕ → Ordering) → List ℕ → List ℕ) where
  abbrev click : Text → ℕ → State → Outcome
  click = heading_clicked texts lower parse_float is_nan zero_number difference array_sort

  abbrev filled : ℕ → List ℕ → Option Text
  filled = first_filled texts lower parse_float is_nan zero_number difference array_sort

  abbrev complete : ℕ → List ℕ → Bool
  complete = all_have texts lower parse_float is_nan zero_number difference array_sort

  abbrev has : ℕ → ℕ → Bool
  has = has_cell texts lower parse_float is_nan zero_number difference array_sort

  has-member :
      (column : ℕ) (rows : List ℕ)
      → complete column rows ≡ true
      → (row : ℕ) → 0 < count row rows
      → has column row ≡ true
  unfolding count
  has-member column [] h row m = absurd (omega arith)
  has-member column (r ∷ rows) h row m =
      let (own, rest) = and_split (has column r) (complete column rows) h in
      elim (Bool-cases (r == row)) [
        | inl e ↦ let same : r ≡ row = ground arith in subst (λ x. has column x ≡ true) same own
        | inr e ↦
            has-member column rows rest row
              (let n : 0 < 0 + count row rows = rw e at m in omega arith)
      ]

  complete-members :
      (column : ℕ) (rows : List ℕ)
      → ((row : ℕ) → 0 < count row rows → has column row ≡ true)
      → complete column rows ≡ true
  unfolding count
  complete-members column [] h = refl
  complete-members column (r ∷ rows) h =
      let own : has column r ≡ true = h r (ground arith) in
      let rest : complete column rows ≡ true =
        complete-members column rows (λ row m. h row (ground arith)) in
      rw own rest

  filled-cell :
      (column r : ℕ) (rows : List ℕ) (t : Text)
      → get_elem? (texts r) column ≡ some t
      → (itm : Text) × (filled column rows ≡ some itm)
      → (itm : Text) × (filled column (r ∷ rows) ≡ some itm)
  unfolding first_filled
  filled-cell column r rows [] e (itm, later) = (itm, rw (e, first_filled) later)
  filled-cell column r rows (c ∷ s) e later = (c ∷ s, rw (e, first_filled) refl)

  complete-filled :
      (column : ℕ) (rows : List ℕ)
      → complete column rows ≡ true
      → (itm : Text) × (filled column rows ≡ some itm)
  unfolding first_filled
  complete-filled column [] h = ([], refl)
  complete-filled column (r ∷ rows) h =
      let (own, rest) = and_split (has column r) (complete column rows) h in
      elim (Option-cases (get_elem? (texts r) column)) [
        | inl e ↦ let n : false ≡ true = rw (e, has_cell) at own in cc
        | inr (t, e) ↦ filled-cell column r rows t e (complete-filled column rows rest)
      ]

  abbrev order_of : ℕ → Text → ℕ → ℕ → Ordering
  order_of column itm =
      sort_fn texts lower parse_float is_nan zero_number difference array_sort
        (determine_sort_function itm) column

  module _
      (numbers : IsArithmetic texts lower parse_float is_nan zero_number difference
        array_sort) where
    -- A click on a column by which the table is not sorted yet, and a second one, put its rows in descending
    -- order, by the comparator that the first filled cell of the column asked for at the first click,
    -- and keep every row. The engine sorts and subtracts as it should, the comparator is not that of amounts
    -- of money, and the table has two rows at least, none of them twice, each with a cell in the column.
    pub heading_clicked-opposite :
        (table_id : Text) (column : ℕ) (st : State) (itm : Text)
        → IsSort array_sort
        → determine_sort_function itm ≢ SortKind.currency
        → IsDistinct st.table.body
        → 1 < length st.table.body
        → (same_table st.sorter.last_sorted_table table_id
            && same_column st.sorter.sort_column_index column)
          ≡ false
        → filled column st.table.body ≡ some itm
        → complete column st.table.body ≡ true
        → (once twice : State) × (click table_id column st ≡ done once)
          × (click table_id column once ≡ done twice)
          × IsOrderedBy (opposite (order_of column itm)) twice.table.body
          × ((row : ℕ) → count row twice.table.body ≡ count row st.table.body)
    heading_clicked-opposite table_id column st itm sort kind distinct long fresh first full =
        let cmp = order_of column itm in
        let (once, clicked, rows, headings, settled) =
          heading_clicked-sort texts lower parse_float is_nan zero_number difference array_sort
            table_id column st itm sort.keeps distinct long fresh first (rw full refl) in
        let same : (row : ℕ) → count row once.table.body ≡ count row st.table.body =
          λ row. ap (count row) rows ∙ sort.keeps cmp st.table.body row in
        let whole : complete column once.table.body ≡ true =
          complete-members column once.table.body
            (λ row m. has-member column st.table.body full row (subst (λ n. 0 < n) (same row) m)) in
        let (itm', found) = complete-filled column once.table.body whole in
        let (twice, again, turned, arrows, still) =
          heading_clicked-reverse texts lower parse_float is_nan zero_number difference array_sort
            table_id column once itm' settled
            (length-reordered st.table.body once.table.body distinct same long) found in
        let ordered : IsOrderedBy cmp once.table.body = subst (IsOrderedBy cmp) (sym rows) (
          sort.orders cmp st.table.body (
            sort_fn-IsConsistent texts lower parse_float is_nan zero_number difference array_sort
              numbers (determine_sort_function itm) column kind)) in
        (
          once,
          twice,
          clicked,
          again,
          subst (IsOrderedBy (opposite cmp)) (sym turned) (
              reverse_onto-IsOrderedBy cmp once.table.body [] ordered tt
                (Before-nil cmp once.table.body)),
          λ row. ap (count row) turned ∙ reversed_count row once.table.body ∙ same row,
        )
