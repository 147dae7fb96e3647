-- ===== src/Tests/Clicks.antt =====
-- Clicks on a table of three rows, with a sort by insertion in place of the engine's.
use Prim.Native.Nat.{Ordering, compare}
use java_study_project.Base.{
  ◌⊎◌, ℕ, zero, suc, ◌≡◌, refl, arith, true, false, none, some, List, [], ◌∷◌,
}
use java_study_project.Text.{Text, codes}
use java_study_project.Text.Number.{scan_digits}
use java_study_project.TableSort.Table.{unsorted, State, done, heading_clicked, set_column}
use java_study_project.TableSort.Table.Rows.{count, IsDistinct}
use java_study_project.TableSort.Table.Errors.{heading_clicked-threw}

unfoldable pub insert : (ℕ → ℕ → Ordering) → ℕ → List ℕ → List ℕ
insert cmp row [] = row ∷ []
insert cmp row (r ∷ rs) =
    let rest = insert cmp row rs in
    elim (cmp row r) [
      | Ordering.gt ↦ r ∷ rest
      | Ordering.eq ↦ row ∷ r ∷ rs
      | Ordering.lt ↦ row ∷ r ∷ rs
    ]

unfoldable pub insertion_sort : (ℕ → ℕ → Ordering) → List ℕ → List ℕ
insertion_sort cmp [] = []
insertion_sort cmp (r ∷ rs) = insert cmp r (insertion_sort cmp rs)

count-insert :
    (cmp : ℕ → ℕ → Ordering) (r : ℕ) (rs : List ℕ) (row : ℕ)
    → count row (insert cmp r rs) ≡ count row (r ∷ rs)
unfolding insert count
count-insert cmp r [] row = refl
count-insert cmp r (s ∷ rs) row = ground (arith, count-insert cmp r rs row)

pub count-insertion_sort :
    (cmp : ℕ → ℕ → Ordering) (rows : List ℕ) (row : ℕ)
    → count row (insertion_sort cmp rows) ≡ count row rows
unfolding insertion_sort count
count-insertion_sort cmp [] row = refl
count-insertion_sort cmp (r ∷ rs) row =
    let e = count-insert cmp r (insertion_sort cmp rs) row in
    rw e (unfold count in rw (count-insertion_sort cmp rs row))

abbrev pub cells : ℕ → List Text
cells zero = codes "beta" ∷ codes "12" ∷ []
cells (suc zero) = codes "alpha" ∷ codes "7" ∷ []
cells (suc (suc row)) = codes "" ∷ codes "9" ∷ []

abbrev pub page : State
page = record {
  table = record {
    body = 0 ∷ 1 ∷ 2 ∷ [];
    rows = λ row. record { class_name = codes "row" };
    headings = (unsorted ∷ []) ∷ (unsorted ∷ []) ∷ [];
  };
  sorter = record {
    is_odd = false;
    sort_column_index = none;
    new_rows = [];
    last_sorted_table = none;
  };
}

abbrev sorted_page : State
sorted_page = record page {
  sorter = record {
    is_odd = true;
    sort_column_index = some 0;
    new_rows = 0 ∷ 1 ∷ 2 ∷ [];
    last_sorted_table = some (codes "queues");
  };
}

pub page-IsDistinct : IsDistinct (0 ∷ 1 ∷ 2 ∷ [])
page-IsDistinct = unfold count in (λ row. ground arith)

-- Numbers are sorted as numbers.
by_number :
    (after : State) × (heading_clicked cells
        (λ s. s)
        (scan_digits 10 0)
        (λ n. false)
        0
        compare
        insertion_sort
        (codes "queues")
        1
        page
      ≡ done after)
    × (after.table.body ≡ 1 ∷ 2 ∷ 0 ∷ [])
unfolding heading_clicked insertion_sort insert scan_digits
by_number = (_, refl, refl)

-- Only the first row has a cell.
abbrev short_rows : ℕ → List Text
short_rows zero = codes "beta" ∷ []
short_rows (suc row) = []

heading_clicked-threw_example : (set_column 0 page ≡ page) ⊎ (set_column 0 page ≡ set_column 0 page)
heading_clicked-threw_example =
    heading_clicked-threw short_rows (λ s. s) (scan_digits 10 0) (λ n. false) 0 compare
      insertion_sort (codes "queues") 0 page (set_column 0 page) (unfold heading_clicked in refl)

-- A missing cell is no obstacle where numbers are sorted.
abbrev short_numbers : ℕ → List Text
short_numbers zero = codes "7" ∷ []
short_numbers (suc row) = []

missing_number :
    (after : State) × (heading_clicked short_numbers
        (λ s. s)
        (scan_digits 10 0)
        (λ n. false)
        0
        compare
        insertion_sort
        (codes "queues")
        0
        page
      ≡ done after)
    × (after.table.body ≡ 1 ∷ 2 ∷ 0 ∷ [])
unfolding heading_clicked insertion_sort insert scan_digits
missing_number = (_, refl, refl)
