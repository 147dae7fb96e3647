-- ===== src/Tests/Sorting.antt =====
-- A sort by insertion in place of the engine's, and clicks with it,
-- `webapps/admin/js/standardista-table-sorting.js`.
use Prim.Native.Nat.{Ordering, compare}
use java_study_project.Base.{
  ℕ, ◌≡◌, ◌≢◌, ◌⊎◌, refl, ◌∙◌, ap, arith, false, List, [], ◌∷◌, All, inl, inr,
}
use java_study_project.Text.{codes}
use java_study_project.Text.Number.{scan_digits}
use java_study_project.TableSort.Order.{flip}
use java_study_project.TableSort.Kinds.{SortKind, determine_sort_function}
use java_study_project.TableSort.Table.{State, done, heading_clicked, first_filled}
use java_study_project.TableSort.Table.Rows.{count}
use java_study_project.TableSort.Ascending.{
  IsConsistent, Anything, IsOrderedBy, IsSort, IsArithmetic,
}
use java_study_project.TableSort.InOrder.{InOrder, RowPrecedes}
use java_study_project.TableSort.Sorted.{heading_clicked-ascending, heading_clicked-descending}
use java_study_project.Tests.Clicks.{
  insert, insertion_sort, count-insertion_sort, cells, page, page-IsDistinct,
}

gt_cases : (o : Ordering) → (o ≡ Ordering.gt) ⊎ ((o ≡ Ordering.lt) ⊎ (o ≡ Ordering.eq))
gt_cases Ordering.lt = inr (inl refl)
gt_cases Ordering.eq = inr (inr refl)
gt_cases Ordering.gt = inl refl

module _ (cmp : ℕ → ℕ → Ordering) (c : IsConsistent Anything cmp) where
  All-insert :
      (P : ℕ → Type 0) (row : ℕ) (rs : List ℕ) → P row → All P rs → All P (insert cmp row rs)
  unfolding insert
  All-insert P row [] h hs = (h, tt)
  All-insert P row (r ∷ rs) h hs = elim (gt_cases (cmp row r)) [
    | inl e ↦ rw (e, insert) (hs.0, All-insert P row rs h hs.1)
    | inr (inl e) ↦ rw (e, insert) (h, hs)
    | inr (inr e) ↦ rw (e, insert) (h, hs)
  ]

  -- What follows a row follows those that it does not stand behind.
  later_rows :
      (row r : ℕ) (rs : List ℕ)
      → cmp row r ≢ Ordering.gt
      → All (λ s. cmp r s ≢ Ordering.gt) rs
      → All (λ s. cmp row s ≢ Ordering.gt) rs
  later_rows row r [] h hs = tt
  later_rows row r (s ∷ rs) h hs =
      (c.transitive row r s tt tt tt h hs.0, later_rows row r rs h hs.1)

  front-IsOrderedBy :
      (row r : ℕ) (rs : List ℕ)
      → cmp row r ≢ Ordering.gt
      → IsOrderedBy cmp (r ∷ rs)
      → IsOrderedBy cmp (row ∷ r ∷ rs)
  front-IsOrderedBy row r rs h o = ((h, later_rows row r rs h o.0), o)

  insert-IsOrderedBy :
      (row : ℕ) (rs : List ℕ) → IsOrderedBy cmp rs → IsOrderedBy cmp (insert cmp row rs)
  unfolding insert
  insert-IsOrderedBy row [] o = (tt, tt)
  insert-IsOrderedBy row (r ∷ rs) o = elim (gt_cases (cmp row r)) [
    | inl e ↦
        let below : cmp r row ≡ Ordering.lt = c.flipped row r tt tt ∙ ap flip e in
        rw (e, insert)
          (
            All-insert (λ s. cmp r s ≢ Ordering.gt) row rs (λ g. cc) o.0,
            insert-IsOrderedBy row rs o.1,
          )
    | inr (inl e) ↦ rw (e, insert) (front-IsOrderedBy row r rs (λ g. cc) o)
    | inr (inr e) ↦ rw (e, insert) (front-IsOrderedBy row r rs (λ g. cc) o)
  ]

  insertion_sort-IsOrderedBy : (rs : List ℕ) → IsOrderedBy cmp (insertion_sort cmp rs)
  unfolding insertion_sort
  insertion_sort-IsOrderedBy [] = tt
  insertion_sort-IsOrderedBy (r ∷ rs) =
      insert-IsOrderedBy r (insertion_sort cmp rs) (insertion_sort-IsOrderedBy rs)

pub insertion_sort-IsSort : IsSort insertion_sort
insertion_sort-IsSort = record {
  keeps = count-insertion_sort;
  orders = λ cmp rows c. insertion_sort-IsOrderedBy cmp c rows;
}

-- Every text stands for a whole number.
pub whole-IsArithmetic :
    IsArithmetic cells (λ s. s) (scan_digits 10 0) (λ n. false) 0 compare insertion_sort
whole-IsArithmetic = record {
  zero_real = refl;
  signs = record {
    flipped = λ a b p q. ground arith;
    transitive = λ a b c p q r h k. ground arith;
  };
}

pub beta : determine_sort_function (codes "beta") ≢ SortKind.currency
unfolding determine_sort_function
beta e = cc

-- Which of two rows may stand in front, by the texts of the first column.
abbrev Precedes : ℕ → ℕ → Type 0
Precedes =
    RowPrecedes cells (λ s. s) (scan_digits 10 0) (λ n. false) 0 compare insertion_sort
      (determine_sort_function (codes "beta")) 0

heading_clicked-ascending_example :
    (after : State) × (heading_clicked cells
        (λ s. s)
        (scan_digits 10 0)
        (λ n. false)
        0
        compare
        insertion_sort
        (codes "queues")
        0
        page
      ≡ done after)
    × InOrder Precedes after.table.body
    × ((row : ℕ) → count row after.table.body ≡ count row page.table.body)
heading_clicked-ascending_example =
    heading_clicked-ascending cells (λ s. s) (scan_digits 10 0) (λ n. false) 0 compare
      insertion_sort whole-IsArithmetic (codes "queues") 0 page (codes "beta") insertion_sort-IsSort
      beta page-IsDistinct (omega arith) refl (unfold first_filled in refl) refl

heading_clicked-descending_example :
    (once twice : State) × (heading_clicked cells
        (λ s. s)
        (scan_digits 10 0)
        (λ n. false)
        0
        compare
        insertion_sort
        (codes "queues")
        0
        page
      ≡ done once)
    × (heading_clicked cells
          (λ s. s)
          (scan_digits 10 0)
          (λ n. false)
          0
          compare
          insertion_sort
          (codes "queues")
          0
          once
        ≡ done twice)
    × InOrder (λ a b. Precedes b a) twice.table.body
    × ((row : ℕ) → count row twice.table.body ≡ count row page.table.body)
heading_clicked-descending_example =
    heading_clicked-descending cells (λ s. s) (scan_digits 10 0) (λ n. false) 0 compare
      insertion_sort whole-IsArithmetic (codes "queues") 0 page (codes "beta") insertion_sort-IsSort
      beta page-IsDistinct (omega arith) refl (unfold first_filled in refl) refl
