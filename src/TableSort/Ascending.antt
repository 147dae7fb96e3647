-- ===== src/TableSort/Ascending.antt =====
-- What a click on a heading is for: the rows stand in ascending order afterwards.
use Prim.Native.Nat.{Ordering}
use mathlib.Core.Path.{subst}
use java_study_project.Base.{
  ℕ, ◌<◌, ◌≡◌, ◌≢◌, refl, sym, ap, ◌∙◌, Bool, true, false, ◌&&◌, some, List, [], ◌∷◌, All, inl, inr,
  Bool-cases, length,
}
use java_study_project.Text.{Text}
use java_study_project.TableSort.Order.{
  flip, by_case, by_date, by_ip, sort_text-flip, sort_text_trans,
}
use java_study_project.TableSort.Kinds.{SortKind, determine_sort_function}
use java_study_project.TableSort.Table.{
  State, done, heading_clicked, first_filled, can_sort, sort_fn, cell_text, sort_with,
  number_or_zero, same_table, same_column,
}
use java_study_project.TableSort.Table.Rows.{count, IsDistinct}
use java_study_project.TableSort.Table.Clicks.{heading_clicked-sort}

-- A comparator as `Array.prototype.sort` asks for, on the values of which `P` holds.
pub record IsConsistent {A : Type 0} (P : A → Type 0) (cmp : A → A → Ordering) : Type 0 where
  pub flipped : (a b : A) → P a → P b → cmp b a ≡ flip (cmp a b)
  pub transitive :
      (a b c : A)
      → P a
      → P b
      → P c
      → cmp a b ≢ Ordering.gt
      → cmp b c ≢ Ordering.gt
      → cmp a c ≢ Ordering.gt

abbrev pub Anything : {A : Type 0} → A → Type 0
Anything a = Unit {0}

-- No row stands behind one that it should stand in front of.
abbrev pub IsOrderedBy : (ℕ → ℕ → Ordering) → List ℕ → Type 0
IsOrderedBy cmp [] = Unit
IsOrderedBy cmp (r ∷ rs) = All (λ s. cmp r s ≢ Ordering.gt) rs × IsOrderedBy cmp rs

-- `Array.prototype.sort`: every row is kept, and a consistent comparator orders them.
pub record IsSort (array_sort : (ℕ → ℕ → Ordering) → List ℕ → List ℕ) : Type 0 where
  pub keeps :
      (cmp : ℕ → ℕ → Ordering) (rows : List ℕ) (row : ℕ)
      → count row (array_sort cmp rows) ≡ count row rows
  pub orders :
      (cmp : ℕ → ℕ → Ordering) (rows : List ℕ)
      → IsConsistent Anything cmp
      → IsOrderedBy cmp (array_sort cmp rows)

-- Comparing values by a key of theirs.
by_key :
    {A B : Type 0} (P : B → Type 0) (cmp : B → B → Ordering) (key : A → B)
    → ((a : A) → P (key a))
    → IsConsistent P cmp
    → IsConsistent Anything (λ (a b : A). cmp (key a) (key b))
by_key P cmp key holds c = record {
  flipped = λ a b p q. c.flipped (key a) (key b) (holds a) (holds b);
  transitive = λ a b d p q r. c.transitive (key a) (key b) (key d) (holds a) (holds b) (holds d);
}

module _ (texts : ℕ → List Text) (lower : Text → Text) {N : Type 0} (parse_float : Text → N)
    (is_nan : N → Bool) (zero_number : N) (difference : N → N → Ordering)
    (array_sort : (ℕ → ℕ → Ordering) → List ℕ → List ℕ) where
  -- Zero is a number, and the sign of a difference of numbers is consistent.
  pub record IsArithmetic : Type 0 where
    pub zero_real : is_nan zero_number ≡ false
    pub signs : IsConsistent (λ n. is_nan n ≡ false) difference

  module _ (numbers : IsArithmetic) where
    number_or_zero_real :
        (n : N)
        → is_nan (number_or_zero texts lower parse_float is_nan zero_number difference array_sort n)
          ≡ false
    number_or_zero_real n = elim (Bool-cases (is_nan n)) [
      | inl e ↦ rw e numbers.zero_real
      | inr e ↦ rw e e
    ]

    -- Every comparator but that of amounts of money is consistent, on all texts.
    sort_with-IsConsistent :
        (kind : SortKind)
        → kind ≢ SortKind.currency
        → IsConsistent Anything
            (sort_with texts lower parse_float is_nan zero_number difference array_sort kind)
    sort_with-IsConsistent SortKind.case_insensitive h = record {
      flipped = λ a b p q. sort_text-flip lower by_case a b;
      transitive = λ a b c p q r. sort_text_trans lower by_case a b c;
    }
    sort_with-IsConsistent SortKind.date h = record {
      flipped = λ a b p q. sort_text-flip lower by_date a b;
      transitive = λ a b c p q r. sort_text_trans lower by_date a b c;
    }
    sort_with-IsConsistent SortKind.currency h = absurd (h refl)
    sort_with-IsConsistent SortKind.numeric h =
        by_key (λ n. is_nan n ≡ false) difference
          (λ (t : Text).
            number_or_zero texts lower parse_float is_nan zero_number difference array_sort
              (parse_float t))
          (λ t. number_or_zero_real (parse_float t)) numbers.signs
    sort_with-IsConsistent SortKind.ip h = record {
      flipped = λ a b p q. sort_text-flip lower by_ip a b;
      transitive = λ a b c p q r. sort_text_trans lower by_ip a b c;
    }

    -- So is the comparator of the rows.
    pub sort_fn-IsConsistent :
        (kind : SortKind) (column : ℕ)
        → kind ≢ SortKind.currency
        → IsConsistent Anything
            (sort_fn texts lower parse_float is_nan zero_number difference array_sort kind column)
    sort_fn-IsConsistent kind column h =
        by_key Anything
          (sort_with texts lower parse_float is_nan zero_number difference array_sort kind)
          (cell_text texts lower parse_float is_nan zero_number difference array_sort column)
          (λ row. tt) (sort_with-IsConsistent kind h)

    -- A click on a column by which the table is not sorted yet puts its rows in ascending order, by the
    -- comparator that the first filled cell of the column asks for, and keeps every row. The engine sorts
    -- and subtracts as it should, the comparator is not that of amounts of money, and the table has two
    -- rows at least, none of them twice, each with a cell in the column unless it is sorted by numbers.
    pub heading_clicked-IsOrderedBy :
        (table_id : Text) (column : ℕ) (st : State) (itm : Text)
        → IsSort array_sort
        → determine_sort_function itm ≢ SortKind.currency
        → IsDistinct st.table.body
        → 1 < length st.table.body
        → (same_table st.sorter.last_sorted_table table_id
            && same_column st.sorter.sort_column_index column)
          ≡ false
        → first_filled texts lower parse_float is_nan zero_number difference array_sort column
            st.table.body
          ≡ some itm
        → can_sort texts lower parse_float is_nan zero_number difference array_sort
            (determine_sort_function itm)
            column
            st.table.body
          ≡ true
        → (after : State) × (heading_clicked texts lower parse_float is_nan zero_number difference
              array_sort table_id column st
            ≡ done after)
          × IsOrderedBy
              (sort_fn texts lower parse_float is_nan zero_number difference array_sort
                (determine_sort_function itm)
                column)
              after.table.body
          × ((row : ℕ) → count row after.table.body ≡ count row st.table.body)
    heading_clicked-IsOrderedBy table_id column st itm sort kind distinct long fresh filled
          complete =
        let cmp =
          sort_fn texts lower parse_float is_nan zero_number difference array_sort
            (determine_sort_function itm) column in
        let (after, clicked, rows, headings, settled) =
          heading_clicked-sort texts lower parse_float is_nan zero_number difference array_sort
            table_id column st itm sort.keeps distinct long fresh filled complete in
        (
          after,
          clicked,
          subst (IsOrderedBy cmp) (sym rows) (
              sort.orders cmp st.table.body
                (sort_fn-IsConsistent (determine_sort_function itm) column kind)),
          λ row. ap (count row) rows ∙ sort.keeps cmp st.table.body row,
        )
