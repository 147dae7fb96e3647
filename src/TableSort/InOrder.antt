-- ===== src/TableSort/InOrder.antt =====
-- The orders that the comparators should put rows into, told without the comparators.
use Prim.Native.Nat.{Ordering}
use mathlib.Core.Path.{subst}
use java_study_project.Base.{
  ℕ, ◌<◌, ◌≢◌, refl, arith, Bool, List, [], ◌∷◌, All, ltb, ltb→lt, ◌==◌, ==_iff, if◌then◌else◌,
  Bool-cases, inl, inr,
}
use java_study_project.Text.{Text}
use java_study_project.TableSort.Keys.{
  text_compare, date_key, sort_date, sort_case_insensitive, sort_ip, make_standard_ip_address,
}
use java_study_project.TableSort.Kinds.{SortKind}
use java_study_project.TableSort.Table.{amount, cell_text, sort_with, sort_fn}
use java_study_project.TableSort.Ascending.{IsOrderedBy}

-- The one text stands where the other does in a dictionary, or before it.
pub data AtMost : Text → Text → Type 0 where
  shorter : {t : Text} → AtMost [] t
  below : {c d : ℕ} {s t : Text} → c < d → AtMost (c ∷ s) (d ∷ t)
  behind : {c : ℕ} {s t : Text} → AtMost s t → AtMost (c ∷ s) (c ∷ t)

text_compare-AtMost : (s t : Text) → text_compare s t ≢ Ordering.gt → AtMost s t
unfolding text_compare
text_compare-AtMost [] t h = shorter
text_compare-AtMost (c ∷ s) [] h = absurd (h refl)
text_compare-AtMost (c ∷ s) (d ∷ t) h = elim (Bool-cases (ltb c d)) [
  | inl e ↦ below (ltb→lt c d e)
  | inr e ↦ elim (Bool-cases (c == d)) [
    | inl same ↦
        let rest : text_compare s t ≢ Ordering.gt = λ g. h (ground arith) in
        subst (λ x. AtMost (c ∷ s) (x ∷ t)) ((==_iff c d).0 same)
          (behind (text_compare-AtMost s t rest))
    | inr other ↦ absurd (h (ground arith))
  ]
]

-- Every two rows stand as the relation says, the first of them in front.
abbrev pub InOrder : (ℕ → ℕ → Type 0) → List ℕ → Type 0
InOrder R [] = Unit
InOrder R (r ∷ rs) = All (R r) rs × InOrder R rs

All-map : (P Q : ℕ → Type 0) (rs : List ℕ) → ((r : ℕ) → P r → Q r) → All P rs → All Q rs
All-map P Q [] f h = tt
All-map P Q (r ∷ rs) f (h, hs) = (f r h, All-map P Q rs f hs)

ordered-InOrder :
    (cmp : ℕ → ℕ → Ordering) (R : ℕ → ℕ → Type 0) (rs : List ℕ)
    → ((a b : ℕ) → cmp a b ≢ Ordering.gt → R a b)
    → IsOrderedBy cmp rs
    → InOrder R rs
ordered-InOrder cmp R [] f o = tt
ordered-InOrder cmp R (r ∷ rs) f (o, os) =
    (All-map (λ s. cmp r s ≢ Ordering.gt) (R r) rs (f r) o, ordered-InOrder cmp R rs f os)

module _ (texts : ℕ → List Text) (lower : Text → Text) {N : Type 0} (parse_float : Text → N)
    (is_nan : N → Bool) (zero_number : N) (difference : N → N → Ordering)
    (array_sort : (ℕ → ℕ → Ordering) → List ℕ → List ℕ) where
  -- The number of a text; a text that is none counts as zero.
  abbrev pub value : Text → N
  value t = if is_nan (parse_float t) then zero_number else parse_float t

  -- A text may stand in front of another: by its letters in lower case, by year, month and day, by the
  -- parts of an address with zeros in front, or where the number is not greater.
  abbrev pub MayPrecede : SortKind → Text → Text → Type 0
  MayPrecede SortKind.case_insensitive a b = AtMost (lower a) (lower b)
  MayPrecede SortKind.date a b = AtMost (date_key a) (date_key b)
  MayPrecede SortKind.ip a b =
      AtMost (make_standard_ip_address (lower a)) (make_standard_ip_address (lower b))
  MayPrecede SortKind.numeric a b = difference (value a) (value b) ≢ Ordering.gt
  MayPrecede SortKind.currency a b =
      difference
        (parse_float (amount texts lower parse_float is_nan zero_number difference array_sort a))
        (parse_float (amount texts lower parse_float is_nan zero_number difference array_sort b))
      ≢ Ordering.gt

  sort_with-MayPrecede :
      (kind : SortKind) (a b : Text)
      → sort_with texts lower parse_float is_nan zero_number difference array_sort kind a b
        ≢ Ordering.gt
      → MayPrecede kind a b
  unfolding sort_case_insensitive sort_date sort_ip
  sort_with-MayPrecede SortKind.case_insensitive a b h = text_compare-AtMost _ _ h
  sort_with-MayPrecede SortKind.date a b h = text_compare-AtMost _ _ h
  sort_with-MayPrecede SortKind.ip a b h = text_compare-AtMost _ _ h
  sort_with-MayPrecede SortKind.numeric a b h = h
  sort_with-MayPrecede SortKind.currency a b h = h

  -- The rows by the texts of their cells in a column.
  abbrev pub RowPrecedes : SortKind → ℕ → ℕ → ℕ → Type 0
  RowPrecedes kind column a b =
      MayPrecede kind
        (cell_text texts lower parse_float is_nan zero_number difference array_sort column a)
        (cell_text texts lower parse_float is_nan zero_number difference array_sort column b)

  pub sort_fn-InOrder :
      (kind : SortKind) (column : ℕ) (rows : List ℕ)
      → IsOrderedBy
          (sort_fn texts lower parse_float is_nan zero_number difference array_sort kind column)
          rows
      → InOrder (RowPrecedes kind column) rows
  sort_fn-InOrder kind column rows o =
      ordered-InOrder _ (RowPrecedes kind column) rows (λ a b h. sort_with-MayPrecede kind _ _ h) o

  pub opposite-InOrder :
      (kind : SortKind) (column : ℕ) (rows : List ℕ)
      → IsOrderedBy
          (λ a b.
            sort_fn texts lower parse_float is_nan zero_number difference array_sort kind column b
              a)
          rows
      → InOrder (λ a b. RowPrecedes kind column b a) rows
  opposite-InOrder kind column rows o =
      ordered-InOrder _ (λ a b. RowPrecedes kind column b a) rows
        (λ a b h. sort_with-MayPrecede kind _ _ h) o
