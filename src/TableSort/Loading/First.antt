-- ===== src/TableSort/Loading/First.antt =====
-- What loading a page keeps, and the click on its first heading.

use java_study_project.Base.{
  ℕ, ◌≡◌, refl, ap, ◌∙◌, Bool, true, false, some, List, [], ◌∷◌, ◌++◌, Bool-cases, inl, inr,
}
use java_study_project.Text.{Text, codes}
use java_study_project.Css.{element_has_class}
use java_study_project.TableSort.Table.{State, do_stripe}
use java_study_project.TableSort.Making.{
  HtmlTable, TableMaker, Made, last_row, add_arrows, stripe_loop, auto_stripe, make_links,
  make_sortable, make_if, assign_id, run,
}
use java_study_project.TableSort.Making.Cells.{make_sortable-IsMade}
use java_study_project.TableSort.Loading.{first_child}

-- What the making of a table keeps: the rows in their order, the table that was sorted last, and the body.
pub record IsKept {N : Type 0} (t : HtmlTable N) (m : TableMaker) (r : Made (HtmlTable N))
    : Type 0 where
  pub body : r.made.table.body ≡ t.table.body
  pub has_body : r.made.has_body ≡ t.has_body
  pub last : r.maker.sorter.last_sorted_table ≡ m.sorter.last_sorted_table

module _ {N : Type 0} (make_link : ℕ → List N → N) (arrow : N) where
  stripe_loop-keeps :
      (rows : List ℕ) (st : State)
      → ((stripe_loop make_link arrow rows st).table.body ≡ st.table.body)
        × ((stripe_loop make_link arrow rows st).table.headings ≡ st.table.headings)
        × ((stripe_loop make_link arrow rows st).sorter.last_sorted_table
            ≡ st.sorter.last_sorted_table)
  unfolding stripe_loop do_stripe
  stripe_loop-keeps [] st = (refl, refl, refl)
  stripe_loop-keeps (row ∷ rows) st = stripe_loop-keeps rows _

  auto_stripe-IsKept :
      (t : HtmlTable N) (m : TableMaker) → IsKept t m (auto_stripe make_link arrow t m)
  unfolding auto_stripe
  auto_stripe-IsKept t m =
      elim (Bool-cases (element_has_class (some t.classes) (codes "autostripe"))) [
        | inr e ↦ rw e (record { body = refl; has_body = refl; last = refl })
        | inl e ↦ elim (Bool-cases t.has_body) [
          | inr b ↦ rw (e, b) (record { body = refl; has_body = refl; last = refl })
          | inl b ↦
              let (body, headings, last) =
                stripe_loop-keeps t.table.body
                  (record { table = t.table; sorter = record (m.sorter) { is_odd = false } }) in
              rw (e, b) (record { body = body; has_body = refl; last = last })
        ]
      ]

  auto_stripe-headings :
      (t : HtmlTable N) (m : TableMaker)
      → (auto_stripe make_link arrow t m).made.table.headings ≡ t.table.headings
  unfolding auto_stripe
  auto_stripe-headings t m =
      elim (Bool-cases (element_has_class (some t.classes) (codes "autostripe"))) [
        | inr e ↦ rw e refl
        | inl e ↦ elim (Bool-cases t.has_body) [
          | inr b ↦ rw (e, b) refl
          | inl b ↦
              let (body, headings, last) =
                stripe_loop-keeps t.table.body
                  (record { table = t.table; sorter = record (m.sorter) { is_odd = false } }) in
              rw (e, b) headings
        ]
      ]

  make_links-IsKept :
      (t : HtmlTable N) (m : TableMaker) (head : List (List (List N)))
      → IsKept t m (make_links make_link arrow t m head)
  make_links-IsKept t m [] = record { body = refl; has_body = refl; last = refl }
  make_links-IsKept t m (row ∷ rows) =
      let kept = auto_stripe-IsKept _ m in
      record { body = kept.body; has_body = kept.has_body; last = kept.last }

  assign_id-last :
      (id : Text) (m : TableMaker)
      → (assign_id id m).1.sorter.last_sorted_table ≡ m.sorter.last_sorted_table
  unfolding assign_id
  assign_id-last [] m = refl
  assign_id-last (c ∷ s) m = refl

  pub make_sortable-IsKept :
      (t : HtmlTable N) (m : TableMaker) → IsKept t m (make_sortable make_link arrow t m)
  unfolding make_sortable
  make_sortable-IsKept t m =
      let (id, counted) = assign_id t.id m in
      let kept = make_links-IsKept (record t { id = id }) counted t.head in
      record {
        body = kept.body;
        has_body = kept.has_body;
        last = kept.last ∙ assign_id-last t.id m;
      }

  make_if-last :
      (b : Bool) (t : HtmlTable N) (m : TableMaker)
      → (make_if make_link arrow b t m).maker.sorter.last_sorted_table ≡ m.sorter.last_sorted_table
  make_if-last true t m = (make_sortable-IsKept t m).last
  make_if-last false t m = refl

  run-last :
      (ts : List (HtmlTable N)) (m : TableMaker)
      → (run make_link arrow ts m).maker.sorter.last_sorted_table ≡ m.sorter.last_sorted_table
  unfolding run
  run-last [] m = refl
  run-last (t ∷ ts) m =
      let one =
        make_if make_link arrow (element_has_class (some t.classes) (codes "sortable")) t m in
      let own = make_if-last (element_has_class (some t.classes) (codes "sortable")) t m in
      elim (Bool-cases one.threw) [
        | inl e ↦ rw (e, run) own
        | inr e ↦ rw (e, run) (run-last ts one.maker ∙ own)
      ]

  last_row-append :
      (front : List (List (List N))) (row : List (List N))
      → last_row make_link arrow (front ++ row ∷ []) ≡ row
  last_row-append [] row = refl
  last_row-append (above ∷ []) row = refl
  last_row-append (above ∷ next ∷ front) row = last_row-append (next ∷ front) row

  make_links-headings :
      (t : HtmlTable N) (m : TableMaker) (front : List (List (List N))) (row : List (List N))
      → (make_links make_link arrow t m (front ++ row ∷ [])).made.table.headings
        ≡ add_arrows make_link arrow row t.table.headings
  make_links-headings t m [] row = auto_stripe-headings _ m
  make_links-headings t m (above ∷ front) row =
      auto_stripe-headings _ m
      ∙ ap (λ r. add_arrows make_link arrow r t.table.headings)
          (last_row-append (above ∷ front) row)

  pub make_sortable-headings :
      (t : HtmlTable N) (m : TableMaker) (front : List (List (List N))) (row : List (List N))
      → t.head ≡ front ++ row ∷ []
      → (make_sortable make_link arrow t m).made.table.headings
        ≡ add_arrows make_link arrow row t.table.headings
  unfolding make_sortable
  make_sortable-headings t m front row e =
      let (id, counted) = assign_id t.id m in
      rw e (make_links-headings (record t { id = id; head = front ++ row ∷ [] }) counted front row)

  -- The first child of a heading that held one node is its link.
  pub first_child-link :
      (t : HtmlTable N) (m : TableMaker) (front : List (List (List N))) (n : N)
      (cells : List (List N))
      → t.head ≡ front ++ ((n ∷ []) ∷ cells) ∷ []
      → first_child 0 (last_row make_link arrow (make_sortable make_link arrow t m).made.head)
        ≡ some (make_link 0 (n ∷ []))
  first_child-link t m front n cells e =
      let (head, id, threw) = make_sortable-IsMade make_link arrow t m front ((n ∷ []) ∷ cells) e in
      ap (λ h. first_child 0 (last_row make_link arrow h)) head
      ∙ ap (first_child 0) (last_row-append front _)

  -- If no table throws, the first one is made, and what follows keeps the table that was sorted last.
  pub run-first :
      (t : HtmlTable N) (ts : List (HtmlTable N)) (m : TableMaker)
      → element_has_class (some t.classes) (codes "sortable") ≡ true
      → (run make_link arrow (t ∷ ts) m).threw ≡ false
      → (later : List (HtmlTable N)) × (maker : TableMaker) × (run make_link arrow (t ∷ ts) m
          ≡ record {
            made = (make_sortable make_link arrow t m).made ∷ later;
            maker = maker;
            threw = false;
          })
        × (maker.sorter.last_sorted_table ≡ m.sorter.last_sorted_table)
  unfolding run
  run-first t ts m sortable quiet = elim (Bool-cases (make_sortable make_link arrow t m).threw) [
    | inl e ↦ let n : true ≡ false = rw (sortable, e, run) at quiet in cc
    | inr e ↦
        let others = run make_link arrow ts (make_sortable make_link arrow t m).maker in
        let calm : others.threw ≡ false = rw (sortable, e, run) at quiet in
        (
          others.made,
          others.maker,
          rw (sortable, e, run) (rw calm refl),
          run-last ts (make_sortable make_link arrow t m).maker ∙ (make_sortable-IsKept t m).last,
        )
  ]
