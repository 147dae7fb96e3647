-- ===== src/TableSort/Making/Cells.antt =====
-- What becomes of the cells of a heading.
use mathlib.Core.Path.{subst}
use java_study_project.Base.{
  ℕ, zero, suc, ◌≤◌, ◌≡◌, ◌≢◌, refl, sym, ap, ◌∙◌, arith, not, ◌&&◌, none, some, List, [], ◌∷◌,
  ◌++◌, length, get_elem?, append-nil, append_assoc, length-append, Bool-cases, inl, inr,
}
use java_study_project.Text.{Text, codes}
use java_study_project.Css.{element_has_class}
use java_study_project.TableSort.Making.{
  HtmlTable, TableMaker, Made, remove_at, move_children, make_cell, make_cells, make_head,
  assign_id, auto_stripe, make_links, make_sortable,
}

-- Every second element of a list, from the first one on, and the others.
abbrev pub evens : {N : Type 0} → List N → List N
evens [] = []
evens (n ∷ []) = n ∷ []
evens (n ∷ m ∷ ns) = n ∷ evens ns

abbrev pub odds : {N : Type 0} → List N → List N
odds [] = []
odds (n ∷ []) = []
odds (n ∷ m ∷ ns) = m ∷ odds ns

get_elem?-length : {N : Type 0} (p s : List N) (n : N) → get_elem? (p ++ n ∷ s) (length p) ≡ some n
get_elem?-length [] s n = refl
get_elem?-length (m ∷ p) s n = get_elem?-length p s n

get_elem?-end : {N : Type 0} (p : List N) (j : ℕ) → length p ≤ j → get_elem? p j ≡ none
get_elem?-end [] j h = refl
get_elem?-end (m ∷ p) zero h = absurd (omega arith)
get_elem?-end (m ∷ p) (suc j) h = get_elem?-end p j (omega arith)

remove_at-length : {N : Type 0} (p s : List N) (n : N) → remove_at (length p) (p ++ n ∷ s) ≡ p ++ s
remove_at-length [] s n = refl
remove_at-length (m ∷ p) s n = ap (◌∷◌ m) (remove_at-length p s n)

move_children-some :
    {N : Type 0} (fuel j : ℕ) (s link : List N) (n : N)
    → get_elem? s j ≡ some n
    → move_children (suc fuel) j s link
      ≡ move_children fuel (suc j) (remove_at j s) (link ++ n ∷ [])
unfolding move_children
move_children-some fuel j s link n e = rw (move_children, e)

move_children-none :
    {N : Type 0} (fuel j : ℕ) (s link : List N)
    → get_elem? s j ≡ none
    → move_children fuel j s link ≡ (s, link)
unfolding move_children
move_children-none zero j s link e = refl
move_children-none (suc fuel) j s link e = rw (move_children, e)

-- Of the children from the index on that the loop has reached every second one is moved.
move_children-halves :
    {N : Type 0} (fuel : ℕ) (p s link : List N)
    → length s ≤ fuel
    → move_children fuel (length p) (p ++ s) link ≡ (p ++ odds s, link ++ evens s)
unfolding move_children
move_children-halves zero p [] link h = rw (append-nil link)
move_children-halves zero p (n ∷ s) link h = absurd (omega arith)
move_children-halves (suc fuel) p [] link h =
    let e : get_elem? (p ++ []) (length p) ≡ none =
      get_elem?-end (p ++ []) (length p) (omega (arith, length-append p [])) in
    move_children-none (suc fuel) (length p) (p ++ []) link e
    ∙ ap (λ l. (p ++ [], l)) (sym (append-nil link))
move_children-halves (suc fuel) p (n ∷ []) link h =
    let e : get_elem? (p ++ []) (suc (length p)) ≡ none =
      get_elem?-end (p ++ []) (suc (length p)) (omega (arith, length-append p [])) in
    move_children-some fuel (length p) (p ++ n ∷ []) link n (get_elem?-length p [] n)
    ∙ ap (λ s. move_children fuel (suc (length p)) s (link ++ n ∷ [])) (remove_at-length p [] n)
    ∙ move_children-none fuel (suc (length p)) (p ++ []) (link ++ n ∷ []) e
move_children-halves (suc fuel) p (n ∷ m ∷ s) link h =
    let j : suc (length p) ≡ length (p ++ m ∷ []) = omega (arith, length-append p (m ∷ [])) in
    move_children-some fuel (length p) (p ++ n ∷ m ∷ s) link n (get_elem?-length p (m ∷ s) n)
    ∙ ap (λ r. move_children fuel (suc (length p)) r (link ++ n ∷ []))
        (remove_at-length p (m ∷ s) n)
    ∙ ap (λ r. move_children fuel (suc (length p)) r (link ++ n ∷ []))
        (sym (append_assoc p (m ∷ []) s))
    ∙ ap (λ i. move_children fuel i ((p ++ m ∷ []) ++ s) (link ++ n ∷ [])) j
    ∙ move_children-halves fuel (p ++ m ∷ []) s (link ++ n ∷ []) (omega arith)
    ∙ ap (λ left. (left, (link ++ n ∷ []) ++ evens s)) (append_assoc p (m ∷ []) (odds s))
    ∙ ap (λ l. (p ++ m ∷ odds s, l)) (append_assoc link (n ∷ []) (evens s))

assign_id-ne-nil : (id : Text) (m : TableMaker) → (assign_id id m).0 ≢ []
unfolding assign_id
assign_id-ne-nil [] m = λ n. cc
assign_id-ne-nil (c ∷ s) m = λ n. cc

module _ {N : Type 0} (make_link : ℕ → List N → N) (arrow : N) where
  -- Cells whose links hold every second child only.
  abbrev pub half_linked : ℕ → List (List N) → List (List N)
  half_linked i [] = []
  half_linked i (cell ∷ cells) =
      (odds cell ++ make_link i (evens cell) ∷ arrow ∷ []) ∷ half_linked (suc i) cells

  make_cell-half :
      (i : ℕ) (cell : List N)
      → make_cell make_link arrow i cell ≡ odds cell ++ make_link i (evens cell) ∷ arrow ∷ []
  unfolding make_cell
  make_cell-half i cell =
      ap (λ pair. pair.0 ++ make_link i pair.1 ∷ arrow ∷ [])
        (move_children-halves (length cell) [] cell [] (omega arith))

  make_cells-half :
      (i : ℕ) (cells : List (List N)) → make_cells make_link arrow i cells ≡ half_linked i cells
  unfolding make_cells
  make_cells-half i [] = refl
  make_cells-half i (cell ∷ cells) = rw (make_cell-half i cell, make_cells-half (suc i) cells)

  make_head-last :
      (front : List (List (List N))) (row : List (List N))
      → make_head make_link arrow (front ++ row ∷ []) ≡ front ++ half_linked 0 row ∷ []
  unfolding make_head
  make_head-last [] row = rw (make_cells-half 0 row)
  make_head-last (above ∷ []) row = rw (make_cells-half 0 row)
  make_head-last (above ∷ next ∷ front) row = ap (◌∷◌ above) (make_head-last (next ∷ front) row)

  -- What striping keeps, and when it is left by a TypeError.
  auto_stripe-keeps :
      (t : HtmlTable N) (m : TableMaker)
      → ((auto_stripe make_link arrow t m).made.head ≡ t.head)
        × ((auto_stripe make_link arrow t m).made.id ≡ t.id)
        × ((auto_stripe make_link arrow t m).threw
            ≡ (element_has_class (some t.classes) (codes "autostripe") && not t.has_body))
  unfolding auto_stripe
  auto_stripe-keeps t m =
      elim (Bool-cases (element_has_class (some t.classes) (codes "autostripe"))) [
        | inr e ↦ rw e (refl, refl, refl)
        | inl e ↦ elim (Bool-cases t.has_body) [
          | inl b ↦ rw (e, b) (refl, refl, refl)
          | inr b ↦ rw (e, b) (refl, refl, refl)
        ]
      ]

  -- A table whose head was made: the head, the id, and how it ended.
  abbrev pub IsMade :
      HtmlTable N → List (List (List N)) → List (List N) → Made (HtmlTable N) → Type 0
  IsMade t front row r =
      (r.made.head ≡ front ++ half_linked 0 row ∷ [])
      × (r.made.id ≢ [])
      × (r.threw ≡ (element_has_class (some t.classes) (codes "autostripe") && not t.has_body))

  make_links-IsMade :
      (t : HtmlTable N) (m : TableMaker) (front : List (List (List N))) (row : List (List N))
      → t.id ≢ []
      → IsMade t front row (make_links make_link arrow t m (front ++ row ∷ []))
  make_links-IsMade t m [] row named =
      let (head, id, threw) = auto_stripe-keeps _ m in
      (head ∙ make_head-last [] row, λ none. named (sym id ∙ none), threw)
  make_links-IsMade t m (above ∷ front) row named =
      let (head, id, threw) = auto_stripe-keeps _ m in
      (head ∙ make_head-last (above ∷ front) row, λ none. named (sym id ∙ none), threw)

  -- Of the contents of a cell in the last row of a table's head only every second child, from the first
  -- on, is moved into the cell's link; the others stay in front of it. The other rows are as they were,
  -- the table has an id, and a TypeError comes just when the table is to be striped and has no body.
  pub make_sortable-IsMade :
      (t : HtmlTable N) (m : TableMaker) (front : List (List (List N))) (row : List (List N))
      → t.head ≡ front ++ row ∷ []
      → IsMade t front row (make_sortable make_link arrow t m)
  unfolding make_sortable
  make_sortable-IsMade t m front row e =
      let (id, counted) = assign_id t.id m in
      let named = record t { id = id } in
      subst (λ head. IsMade named front row (make_links make_link arrow named counted head)) (sym e)
        (make_links-IsMade named counted front row (assign_id-ne-nil t.id m))
