-- ===== src/TableSort/Inner.antt =====
-- `getInnerText`: the text of a cell, kept in an attribute of the element for the next time.
use java_study_project.Base.{◌≡◌, ◌≢◌, refl, [], ◌∷◌}
use java_study_project.Text.{Text}

-- An element has `innerText` (empty where the browser has none), the attribute in which the text is
-- kept (empty if it is not set) and children: elements, texts and others.
mutual
  pub data Cell : Type 0 where
    cell : Text → Text → Children → Cell

  pub data Children : Type 0 where
    last : Children
    element : Cell → Children → Children
    text_node : Text → Children → Children
    other_node : Children → Children

abbrev pub or_text : Text → Text → Text
or_text [] other = other
or_text (c ∷ s) other = c ∷ s

-- The text: of the element, the one kept, or that of the first child that is an element or a text.
unfoldable mutual
  pub inner_text : Cell → Text
  inner_text (cell inner kept cs) = or_text inner (or_text kept (children_text cs))

  pub children_text : Children → Text
  children_text last = []
  children_text (element c cs) = inner_text c
  children_text (text_node t cs) = t
  children_text (other_node cs) = children_text cs

abbrev pub store : Text → Text → Text → Children → Children → Cell
store [] [] str old new = cell [] str new
store [] (k ∷ kept) str old new = cell [] (k ∷ kept) old
store (c ∷ s) kept str old new = cell (c ∷ s) kept old

-- The element afterwards: the attribute is set where the text had to be looked for.
unfoldable mutual
  unfolding inner_text

  pub after_inner_text : Cell → Cell
  after_inner_text (cell inner kept cs) = store inner kept (children_text cs) cs (after_children cs)

  pub after_children : Children → Children
  after_children last = last
  after_children (element c cs) = element (after_inner_text c) cs
  after_children (text_node t cs) = text_node t cs
  after_children (other_node cs) = other_node (after_children cs)

keep_text : (str s : Text) → s ≡ str → or_text str s ≡ str
keep_text [] s e = e
keep_text (c ∷ t) s e = refl

store_text :
    (inner kept : Text) (old new : Children)
    → children_text new ≡ children_text old
    → inner_text (store inner kept (children_text old) old new) ≡ inner_text (cell inner kept old)
unfolding inner_text
store_text [] [] old new e = keep_text (children_text old) (children_text new) e
store_text [] (k ∷ kept) old new e = refl
store_text (c ∷ s) kept old new e = refl

mutual
  unfolding inner_text after_inner_text

  inner_text_again : (c : Cell) → inner_text (after_inner_text c) ≡ inner_text c
  inner_text_again (cell inner kept cs) =
      store_text inner kept cs (after_children cs) (children_text_again cs)

  children_text_again : (cs : Children) → children_text (after_children cs) ≡ children_text cs
  children_text_again last = refl
  children_text_again (element c cs) = inner_text_again c
  children_text_again (text_node t cs) = refl
  children_text_again (other_node cs) = children_text_again cs

-- A cell without `innerText` whose contents are replaced by others.
abbrev pub set_children : Children → Cell → Cell
set_children new (cell inner kept cs) = cell inner kept new

keep_children :
    (kept str : Text) (old new cs : Children)
    → or_text kept str ≢ []
    → inner_text (set_children cs (store [] kept str old new)) ≡ or_text kept str
unfolding inner_text
keep_children [] [] old new cs h = absurd (h refl)
keep_children [] (c ∷ str) old new cs h = refl
keep_children (k ∷ kept) str old new cs h = refl

-- A second call on the same contents gives the same text; and so does one after the contents were
-- replaced, whatever they are then: the attribute is never renewed. The browser has no `innerText` for
-- the cell, and the first call found a text.
pub inner_text-stale :
    (kept : Text) (cs later : Children)
    → inner_text (cell [] kept cs) ≢ []
    → (inner_text (after_inner_text (cell [] kept cs)) ≡ inner_text (cell [] kept cs))
      × (inner_text (set_children later (after_inner_text (cell [] kept cs)))
          ≡ inner_text (cell [] kept cs))
unfolding inner_text after_inner_text
inner_text-stale kept cs later h = (
  inner_text_again (cell [] kept cs),
  keep_children kept (children_text cs) cs (after_children cs) later h,
)
