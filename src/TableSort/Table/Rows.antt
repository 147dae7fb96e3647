-- ===== src/TableSort/Table/Rows.antt =====
-- Where the rows stand after a click.

use java_study_project.Base.{
  ℕ, ◌+◌, ◌≤◌, ◌≡◌, refl, ap, ◌∙◌, arith, List, [], ◌∷◌, ◌++◌, append-nil, append_assoc, ◌==◌,
  if◌then◌else◌, inl, inr, Bool-cases,
}
use java_study_project.TableSort.Table.{State, without, do_stripe, move_loop}

-- How often a row is in a list.
unfoldable pub count : ℕ → List ℕ → ℕ
count row [] = 0
count row (r ∷ rs) = (if r == row then 1 else 0) + count row rs

abbrev pub IsDistinct : List ℕ → Type 0
IsDistinct rs = (row : ℕ) → count row rs ≤ 1

-- The rows of a body that are not in a list.
unfoldable pub others : List ℕ → List ℕ → List ℕ
others ids [] = []
others ids (r ∷ rs) = if count r ids == 0 then r ∷ others ids rs else others ids rs

others-nil : (body : List ℕ) → others [] body ≡ body
unfolding others count
others-nil [] = refl
others-nil (r ∷ rs) = ap (◌∷◌ r) (others-nil rs)

others-without :
    (row : ℕ) (ids body : List ℕ) → others ids (without row body) ≡ others (row ∷ ids) body
unfolding others count
others-without row ids [] = refl
others-without row ids (r ∷ rs) = ground (arith, others-without row ids rs)

others-append : (ids a b : List ℕ) → others ids (a ++ b) ≡ others ids a ++ others ids b
unfolding others
others-append ids [] b = refl
others-append ids (r ∷ rs) b = elim (Bool-cases (count r ids == 0)) [
  | inl e ↦ rw (e, others-append ids rs b)
  | inr e ↦ rw (e, others-append ids rs b)
]

pub IsDistinct-tail : (row : ℕ) (ids : List ℕ) → IsDistinct (row ∷ ids) → IsDistinct ids
unfolding count
IsDistinct-tail row ids d r = omega (arith, d r)

pub IsDistinct-head : (row : ℕ) (ids : List ℕ) → IsDistinct (row ∷ ids) → count row ids ≡ 0
unfolding count
IsDistinct-head row ids d = ground (arith, d row)

others-single : (row : ℕ) (ids : List ℕ) → count row ids ≡ 0 → others ids (row ∷ []) ≡ row ∷ []
unfolding others
others-single row ids h = rw h

-- The rows are moved behind the others, in the order of the list.
pub move_loop-body :
    (ids : List ℕ) (st : State)
    → IsDistinct ids
    → (move_loop ids st).table.body ≡ others ids st.table.body ++ ids
unfolding move_loop do_stripe
move_loop-body [] st d = rw (append-nil, others-nil)
move_loop-body (row ∷ ids) st d =
    move_loop-body ids _ (IsDistinct-tail row ids d)
    ∙ rw (
      others-append ids (without row st.table.body) (row ∷ []),
      others-without row ids st.table.body,
      others-single row ids (IsDistinct-head row ids d),
      append_assoc,
    )
