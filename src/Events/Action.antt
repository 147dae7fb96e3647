-- ===== src/Events/Action.antt =====
-- `confirmAction` of common.js: the page that a selection leads to.
pub mod Location
use java_study_project.Base.{
  ℕ, zero, suc, ◌+◌, Bool, true, false, ◌&&◌, Option, none, some, List, [], ◌∷◌, ◌++◌, map, leb,
  ◌==◌, if◌then◌else◌, take, drop, get_elem?,
}
use java_study_project.Text.{Text, codes, starts_with}

-- `selectedIndex`, which is `none` for -1, and the values of the options.
pub record Select : Type 0 where
  pub selected_index : Option ℕ
  pub options : List Text

-- A message, nothing, a new `location.href`, or a TypeError.
pub data Answer : Type 0 where
  please_select : Answer
  declined : Answer
  moved : Text → Answer
  threw : Answer

abbrev pub lower : ℕ → ℕ
lower c = if leb b'A' c && leb c b'Z' then c + 32 else c

abbrev pub is_target : Text → Bool
is_target s = starts_with (codes "%target%") (map lower (take 8 s))

-- A replacement for `matched`, which stands between `before` and `behind`: `$$`, `$&` and the two others
-- stand for texts. The test tells whether a `$` was passed.
unfoldable pub expand : Text → Text → Text → Bool → Text → Text
expand before matched behind true [] = b'$' ∷ []
expand before matched behind false [] = []
expand before matched behind true (c ∷ value) =
    let rest = expand before matched behind false value in
    if c == b'$'
    then b'$' ∷ rest
    else if c == b'&'
    then matched ++ rest
    else if c == b'`'
    then before ++ rest
    else if c == b'\''
    then behind ++ rest
    else b'$' ∷ c ∷ rest
expand before matched behind false (c ∷ value) =
    let dollar = expand before matched behind true value in
    let rest = expand before matched behind false value in if c == b'$' then dollar else c ∷ rest

-- `url.replace(/%target%/gi, value)` from behind `before` on; the number counts the characters of a match
-- that are still to be passed over.
unfoldable pub replace_target : Text → Text → Text → ℕ → Text
unfolding expand
replace_target value before [] skip = []
replace_target value before (c ∷ s) (suc skip) = replace_target value (before ++ c ∷ []) s skip
replace_target value before (c ∷ s) zero =
    let in_match = replace_target value (before ++ c ∷ []) s 7 in
    let rest = replace_target value (before ++ c ∷ []) s 0 in
    if is_target (c ∷ s)
    then expand before (take 8 (c ∷ s)) (drop 8 (c ∷ s)) false value ++ in_match
    else c ∷ rest

abbrev pub go_to : Text → Bool → Option Text → Answer
go_to url confirmed none = threw
go_to url confirmed (some value) =
    if confirmed then moved (replace_target value [] url 0) else declined

-- What `document.getElementById(id)` gives, the url, and the answer of `confirm`.
unfoldable pub confirm_action : Option Select → Text → Bool → Answer
unfolding replace_target
confirm_action none url confirmed = threw
confirm_action (some select) url confirmed = elim select.selected_index [
  | none ↦ threw
  | some i ↦ if i == 0 then please_select else go_to url confirmed (get_elem? select.options i)
]
