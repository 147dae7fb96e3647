-- ===== src/Events/Action/Location.antt =====
-- Where `confirmAction` leads to.
use java_study_project.Base.{
  ℕ, suc, ◌<◌, ◌≡◌, ◌≢◌, refl, sym, ap, ◌∙◌, arith, Bool, true, false, if◌then◌else◌, some, [], ◌∷◌,
  ◌++◌, map, ◌==◌, take, length, get_elem?, append_assoc, append-nil, take-length_append,
}
use java_study_project.Text.{Text, codes, starts_with, Lacks}
use java_study_project.Events.Action.{
  Select, moved, declined, lower, is_target, expand, replace_target, confirm_action,
}

expand-Lacks :
    (before matched behind value : Text)
    → Lacks b'$' value
    → expand before matched behind false value ≡ value
unfolding expand
expand-Lacks before matched behind [] lacks = refl
expand-Lacks before matched behind (c ∷ value) (other, lacks) =
    let e : (c == b'$') ≡ false = ground arith in
    rw (e, expand-Lacks before matched behind value lacks)

is_target-other : (c : ℕ) (s : Text) → c ≢ b'%' → is_target (c ∷ s) ≡ false
is_target-other c s other = let e : (lower c == b'%') ≡ false = ground arith in rw e

replace_target-skip :
    (value before s t : Text)
    → replace_target value before (s ++ t) (length s) ≡ replace_target value (before ++ s) t 0
unfolding replace_target
replace_target-skip value before [] t = rw (append-nil before)
replace_target-skip value before (c ∷ s) t =
    replace_target-skip value (before ++ c ∷ []) s t
    ∙ ap (λ b. replace_target value b t 0) (append_assoc before (c ∷ []) s)

replace_target-Lacks : (value before s : Text) → Lacks b'%' s → replace_target value before s 0 ≡ s
unfolding replace_target
replace_target-Lacks value before [] lacks = refl
replace_target-Lacks value before (c ∷ s) (other, lacks) =
    rw (is_target-other c s other, replace_target-Lacks value (before ++ c ∷ []) s lacks)

-- `%target%` in whatever case.
abbrev pub IsTarget : Text → Type 0
IsTarget t = map lower t ≡ codes "%target%"

replace_target-append :
    (value before front target behind : Text)
    → Lacks b'%' front
    → replace_target value before (front ++ (target ++ behind)) 0
      ≡ front ++ replace_target value (before ++ front) (target ++ behind) 0
unfolding replace_target
replace_target-append value before [] target behind lacks = rw (append-nil before)
replace_target-append value before (c ∷ front) target behind (other, lacks) =
    rw (is_target-other c _ other) (
      ap (◌∷◌ c) (
        replace_target-append value (before ++ c ∷ []) front target behind lacks
        ∙ ap (λ b. front ++ replace_target value b (target ++ behind) 0)
            (append_assoc before (c ∷ []) front)))

length-IsTarget : (t : Text) → IsTarget t → length t ≡ 8
length-IsTarget t e = sym (length-map t) ∙ ap length e
  where
    length-map : (t : Text) → length (map lower t) ≡ length t
    length-map [] = refl
    length-map (c ∷ t) = ap suc (length-map t)

is_target-IsTarget : (t behind : Text) → IsTarget t → is_target (t ++ behind) ≡ true
is_target-IsTarget t behind e =
    let cut : take 8 (t ++ behind) ≡ t =
      ap (λ n. take n (t ++ behind)) (sym (length-IsTarget t e)) ∙ take-length_append t behind in
    ap (λ u. starts_with (codes "%target%") (map lower u)) cut
    ∙ ap (starts_with (codes "%target%")) e

replace_target-IsTarget :
    (value before target behind : Text)
    → Lacks b'$' value
    → IsTarget target
    → Lacks b'%' behind
    → replace_target value before (target ++ behind) 0 ≡ value ++ behind
unfolding replace_target
replace_target-IsTarget value before [] behind plain e lacks = cc
replace_target-IsTarget value before (c ∷ t) behind plain e lacks =
    let long = length-IsTarget (c ∷ t) e in
    let count : 7 ≡ length t = omega (arith, long) in
    rw (
      is_target-IsTarget (c ∷ t) behind e,
      expand-Lacks before _ _ value plain,
      count,
      replace_target-skip value _ t behind,
      replace_target-Lacks value _ behind lacks,
    )

-- Whatever the case in which `%target%` is spelled, the page moves to the url with the chosen value in
-- its place if the question is answered with yes, and only then. The url holds no other %, the value no
-- $, and an option other than the first is chosen.
pub confirm_action-moved :
    (select : Select) (i : ℕ) (value front target behind : Text) (confirmed : Bool)
    → select.selected_index ≡ some i
    → 0 < i
    → get_elem? select.options i ≡ some value
    → Lacks b'$' value
    → Lacks b'%' front
    → IsTarget target
    → Lacks b'%' behind
    → confirm_action (some select) (front ++ (target ++ behind)) confirmed
      ≡ (if confirmed then moved (front ++ (value ++ behind)) else declined)
unfolding confirm_action
confirm_action-moved select i value front target behind false index later chosen plain before_it e
      after_it =
    let other : (i == 0) ≡ false = ground arith in rw (index, other, chosen) refl
confirm_action-moved select i value front target behind true index later chosen plain before_it e
      after_it =
    let other : (i == 0) ≡ false = ground arith in
    rw (index, other, chosen)
      (ap moved (
        replace_target-append value [] front target behind before_it
        ∙ ap (λ s. front ++ s)
            (replace_target-IsTarget value front target behind plain e after_it)))
