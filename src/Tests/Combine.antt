-- ===== src/Tests/Combine.antt =====
-- Patterns that become one, `webapps/admin/js/prettify.js`.
use java_study_project.Base.{
  List, ◌++◌, arith, ◌+◌, ◌≡◌, refl, [], ◌∷◌, some, true, false, not, ◌&&◌,
}
use java_study_project.Text.{Text, codes}
use java_study_project.Prettify.RegExp.{reg_exp, reg_exp_i}
use java_study_project.Prettify.Combine.{
  case_flags, has_number, renumber, rank_of, captured, next_index, rewritten_parts,
  combine_prefix_patterns,
}
use java_study_project.Prettify.Combine.Groups.{opens, opens-rewritten_parts}
use java_study_project.Prettify.Combine.References.{renumber-back_reference}
use java_study_project.Prettify.Combine.Flags.{any_sensitive, any_insensitive, case_flags-any}

opens-rewritten_parts_example :
    (2 + opens (rewritten_parts 2 (codes "(" ∷ codes "a" ∷ codes ")" ∷ codes "\\1" ∷ []))
      ≡ next_index 2 (codes "(" ∷ codes "a" ∷ codes ")" ∷ codes "\\1" ∷ []))
    × (captured 0 (codes "(" ∷ codes "a" ∷ codes ")" ∷ codes "\\1" ∷ []) ≡ []
        → opens (rewritten_parts 2 (codes "(" ∷ codes "a" ∷ codes ")" ∷ codes "\\1" ∷ [])) ≡ 0)
opens-rewritten_parts_example =
    opens-rewritten_parts 2 (codes "(" ∷ codes "a" ∷ codes ")" ∷ codes "\\1" ∷ [])

case_flags-any_example :
    case_flags (reg_exp_i (codes "a") ∷ reg_exp (codes "\\x41b") ∷ []) false ≡ (
      any_sensitive (reg_exp_i (codes "a") ∷ reg_exp (codes "\\x41b") ∷ []),
      not (any_sensitive (reg_exp_i (codes "a") ∷ reg_exp (codes "\\x41b") ∷ []))
          && any_insensitive (reg_exp_i (codes "a") ∷ reg_exp (codes "\\x41b") ∷ []),
    )
case_flags-any_example = case_flags-any (reg_exp_i (codes "a") ∷ reg_exp (codes "\\x41b") ∷ [])

abbrev quoted : List Text
quoted = codes "a" ∷ codes "(" ∷ codes "['\"]" ∷ codes ")" ∷ []

renumber-back_reference_example :
    (has_number 1 (captured 0 (quoted ++ codes "\\1" ∷ [])) ≡ true)
    × (renumber 2 (captured 0 (quoted ++ codes "\\1" ∷ [])) 0 (quoted ++ codes "\\1" ∷ [])
        ≡ quoted ++ codes "\\3" ∷ [])
unfolding opens captured renumber rank_of
renumber-back_reference_example =
    renumber-back_reference 2 quoted [] (codes "\\1") refl (omega arith)

-- The second group is not captured, but the number of it, and not that of the first, is looked up.
lost_reference :
    combine_prefix_patterns (reg_exp (codes "(a)(b)\\1") ∷ [])
    ≡ some (record (reg_exp (codes "(?:(a)(?:b)\\undefined)")) { global = true })
unfolding combine_prefix_patterns
lost_reference = refl

two_patterns :
    combine_prefix_patterns (reg_exp (codes "^a") ∷ reg_exp_i (codes "b") ∷ [])
    ≡ some (record (reg_exp (codes "(?:a)|(?:[Bb])")) { global = true })
unfolding combine_prefix_patterns
two_patterns = refl
