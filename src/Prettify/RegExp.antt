-- ===== src/Prettify/RegExp.antt =====
-- Regular expressions as the scripts hold them: the source text and the flags.
use java_study_project.Base.{Bool, true, false, [], ◌++◌, if◌then◌else◌}
use java_study_project.Text.{Text, codes}

pub record RegExp : Type 0 where
  pub source : Text
  pub ignore_case : Bool
  pub global : Bool
  pub multiline : Bool

-- A literal without flags.
abbrev pub reg_exp : Text → RegExp
reg_exp source = record { source = source; ignore_case = false; global = false; multiline = false }

-- A literal with the flag `i`.
abbrev pub reg_exp_i : Text → RegExp
reg_exp_i source = record { source = source; ignore_case = true; global = false; multiline = false }

-- `'' + regex`.
abbrev pub regexp_text : RegExp → Text
regexp_text r =
    codes "/"
    ++ (r.source
        ++ (codes "/"
            ++ ((if r.global then codes "g" else [])
                ++ ((if r.ignore_case then codes "i" else [])
                    ++ (if r.multiline then codes "m" else [])))))
