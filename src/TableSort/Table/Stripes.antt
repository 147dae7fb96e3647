-- ===== src/TableSort/Table/Stripes.antt =====
-- The classes that `moveRows` gives the rows.
use java_study_project.Base.{ℕ, zero, suc, Bool, not, if◌then◌else◌}
use java_study_project.Text.{codes}
use java_study_project.Css.{Element, add_class_to_element, remove_class_from_element}

-- Whether a row gets the class, by its index and whether the first one does.
unfoldable pub alternates : Bool → ℕ → Bool
alternates first zero = first
alternates first (suc k) = alternates (not first) k

abbrev pub striped : Bool → Element → Element
striped odd el =
    if odd
    then add_class_to_element el (codes "odd")
    else remove_class_from_element el (codes "odd")
