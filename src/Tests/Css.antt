-- ===== src/Tests/Css.antt =====
-- Classes of elements, `webapps/admin/js/css.js`.
use java_study_project.Base.{◌≡◌, refl, [], ◌∷◌, ◌++◌}
use java_study_project.Text.{codes}
use java_study_project.Text.Split.{split}
use java_study_project.Css.{element_has_class, add_class_to_element, remove_class_from_element}
use java_study_project.Css.Classes.{remove_class-add_class}

remove_class-add_class_example :
    remove_class_from_element
      (add_class_to_element (record { class_name = codes "row" }) (codes "odd"))
      (codes "odd")
    ≡ record { class_name = codes "row" ++ b' ' ∷ [] }
remove_class-add_class_example =
    remove_class-add_class (record { class_name = codes "row" }) (codes "odd")
      (refl, (refl, (refl, tt))) (unfold element_has_class in refl) (unfold split in refl)
