-- ===== src/Tests/Tabs.antt =====
-- Expanding tabs, `webapps/admin/js/prettify.js`.
use mathlib.Core.List.{flatten}
use java_study_project.Base.{◌≡◌, refl}
use java_study_project.Text.{codes}
use java_study_project.Prettify.Tabs.{tab_expander}
use java_study_project.Prettify.Tabs.Laws.{expanded, column_after, tab_expander_lem}

tab_expander_example :
    tab_expander 8 3 (codes "a\tb\n\tc")
    ≡ (expanded 8 3 (codes "a\tb\n\tc"), column_after 8 3 (codes "a\tb\n\tc"))
tab_expander_example = tab_expander_lem 8 3 (codes "a\tb\n\tc")

two_tabs : tab_expander 8 0 (codes "ab\tc\t") ≡ (codes "ab      c       ", 16)
unfolding tab_expander flatten
two_tabs = refl
