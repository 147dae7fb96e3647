-- ===== src/Tests/Languages.antt =====
-- The decorators and handlers of the languages, `webapps/admin/js/prettify.js`.
use java_study_project.Base.{◌≡◌, ◌≢◌, refl, true, false, ◌++◌, none, some, []}
use java_study_project.Text.{Text, codes}
use java_study_project.Prettify.Lexer.{Handlers, registered, lang_handler_for_extension}
use java_study_project.Prettify.Simple.{Engine}
use java_study_project.Prettify.Keywords.{java_keywords}
use java_study_project.Prettify.Sources.{
  Options, trim_end, trim, bar_spaces, source_shortcuts, source_patterns, common_patterns,
}
use java_study_project.Prettify.Sources.Shortcuts.{
  has_no_repeat, shortcut_characters, source_decorator-shortcuts,
}
use java_study_project.Prettify.Languages.{registrations, registry}
use java_study_project.Prettify.Languages.Registered.{is_made, named_by, registry_total}

-- A browser whose expressions match nothing.
abbrev engine : Engine
engine = record { exec = λ r s. none; match_all = λ r s. [] }

registry_total_example :
    (hs : Handlers) × (registry engine ≡ some hs)
    × ((ext : Text) → is_made (registered ext hs) ≡ named_by ext registrations)
    × ((ext source : Text) → lang_handler_for_extension hs ext source ≢ none)
registry_total_example = registry_total engine

abbrev java : Options
java = record {
  keywords = java_keywords;
  hash_comments = true;
  c_style_comments = true;
  multi_line_strings = false;
  triple_quoted_strings = true;
  regex_literals = true;
}

source_decorator-shortcuts_example :
    has_no_repeat
      (shortcut_characters (source_shortcuts java ++ (source_patterns java ++ common_patterns)))
    ≡ true
source_decorator-shortcuts_example = source_decorator-shortcuts java

alternatives_of_two : bar_spaces false (trim (codes "if do ")) ≡ codes "if|do"
unfolding bar_spaces trim_end
alternatives_of_two = refl
