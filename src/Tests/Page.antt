-- ===== src/Tests/Page.antt =====
-- A walk through a page of two elements, `webapps/admin/js/prettify.js`.
use java_study_project.Base.{
  ℕ, ◌*◌, ◌+◌, ◌≤◌, ◌≡◌, refl, arith, true, some, [], ◌∷◌, ◌==◌, if◌then◌else◌,
}
use java_study_project.Text.{Text, codes, eq_text}
use java_study_project.Prettify.Dom.{no_more}
use java_study_project.Prettify.Page.{
  Browser, do_work, next_work, rewrite_element, visit, pretty_print,
}
use java_study_project.Prettify.Document.{Document, visited, has_prettyprint, strip_newline}
use java_study_project.Prettify.Page.Batches.{visit_all, IsWalkOf, pretty_print-IsWalkOf}
use java_study_project.Prettify.Page.Ending.{outcome, pretty_print-visit_all}
use java_study_project.Prettify.Page.Interleaving.{Reached, begun, call, script, Reached-calls}
use java_study_project.Prettify.Page.Nested.{visit-rewrite_element}
use java_study_project.Tests.Lexer.{handlers}

-- The html of the elements by their numbers; the second stands in the first.
abbrev Html : Type 0
Html = ℕ → Text

abbrev document : Document Html ℕ
document = record {
  get_elements_by_tag_name = λ name d. if eq_text name (codes "code") then 0 ∷ 1 ∷ [] else [];
  descendants_by_tag_name = λ e name d. [];
  class_name = λ e d. codes "prettyprint lang-inner";
  tag_name = λ e d. codes "CODE";
  ancestors = λ e d. if e == 1 then 0 ∷ [] else [];
  attributes = λ e d. [];
  inner_html = λ e d. d e;
  children = λ e d. no_more;
  set_inner_html = λ e html d. λ other. if other == e then html else d other;
  create_element = λ name d. (2, d);
  create_text_node = λ text d. (2, d);
  set_class_name = λ e value d. d;
  set_attribute = λ e name value d. d;
  replace_child = λ new old d. some d;
}

abbrev same : Text → Text
same s = s

abbrev html : Html
html e = codes "axb\n"

-- A reading of the clock is 100 above the one before in a call.
abbrev browser : Browser Html ℕ
browser = record {
  handlers = handlers;
  fuel = 10;
  tab_width = 8;
  is_ie6 = true;
  inner_html_works = true;
  to_lower_case = same;
  document = document;
  should_use_continuation = true;
  clock = λ call reading. 1000 * call + 100 * reading;
}

pretty_print-IsWalkOf_example :
    IsWalkOf browser
      (visit_all browser (0 ∷ 1 ∷ []) html)
      (0 ∷ 1 ∷ [])
      (pretty_print browser 1 html)
pretty_print-IsWalkOf_example = pretty_print-IsWalkOf browser 1 html

pretty_print-visit_all_example :
    outcome (pretty_print browser 3 html) ≡ some (visit_all browser (0 ∷ 1 ∷ []) html)
pretty_print-visit_all_example =
    pretty_print-visit_all browser 3 html (λ on call. omega arith) (omega arith)

visit-rewrite_element_example : visit browser 1 html ≡ (
    if has_prettyprint (codes "prettyprint lang-inner")
    then rewrite_element browser 1 html
    else visited html)
visit-rewrite_element_example =
    visit-rewrite_element browser 1 html (λ p. (refl, (refl, (refl, (refl, tt)))))

-- No element is to be coloured, and a batch has time for one of them.
abbrev slow_browser : Browser Html ℕ
slow_browser = record browser {
  document = record document { class_name = λ e d. codes "plain" };
  clock = λ call reading. 200 * reading;
}

abbrev other_html : Html
other_html e = []

-- One call of `doWork`, behind which another script changes the page.
between_calls :
    Reached slow_browser (0 ∷ 1 ∷ []) html (record { k = 1; calls = 1; page = other_html })
unfolding do_work
between_calls =
    script (next_work slow_browser 0 1 html) other_html
      (call (record { k = 0; calls = 0; page = html }) 1 html begun refl refl)

Reached-calls_example : (1 ≤ 1) × (1 ≤ 2) × (2 ≤ 2)
Reached-calls_example =
    Reached-calls slow_browser (0 ∷ 1 ∷ []) html (record { k = 1; calls = 1; page = other_html })
      (λ on call. omega arith) between_calls

stripped : strip_newline (codes "a\n\r\n") ≡ codes "a\n"
unfolding strip_newline
stripped = refl
