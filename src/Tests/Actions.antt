-- ===== src/Tests/Actions.antt =====
-- Events and actions, `webapps/admin/js/common.js`.
use java_study_project.Base.{
  ℕ, ◌≡◌, refl, arith, Bool, true, false, some, List, [], ◌∷◌, ◌==◌, if◌then◌else◌,
}
use java_study_project.Text.{codes, Lacks}
use java_study_project.Events.{Listener, own, handle_event, HandlerTable, Page, add_event}
use java_study_project.Events.Dispatch.{Event, handle_event_of}
use java_study_project.Events.Action.{Select, moved, confirm_action}
use java_study_project.Events.Action.Location.{confirm_action-moved}
use java_study_project.Tests.Events.{page}

-- The page and the handlers that were called, the last one in front.
abbrev World : Type 0
World = Page × List ℕ

abbrev number : Listener → ℕ
number (own h) = h
number handle_event = 0

abbrev page_of : World → Page
page_of w = w.0

-- Handler 7 gives false.
abbrev call : ℕ → Listener → Event → World → Bool × World
call element l event (p, called) = (if number l == 7 then false else true, (p, number l ∷ called))

abbrev without : ℕ → List ℕ → List ℕ
without n [] = []
without n (m ∷ ms) = if m == n then without n ms else m ∷ without n ms

abbrev all_keys : HandlerTable → List ℕ
all_keys [] = []
all_keys ((g, l) ∷ handlers) = g ∷ without g (all_keys handlers)

abbrev click : Event
click = record {
  kind = codes "click";
  has_methods = false;
  return_value = true;
  cancel_bubble = false;
}

abbrev world : World
world = (add_event 0 (codes "click") 5 page, [])

-- A second handler that gives false does not keep the third from being called.
called : (handle_event_of page_of call all_keys 0 (some click) click world).0 ≡ false
unfolding handle_event_of add_event
called = refl

abbrev select : Select
select = record { selected_index = some 1; options = codes "" ∷ codes "queue" ∷ [] }

no_percent : Lacks b'%' (codes "go?")
no_percent = (omega arith, (omega arith, (omega arith, tt)))

no_dollar : Lacks b'$' (codes "queue")
no_dollar = (omega arith, (omega arith, (omega arith, (omega arith, (omega arith, tt)))))

confirm_action-moved_example :
    confirm_action (some select) (codes "go?%Target%") true ≡ moved (codes "go?queue")
confirm_action-moved_example =
    confirm_action-moved select 1 (codes "queue") (codes "go?") (codes "%Target%") [] true refl
      (omega arith) refl no_dollar no_percent refl tt

-- A value with two dollar signs loses one of them.
dollars :
    confirm_action
      (some (record { selected_index = some 1; options = codes "" ∷ codes "a$$b" ∷ [] }))
      (codes "go?%target%")
      true
    ≡ moved (codes "go?a$b")
unfolding confirm_action
dollars = refl
