-- ===== src/Events/Dispatch.antt =====
-- `handleEvent` and the events of common.js: what is called when something happens to an element.
pub mod Calls
use java_study_project.Base.{
  ℕ, Bool, true, false, Option, none, some, List, [], ◌∷◌, ◌==◌, if◌then◌else◌,
}
use java_study_project.Text.{Text}
use java_study_project.Events.{Listener, HandlerTable, Page, find}

-- An event that a browser made: its own methods, or those of `fixEvent`, are there or are not.
pub record Event : Type 0 where
  pub kind : Text
  pub has_methods : Bool
  pub return_value : Bool
  pub cancel_bubble : Bool

unfoldable pub fix_event : Event → Event
fix_event event = record event { has_methods = true }

unfoldable pub prevent_default : Event → Event
prevent_default event = record event { return_value = false }

unfoldable pub stop_propagation : Event → Event
stop_propagation event = record event { cancel_bubble = true }

-- `event || fixEvent(window.event)`.
abbrev pub event_of : Option Event → Event → Event
event_of none window_event = fix_event window_event
event_of (some event) window_event = event

-- The state `S` of the world holds the page. A listener is called as a method of the element and gives
-- false, or anything else, which is `true` here; `keys` are those that `for in` goes through.
module _ {S : Type 0} (page : S → Page) (call : ℕ → Listener → Event → S → Bool × S)
    (keys : HandlerTable → List ℕ) where
  abbrev pub after_call : Bool → Bool × S → Bool × S
  after_call value (result, s) = (if result then value else false, s)

  -- A key that was deleted since the loop began is passed over.
  abbrev pub call_found : ℕ → Event → Option Listener → Bool × S → Bool × S
  call_found element event none (value, s) = (value, s)
  call_found element event (some l) (value, s) = after_call value (call element l event s)

  unfoldable pub handler_loop : ℕ → Event → List ℕ → Bool × S → Bool × S
  handler_loop element event [] (value, s) = (value, s)
  handler_loop element event (i ∷ is) (value, s) =
      handler_loop element event is
        (call_found element event (find i ((page s).events element event.kind)) (value, s))

  abbrev pub keys_of : Option HandlerTable → List ℕ
  keys_of none = []
  keys_of (some handlers) = keys handlers

  unfoldable pub handle_event_of : ℕ → Option Event → Event → S → Bool × S
  unfolding handler_loop fix_event
  handle_event_of element event window_event s =
      let e = event_of event window_event in
      handler_loop element e (keys_of ((page s).events element e.kind)) (true, s)

-- `createElement(element)`: `none` for a method that the document has not, and for false.
unfoldable pub create_element :
    {N : Type 0} → Option (Text → N) → Option (Text → N) → Text → Option N
create_element (some create_element_ns) create name = some (create_element_ns name)
create_element none (some create) name = some (create name)
create_element none none name = none

pub record Targets (N : Type 0) : Type 0 where
  pub target : Option N
  pub src_element : Option N

-- What a text node's parent or a node gives; `none` stands for a TypeError, and `null` is inside.
module _ {N : Type 0} (node_type : N → ℕ) (parent_node : N → Option N) where
  abbrev pub skip_text : Option N → Option (Option N)
  skip_text none = none
  skip_text (some targ) = if node_type targ == 3 then some (parent_node targ) else some (some targ)

  abbrev pub first_target : Option N → Option N → Option N
  first_target none src_element = src_element
  first_target (some target) src_element = some target

  abbrev pub target_of : Option (Targets N) → Option (Option N)
  target_of none = none
  target_of (some e) = skip_text (first_target e.target e.src_element)

  unfoldable pub get_event_target : Option (Targets N) → Option (Targets N) → Option (Option N)
  get_event_target none window_event = target_of window_event
  get_event_target (some e) window_event = target_of (some e)
