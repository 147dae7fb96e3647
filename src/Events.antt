-- ===== src/Events.antt =====
-- webapps/admin/js/common.js: the handlers of an element's events. Elements and handlers are known by
-- their identities.
pub mod Guids
pub mod Found
pub mod Dispatch
pub mod Action
use java_study_project.Base.{ℕ, ◌+◌, ◌&&◌, Option, none, some, List, [], ◌∷◌, ◌==◌, if◌then◌else◌}
use java_study_project.Text.{Text, eq_text}

-- What an element's `on` property holds: a handler, or `handleEvent`.
pub data Listener : Type 0 where
  own : ℕ → Listener
  handle_event : Listener

-- `element.events[type]`: listeners by guid; an entry in front hides a later one with the same guid.
abbrev pub HandlerTable : Type 0
HandlerTable = List (ℕ × Listener)

-- `guid_of` is `$$guid` of a handler, 0 if it has none. `events` is `none` where no table was made.
pub record Page : Type 0 where
  pub next_guid : ℕ
  pub guid_of : ℕ → ℕ
  pub events : ℕ → Text → Option HandlerTable
  pub on : ℕ → Text → Option Listener

abbrev pub lookup : ℕ → HandlerTable → Option Listener
lookup guid [] = none
lookup guid ((g, l) ∷ rest) = if g == guid then some l else lookup guid rest

abbrev pub delete : ℕ → HandlerTable → HandlerTable
delete guid [] = []
delete guid ((g, l) ∷ rest) = if g == guid then delete guid rest else (g, l) ∷ delete guid rest

abbrev pub set_at {ℓ} : {A : Type ℓ} → ℕ → Text → A → (ℕ → Text → A) → ℕ → Text → A
set_at element kind new old e k = if e == element && eq_text k kind then new else old e k

unfoldable pub assign_guid : ℕ → Page → Page
assign_guid handler p =
    if p.guid_of handler == 0
    then record p {
      next_guid = p.next_guid + 1;
      guid_of = λ h. if h == handler then p.next_guid else p.guid_of h;
    }
    else p

-- The table that a first handler finds: the element's own handler has the guid 0.
abbrev pub existing : Option Listener → HandlerTable
existing none = []
existing (some l) = (0, l) ∷ []

abbrev pub table_of : Option HandlerTable → Option Listener → HandlerTable
table_of none on = existing on
table_of (some handlers) on = handlers

unfoldable pub add_event : ℕ → Text → ℕ → Page → Page
unfolding assign_guid
add_event element kind handler page =
    let p = assign_guid handler page in
    let handlers = table_of (p.events element kind) (p.on element kind) in
    record p {
      events = set_at element kind (some ((p.guid_of handler, own handler) ∷ handlers)) p.events;
      on = set_at element kind (some handle_event) p.on;
    }

abbrev pub delete_from : ℕ → Option HandlerTable → Option HandlerTable
delete_from guid none = none
delete_from guid (some handlers) = some (delete guid handlers)

-- A handler without a guid is in no table.
unfoldable pub remove_event : ℕ → Text → ℕ → Page → Page
remove_event element kind handler p = if p.guid_of handler == 0 then p else record p {
  events = set_at element kind (delete_from (p.guid_of handler) (p.events element kind)) p.events;
}

-- The handler that an element has for a kind of event under a guid.
abbrev pub find : ℕ → Option HandlerTable → Option Listener
find guid none = none
find guid (some handlers) = lookup guid handlers
