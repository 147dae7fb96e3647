-- ===== src/Events/Found.antt =====
-- What is found of an element's handlers after one was added, and after one was removed.
use mathlib.Core.Path.{ap₂}
use java_study_project.Base.{
  ℕ, ◌≡◌, refl, ◌∙◌, arith, Option, none, some, ◌==◌, if◌then◌else◌, inl, inr, Bool-cases,
}
use java_study_project.Text.{Text}
use java_study_project.Events.{
  Listener, own, handle_event, HandlerTable, Page, lookup, assign_guid, table_of, add_event, find,
}
use java_study_project.Events.Guids.{
  IsUnique, IsAdded, assign_guid-IsUnique, assign_guid-events, assign_guid-guid_of, set_at-own,
  add_event-own,
}

-- What an event found before a handler was added: in the table that there was, or else the element's
-- own handler.
abbrev found_before : ℕ → Option HandlerTable → Option Listener → Option Listener
found_before guid (some handlers) on = lookup guid handlers
found_before guid none none = none
found_before guid none (some l) = if guid == 0 then some l else none

table_of-found :
    (guid : ℕ) (handlers : Option HandlerTable) (on : Option Listener)
    → lookup guid (table_of handlers on) ≡ found_before guid handlers on
table_of-found guid (some handlers) on = refl
table_of-found guid none none = refl
table_of-found guid none (some l) = ground arith

assign_guid-on :
    (handler : ℕ) (p : Page) (element : ℕ) (kind : Text)
    → (assign_guid handler p).on element kind ≡ p.on element kind
unfolding assign_guid
assign_guid-on handler p element kind = elim (Bool-cases (p.guid_of handler == 0)) [
  | inl e ↦ rw e
  | inr e ↦ rw e
]

-- Adding a handler, the first one of an element or a later one, keeps the guids unique, puts
-- `handleEvent` in charge of the event and makes the handler found; under every other guid is found what
-- was found before, where an element without a table has its own handler under the guid 0. Every other
-- handler keeps its guid. The guids are unique before.
pub add_event-found :
    (element : ℕ) (kind : Text) (handler other guid : ℕ) (p : Page)
    → IsUnique p
    → let after = add_event element kind handler p in
      IsUnique after
      × IsAdded element kind handler after
      × (after.guid_of other
          ≡ (if other == handler then after.guid_of handler else p.guid_of other))
      × (after.on element kind ≡ some handle_event)
      × (find guid (after.events element kind) ≡ (
          if after.guid_of handler == guid
          then some (own handler)
          else found_before guid (p.events element kind) (p.on element kind)))
unfolding add_event
add_event-found element kind handler other guid p u =
    let q = assign_guid handler p in
    let unique = assign_guid-IsUnique handler p u in
    let before : lookup guid (table_of (q.events element kind) (q.on element kind))
        ≡ found_before guid (p.events element kind) (p.on element kind) =
      table_of-found guid (q.events element kind) (q.on element kind)
      ∙ ap₂ (found_before guid) (assign_guid-events handler p element kind)
          (assign_guid-on handler p element kind) in
    (
      record { counts = unique.counts; below = unique.below; apart = unique.apart },
      add_event-own element kind handler p u,
      assign_guid-guid_of handler other p,
      set_at-own element kind (some handle_event) q.on,
      rw (set_at-own element kind, before) refl,
    )
