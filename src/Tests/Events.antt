-- ===== src/Tests/Events.antt =====
-- Adding and removing handlers of events, `webapps/admin/js/common.js`.
use java_study_project.Base.{◌≡◌, arith, none, some, [], ◌∷◌, ◌==◌, if◌then◌else◌}
use java_study_project.Text.{codes}
use java_study_project.Events.{Page, own, handle_event, find, add_event}
use java_study_project.Events.Guids.{IsUnique, IsAdded}
use java_study_project.Events.Found.{add_event-found}

-- The handlers 7 and 9 are there for every event.
abbrev pub page : Page
page = record {
  next_guid = 3;
  guid_of = λ h. if h == 7 then 1 else if h == 9 then 2 else 0;
  events = λ element kind. some ((2, own 9) ∷ (1, own 7) ∷ []);
  on = λ element kind. some handle_event;
}

pub page-IsUnique : IsUnique page
page-IsUnique = record {
  counts = omega arith;
  below = λ h. ground arith;
  apart = λ h k n s. ground arith;
}

-- An element without a table, with a handler of its own.
abbrev fresh_page : Page
fresh_page = record page { events = λ element kind. none; on = λ element kind. some (own 4) }

fresh_page-IsUnique : IsUnique fresh_page
fresh_page-IsUnique = record {
  counts = page-IsUnique.counts;
  below = page-IsUnique.below;
  apart = page-IsUnique.apart;
}

add_event-found_example :
    let after = add_event 0 (codes "click") 5 fresh_page in
    IsUnique after
    × IsAdded 0 (codes "click") 5 after
    × (after.guid_of 9 ≡ 2)
    × (after.on 0 (codes "click") ≡ some handle_event)
    × (find 0 (after.events 0 (codes "click")) ≡ some (own 4))
unfolding add_event
add_event-found_example = add_event-found 0 (codes "click") 5 9 0 fresh_page fresh_page-IsUnique
