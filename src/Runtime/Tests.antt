-- ===== src/Runtime/Tests.antt =====
-- Examples of requests that are served, closed and finished.
use xdg_desktop_portal_aegis.Prelude.{List, [], ◌∷◌, ◌≡◌, ◌⊎◌, refl, Text, codes, IsErr}
use xdg_desktop_portal_aegis.Runtime.Tracker.{
  no_requests, exported, activated, closing, forgotten, Event, run_events, replied, response_of,
  dispatch,
}
use xdg_desktop_portal_aegis.Runtime.TrackerLaws.{
  phase, idle, advance_all, run_events-advance_all, dispatch-idle,
}

abbrev first_request : Text
first_request = codes "/r/1"

abbrev second_request : Text
second_request = codes "/r/2"

abbrev busy : List Event
busy =
    activated first_request
    ∷ activated second_request
    ∷ closing first_request
    ∷ forgotten second_request
    ∷ closing second_request
    ∷ []

run_events-advance_all_example :
    phase (run_events busy no_requests) first_request ≡ advance_all first_request busy idle
run_events-advance_all_example = run_events-advance_all busy first_request

dispatch-idle_example :
    ((exported ≡ exported)
      × ((dispatch exported busy (replied 0) first_request no_requests).0 ≡ response_of (replied 0))
      × (phase (dispatch exported busy (replied 0) first_request no_requests).1 first_request
          ≡ idle))
    ⊎ ((IsErr (dispatch exported busy (replied 0) first_request no_requests).0)
        × ((dispatch exported busy (replied 0) first_request no_requests).1 ≡ no_requests))
dispatch-idle_example = dispatch-idle exported busy (replied 0) first_request no_requests

nothing_served : phase no_requests first_request ≡ idle
unfolding phase
nothing_served = refl
