-- ===== src/Inhibit/Tests.antt =====
-- Examples of inhibitions, with a logind that answers and one that refuses.
use xdg_desktop_portal_aegis.Prelude.{
  ℕ, ◌≡◌, refl, none, some, [], ◌∷◌, Text, codes, Map, Result, ok, err, arith, lookup, text_eq,
  utf8_len, join,
}
use xdg_desktop_portal_aegis.Runtime.Tracker.{occupied}
use xdg_desktop_portal_aegis.Screencast.Options.{Variant, str}
use xdg_desktop_portal_aegis.Inhibit.Registry.{
  InhibitError, object_active, Portal, idle_portal, apply_inhibit, parse_reason, logind_what,
  record_inhibit, settle_request, add_request, live,
}
use xdg_desktop_portal_aegis.Inhibit.Served.{inhibit, export_request}
use xdg_desktop_portal_aegis.Inhibit.RegistryLaws.{IsAccounted}
use xdg_desktop_portal_aegis.Inhibit.Histories.{Reaches, here, next, begins, Reaches-IsAccounted}
use xdg_desktop_portal_aegis.Inhibit.ServedLaws.{inhibit_failed}

abbrev grants : Text → Text → Text → Text → Result InhibitError ℕ
grants what who why mode = ok 7

abbrev player : Text
player = codes "org.example.Player"

abbrev first_path : Text
first_path = codes "/r/1"

abbrev watching : Portal
watching = (apply_inhibit grants first_path player 9 none idle_portal).1

watching_run : Reaches idle_portal watching
watching_run = next here (begins grants first_path player 9 none)

Reaches-IsAccounted_example : IsAccounted watching
Reaches-IsAccounted_example = Reaches-IsAccounted watching_run

abbrev reasons : Map Variant
reasons = (codes "reason", str (codes "Playing")) ∷ []

taken_twice :
    (inhibit grants occupied first_path player 9 reasons idle_portal).0
    ≡ err (object_active first_path)
unfolding inhibit parse_reason lookup text_eq utf8_len apply_inhibit logind_what join record_inhibit
    settle_request add_request live export_request
taken_twice = refl

inhibit_failed_example :
    (inhibit grants occupied first_path player 9 reasons idle_portal).1 ≡ idle_portal
inhibit_failed_example =
    inhibit_failed grants occupied first_path player 9 reasons idle_portal
      (object_active first_path) (λ message. λ e. ground arith) taken_twice

reason_read : parse_reason reasons ≡ ok (some (codes "Playing"))
unfolding parse_reason lookup text_eq utf8_len
reason_read = refl

granted :
    apply_inhibit grants first_path player 9 (some (codes "Playing")) idle_portal
    ≡ (ok tt, watching)
unfolding apply_inhibit logind_what join record_inhibit settle_request add_request lookup live
granted = refl

abbrev bus_down : Text
bus_down = codes "bus is gone"
