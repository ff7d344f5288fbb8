-- ===== src/Notification/Tests.antt =====
-- Examples of notifications, and of runs of the daemon manager.
use xdg_desktop_portal_aegis.Prelude.{
  Bool, true, false, none, some, [], ◌∷◌, ◌≡◌, ◌↔◌, refl, Map, Text, codes, arith, leb, ok, ◌<◌,
  utf8_len, is_control, lookup, insert, text_eq, trim_end, trim_start, is_whitespace,
}
use xdg_desktop_portal_aegis.Notification.Parse.{
  Value, str, dicts, Notification, normal, parse_notification, valid_id, parse_body, strip_markup,
  parse_priority, parse_buttons, apply_hints,
}
use xdg_desktop_portal_aegis.Notification.Wire.{validate}
use xdg_desktop_portal_aegis.Notification.ParseLaws.{LabelsFit, parse_notification-validate}
use xdg_desktop_portal_aegis.Notification.Live.{Live, track, tracked, total}
use xdg_desktop_portal_aegis.Notification.LiveLaws.{IsWithinCaps}
use xdg_desktop_portal_aegis.Notification.Daemon.{
  NotifyCommand, notify_card, close_card, Manager, World, waits, spawns, writes, still_running,
  ensure_daemon, notify, close, ◌>>=◌, send, send_with, send_once, deliver, pure, get, modify,
  ask_wait, ask_spawn, write_frame, notice_death,
}
use xdg_desktop_portal_aegis.Notification.Runs.{at_start, notified, Reaches-IsWithinCaps}
use xdg_desktop_portal_aegis.Notification.Respawn.{
  crashes, idle, ran_out, ensure_daemon_respawns, notify-close,
}

abbrev player : Text
player = codes "org.example.Player"

abbrev card : Notification
card = record {
  app_id = player;
  id = codes "track";
  title = codes "Now playing";
  body = codes "A song";
  priority = normal;
  default_action = none;
  buttons = record { action = codes "next"; label = codes "Next" } ∷ [];
  expire_hint = some 10;
}

abbrev wire : Map Value
wire =
    (codes "title", str (codes "Now playing"))
    ∷ (codes "markup-body", str (codes "<b>A</b> song"))
    ∷ (
      codes "buttons",
      dicts (((codes "action", codes "next") ∷ (codes "label", codes "Next") ∷ []) ∷ []),
    )
    ∷ []

parsed : parse_notification player (codes "track") wire ≡ ok card
unfolding parse_notification valid_id parse_body strip_markup parse_priority parse_buttons
    apply_hints utf8_len is_control lookup text_eq trim_end trim_start is_whitespace
parsed = refl

parse_notification-validate_example : (validate card ≡ ok tt) ↔ LabelsFit card.buttons
parse_notification-validate_example =
    parse_notification-validate player (codes "track") wire card parsed

abbrev allow : NotifyCommand → Bool
allow c = true

abbrev shown : Manager
shown = record {
  running = true;
  live = (player, codes "other" ∷ []) ∷ [];
  appearance = none;
  delivered = [];
}

abbrev fresh : Manager
fresh = record { running = false; live = []; appearance = none; delivered = [] }

abbrev first_run : World
first_run = record { manager = fresh; script = spawns true ∷ writes true ∷ [] }

abbrev first_shown : World
first_shown = record {
  manager = record {
    running = true;
    live = (player, codes "track" ∷ []) ∷ [];
    appearance = none;
    delivered = notify_card card ∷ [];
  };
  script = [];
}

first_notified : notify allow 1 card first_run ≡ some (tt, first_shown)
unfolding notify deliver send ensure_daemon send_with send_once ◌>>=◌ pure get modify ask_wait
    ask_spawn write_frame notice_death track total lookup insert text_eq
first_notified = refl

Reaches-IsWithinCaps_example : IsWithinCaps first_shown.manager.live
Reaches-IsWithinCaps_example =
    Reaches-IsWithinCaps {encodes = allow}
      (notified 1 card first_run first_shown (at_start fresh refl) first_notified)

few_shown : total shown.live < 256
unfolding total
few_shown = omega arith

none_evicted : (track player (codes "track") shown.live).1 ≡ none
unfolding track lookup text_eq
none_evicted = refl

not_shown : tracked player (codes "track") shown.live ≡ false
unfolding lookup text_eq
not_shown = refl

ensure_daemon_respawns_example :
    ensure_daemon allow 4 (record { manager = idle 7; script = crashes 3 })
    ≡ some (leb 1 3, ran_out 7)
ensure_daemon_respawns_example = ensure_daemon_respawns allow 3 3 7 refl (omega arith)

notify-close_example :
    (book : Live) × ((notify allow 1 card >>= λ _. close allow player (codes "track"))
        (record { manager = shown; script = waits still_running ∷ writes true ∷ writes true ∷ [] })
      ≡ some (
        tt,
        record {
          manager = record shown {
            live = book;
            delivered = notify_card card ∷ close_card player (codes "track") ∷ [];
          };
          script = [];
        },
      ))
    × (tracked player (codes "track") book ≡ false)
notify-close_example =
    notify-close allow 0 card shown [] refl refl refl few_shown not_shown none_evicted
