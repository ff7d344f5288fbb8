-- ===== src/Session/Tests.antt =====
-- Runs of the session registry, and its theorems at concrete registries.
use xdg_desktop_portal_aegis.Prelude.{
  ◌≡◌, ◌≢◌, refl, true, none, some, [], ◌∷◌, codes, Text, text_eq, lookup, insert, adjust, count_if,
  ok, err, arith,
}
use xdg_desktop_portal_aegis.Session.Registry.{
  monitor, CastSession, SessionRegistry, fresh_session, empty_registry, arm, set_starting, install,
  selection_of, insert_session, mark_sources_selected, reserve_start, mark_started, remove,
  stop_cast, dropped, joined, already_exists, not_selected,
}
use xdg_desktop_portal_aegis.Session.Limits.{
  inserts, selects, reserves, Reaches, here, next, IsBounded, Reaches-IsBounded,
}
use xdg_desktop_portal_aegis.Session.Lifecycle.{
  MayStart, Keeps, reserve_start_iff, select-reserve, start-remove,
}

abbrev path_1 : Text
path_1 = codes "/s/1"

abbrev path_2 : Text
path_2 = codes "/s/2"

abbrev app : Text
app = codes "org.example.App"

abbrev other_app : Text
other_app = codes "org.example.Other"

abbrev one_session : SessionRegistry
one_session = record { sessions = (path_1, fresh_session app) ∷ [] }

abbrev armed_session : CastSession
armed_session = arm (monitor none) 1 0 none (fresh_session app)

abbrev armed : SessionRegistry
armed = record { sessions = (path_1, armed_session) ∷ [] }

abbrev reserved : SessionRegistry
reserved = record { sessions = (path_1, set_starting true armed_session) ∷ [] }

-- `duplicate_session_paths_are_refused`.
insert_twice : insert_session path_1 app one_session ≡ err already_exists
unfolding insert_session lookup text_eq
insert_twice = refl

-- `start_requires_selected_sources_and_single_use`.
start_unselected : reserve_start path_1 app one_session ≡ err not_selected
unfolding reserve_start lookup text_eq
start_unselected = refl

insert_run : insert_session path_1 app empty_registry ≡ ok one_session
unfolding insert_session lookup insert
insert_run = refl

select_run : mark_sources_selected path_1 app (monitor none) 1 0 none one_session ≡ ok armed
unfolding mark_sources_selected lookup adjust text_eq
select_run = refl

reserve_run : reserve_start path_1 app armed ≡ ok (reserved, selection_of armed_session)
unfolding reserve_start lookup adjust text_eq count_if
reserve_run = refl

found_armed : lookup path_1 armed.sessions ≡ some armed_session
unfolding lookup text_eq
found_armed = refl

found_fresh : lookup path_1 one_session.sessions ≡ some (fresh_session app)
unfolding lookup text_eq
found_fresh = refl

history : Reaches empty_registry reserved
history =
    next
      (next (next here (inserts path_1 app insert_run))
        (selects path_1 app (monitor none) 1 0 none select_run))
      (reserves path_1 app (selection_of armed_session) reserve_run)

Reaches-IsBounded_example : IsBounded reserved
Reaches-IsBounded_example = Reaches-IsBounded history

reserve_start_iff_example :
    (s : CastSession) × MayStart path_1 app armed s
    × (selection_of armed_session ≡ selection_of s)
    × (reserved ≡ record { sessions = adjust path_1 (set_starting true) armed.sessions })
reserve_start_iff_example =
    (reserve_start_iff path_1 app armed reserved (selection_of armed_session)).0 reserve_run

apps_differ : armed_session.app_id ≢ other_app
apps_differ = ground arith

-- Another application's session comes in between, and a cast is installed there unreserved.
abbrev two_sessions : SessionRegistry
two_sessions = record {
  sessions = (path_1, armed_session) ∷ (path_2, fresh_session other_app) ∷ [];
}

abbrev installed : SessionRegistry
installed = record {
  sessions = (path_1, armed_session) ∷ (path_2, install 3 4 (fresh_session other_app)) ∷ [];
}

abbrev reserved_beside : SessionRegistry
reserved_beside = record {
  sessions =
      (path_1, set_starting true armed_session)
      ∷ (path_2, install 3 4 (fresh_session other_app))
      ∷ [];
}

insert_beside : insert_session path_2 other_app armed ≡ ok two_sessions
unfolding insert_session lookup insert text_eq
insert_beside = refl

install_beside : mark_started path_2 3 4 two_sessions ≡ ok installed
unfolding mark_started lookup adjust text_eq
install_beside = refl

found_beside : lookup path_1 two_sessions.sessions ≡ some armed_session
unfolding lookup text_eq
found_beside = refl

reserve_beside :
    reserve_start path_1 app installed ≡ ok (reserved_beside, selection_of armed_session)
unfolding reserve_start lookup adjust text_eq count_if
reserve_beside = refl

beside : Keeps path_1 armed installed
beside =
    Keeps.installs
      (Keeps.next Keeps.here (inserts path_2 other_app insert_beside)
        (λ s found gone. absurd (ground (arith, found_beside, gone))))
      path_2 3 4 install_beside

select-reserve_example : (selection_of armed_session ≡ selection_of armed_session) × (app ≡ app)
select-reserve_example =
    select-reserve path_1 app app (monitor none) 1 0 none one_session armed installed
      reserved_beside (selection_of armed_session) select_run beside reserve_beside

start-remove_example :
    (q : SessionRegistry) × (mark_started path_1 3 4 reserved ≡ ok q)
    × ((t : CastSession) × ((remove path_1 q).1 ≡ some t)
        × (stop_cast t ≡ dropped 3 ∷ joined 4 ∷ []))
    × (lookup path_1 (remove path_1 q).0.sessions ≡ none)
    × (mark_started path_1 5 6 (remove path_1 q).0 ≡ err (5, 6))
start-remove_example = start-remove path_1 3 4 5 6 (set_starting true armed_session) reserved found
  where
    found : lookup path_1 reserved.sessions ≡ some (set_starting true armed_session)
    found = unfold lookup text_eq in refl
