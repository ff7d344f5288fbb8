-- ===== src/Screencast/Tests.antt =====
-- Runs of the source selection and of a start, and their theorems at concrete inputs.
use xdg_desktop_portal_aegis.Prelude.{
  pos, negsuc, ◌≡◌, ◌⊎◌, refl, true, false, none, some, [], ◌∷◌, Text, codes, text_eq,
  is_whitespace, trim_start, trim_end, utf8_len, lookup, adjust, ok, err, arith,
}
use xdg_desktop_portal_aegis.Prompter.Choices.{validate_prompt_text}
use xdg_desktop_portal_aegis.Prompter.Source.{
  ChooseSourceResponse, selected, validate_sources, validate_for,
}
use xdg_desktop_portal_aegis.Prompter.Source
use xdg_desktop_portal_aegis.Screencast.Options.{
  SelectOptions, str, parse_select_options, validate_select, IsServable, validate_select_iff,
}
use xdg_desktop_portal_aegis.Screencast.Select.{
  Outside, World, answered, pick_cancelled, confirmed, confirm_cancelled, Refusal,
  enumerate_outputs, mark_selected, choices_for, choose_source, confirm_code, resolve_source,
  settle_source, choose_among, ask_source, try_restore, select_interactively, select_sources,
}
use xdg_desktop_portal_aegis.Screencast.Consent.{Arms, select_sources-Arms, select_sources_refused}
use xdg_desktop_portal_aegis.Screencast.Start.{
  Started, started, failed, handle, finish_start, start_results, finish_start_owned,
  finish_start_released,
}
use xdg_desktop_portal_aegis.Session.Registry.{
  monitor, CastSession, SessionRegistry, fresh_session, arm, set_starting, install, selection_of,
  mark_sources_selected, mark_started, clear_start, dropped, joined,
}

abbrev app : Text
app = codes "org.obs"

abbrev path : Text
path = codes "/s"

abbrev waiting : World
waiting = record {
  sessions = record { sessions = (path, fresh_session app) ∷ [] };
  store = record { data_dir = none; disk = []; memory = [] };
  writes = [];
}

-- Protocol 29, no outputs enumerated, the chooser answers "desktop", the compositor confirms.
abbrev consenting : Outside
consenting = record {
  closed_at_entry = false;
  protocol_version = some 29;
  outputs_for_restore = none;
  outputs_for_choice = none;
  chooser = answered (selected (codes "desktop") false);
  closed_in_chooser = false;
  closed_after_choice = false;
  window_pick = pick_cancelled;
  confirm = confirmed;
  closed_after_confirm = false;
  closed_at_mark = false;
  token = codes "00";
}

-- A client that accepts windows alone.
abbrev windows_only : SelectOptions
windows_only = record { source_types = 2; cursor_mode = 1; persist_mode = 0; restore_token = none }

abbrev armed_session : CastSession
armed_session = arm (monitor none) 1 0 none (fresh_session app)

abbrev armed : World
armed = record waiting { sessions = record { sessions = (path, armed_session) ∷ [] } }

defaults :
    parse_select_options ((codes "types", str (codes "x")) ∷ [])
    ≡ record { source_types = 1; cursor_mode = 1; persist_mode = 0; restore_token = none }
unfolding parse_select_options lookup text_eq
defaults = refl

-- The chooser offers the desktop also to a client that accepts windows alone, and it is armed.
windows_only_run : select_sources consenting path app windows_only none waiting ≡ (0, armed)
unfolding select_sources validate_select try_restore select_interactively ask_source choose_among
    choices_for enumerate_outputs choose_source Source.validate validate_sources
    validate_prompt_text validate_for settle_source resolve_source confirm_code mark_selected
    mark_sources_selected lookup adjust text_eq is_whitespace trim_start trim_end utf8_len
windows_only_run = refl

select_sources-Arms_example : Arms consenting path app windows_only waiting armed
select_sources-Arms_example =
    select_sources-Arms consenting path app windows_only none waiting armed windows_only_run

abbrev declined : Outside
declined = record consenting { confirm = confirm_cancelled }

declined_run : (select_sources declined path app windows_only none waiting).0 ≡ 1
unfolding select_sources validate_select try_restore select_interactively ask_source choose_among
    choices_for enumerate_outputs choose_source Source.validate validate_sources
    validate_prompt_text validate_for settle_source resolve_source confirm_code mark_selected
    mark_sources_selected lookup adjust text_eq is_whitespace trim_start trim_end utf8_len
declined_run = refl

select_sources_refused_example :
    (select_sources declined path app windows_only none waiting).1.sessions ≡ waiting.sessions
select_sources_refused_example =
    select_sources_refused declined path app windows_only none waiting
      (λ e. ground (arith, declined_run))

validate_select_iff_example : IsServable 29 windows_only
validate_select_iff_example = (validate_select_iff windows_only 29).0 run
  where
    run : validate_select windows_only 29 ≡ ok tt
    run = unfold validate_select in refl

abbrev stream : Started
stream = record {
  node_id = 40;
  serial = 7;
  width = 640;
  height = 480;
  position = (pos 0, negsuc 9);
}

abbrev starting : SessionRegistry
starting = record { sessions = (path, set_starting true armed_session) ∷ [] }

finish_start_owned_example :
    let f = finish_start (handle 3 4 failed) false path (selection_of armed_session) starting in
    ((s : Started) × (t : CastSession) × (failed ≡ started s)
      × (f.response ≡ ok (start_results (selection_of armed_session) s))
      × (lookup path starting.sessions ≡ some t)
      × (lookup path f.registry.sessions ≡ some (install 3 4 t))
      × (f.torn_down ≡ []))
    ⊎ ((e : Refusal) × (f.response ≡ err e)
        × (f.torn_down ≡ dropped 3 ∷ joined 4 ∷ [])
        × ((f.registry ≡ starting) ⊎ (f.registry ≡ clear_start path starting)))
finish_start_owned_example =
    finish_start_owned 3 4 failed false path (selection_of armed_session) starting

started_session :
    lookup path
      (finish_start
        (handle 3 4 (started stream))
        false
        path
        (selection_of armed_session)
        starting).registry.sessions
    ≡ some (install 3 4 armed_session)
unfolding finish_start mark_started lookup adjust text_eq
started_session = refl

finish_start_released_example : (install 3 4 armed_session).starting ≡ false
finish_start_released_example =
    finish_start_released (handle 3 4 (started stream)) false path (selection_of armed_session)
      starting (install 3 4 armed_session) started_session
