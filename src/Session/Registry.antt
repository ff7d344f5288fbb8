-- ===== src/Session/Registry.antt =====
-- session.rs: `CastSource`, `StartSelection`, `CastSession` and the methods of `SessionRegistry`.
use xdg_desktop_portal_aegis.Prelude.{
  ℕ, Bool, true, false, not, ◌||◌, Option, none, some, List, [], ◌∷◌, ◌++◌, Text, text_eq, leb,
  if◌then◌else◌, is_some, length, Map, lookup, insert, erase, adjust, count_if, contains_key,
  Result, ok, err, refuse_if, ok_or, ◌>>=◌, ◌>>◌,
}

abbrev pub max_sessions : ℕ
max_sessions = 128

abbrev pub max_live_casts : ℕ
max_live_casts = 16

-- `monitor none` captures the whole desktop.
pub data CastSource : Type 0 where
  monitor : Option Text → CastSource
  window : ℕ → CastSource

pub record StartSelection : Type 0 where
  pub source : CastSource
  pub cursor_mode : ℕ
  pub requested_persist_mode : ℕ
  pub persist_grant : Option (ℕ × Text)

pub record CastSession : Type 0 where
  pub app_id : Text
  pub sources_selected : Bool
  pub source : CastSource
  pub cursor_mode : ℕ
  pub requested_persist_mode : ℕ
  pub persist_grant : Option (ℕ × Text)
  pub starting : Bool
  pub stop : Option ℕ
  pub cast_thread : Option ℕ

pub record SessionRegistry : Type 0 where
  pub sessions : Map CastSession

pub data SessionError : Type 0 where
  already_exists session_limit unknown_session already_selected : SessionError
  another_application not_selected already_started live_cast_limit : SessionError

-- `SessionRegistry::default`.
abbrev pub empty_registry : SessionRegistry
empty_registry = record { sessions = [] }

-- The session that `insert` stores.
abbrev pub fresh_session : Text → CastSession
fresh_session app = record {
  app_id = app;
  sources_selected = false;
  source = monitor none;
  cursor_mode = 1;
  requested_persist_mode = 0;
  persist_grant = none;
  starting = false;
  stop = none;
  cast_thread = none;
}

unfoldable pub insert_session : Text → Text → SessionRegistry → Result SessionError SessionRegistry
insert_session path app r = do
  refuse_if (contains_key path r.sessions) already_exists
  refuse_if (leb max_sessions (length r.sessions)) session_limit
  ok (record { sessions = insert path (fresh_session app) r.sessions })

unfoldable pub contains : Text → SessionRegistry → Bool
contains path r = contains_key path r.sessions

-- The five writes of `mark_sources_selected`.
abbrev pub arm : CastSource → ℕ → ℕ → Option (ℕ × Text) → CastSession → CastSession
arm source cursor persist grant s = record s {
  sources_selected = true;
  source = source;
  cursor_mode = cursor;
  requested_persist_mode = persist;
  persist_grant = grant;
}

unfoldable pub mark_sources_selected :
    Text
    → Text
    → CastSource
    → ℕ
    → ℕ
    → Option (ℕ × Text)
    → SessionRegistry
    → Result SessionError SessionRegistry
mark_sources_selected path app source cursor persist grant r = do
  s ← ok_or (lookup path r.sessions) unknown_session
  refuse_if s.sources_selected already_selected
  refuse_if (not (text_eq s.app_id app)) another_application
  ok (record { sessions = adjust path (arm source cursor persist grant) r.sessions })

-- `session.starting || session.cast_thread.is_some()`.
abbrev pub is_live : CastSession → Bool
is_live s = s.starting || is_some s.cast_thread

abbrev pub selection_of : CastSession → StartSelection
selection_of s = record {
  source = s.source;
  cursor_mode = s.cursor_mode;
  requested_persist_mode = s.requested_persist_mode;
  persist_grant = s.persist_grant;
}

abbrev pub set_starting : Bool → CastSession → CastSession
set_starting b s = record s { starting = b }

unfoldable pub reserve_start :
    Text → Text → SessionRegistry → Result SessionError (SessionRegistry × StartSelection)
reserve_start path app r = do
  s ← ok_or (lookup path r.sessions) unknown_session
  refuse_if (not (text_eq s.app_id app)) another_application
  refuse_if (not s.sources_selected) not_selected
  refuse_if (is_live s) already_started
  refuse_if (leb max_live_casts (count_if is_live r.sessions)) live_cast_limit
  ok (record { sessions = adjust path (set_starting true) r.sessions }, selection_of s)

unfoldable pub clear_start : Text → SessionRegistry → SessionRegistry
clear_start path r = record { sessions = adjust path (set_starting false) r.sessions }

abbrev pub install : ℕ → ℕ → CastSession → CastSession
install stop thread s = record s { starting = false; stop = some stop; cast_thread = some thread }

-- On a missing session the handles go back to the caller.
unfoldable pub mark_started : Text → ℕ → ℕ → SessionRegistry → Result (ℕ × ℕ) SessionRegistry
mark_started path stop thread r =
    if contains_key path r.sessions
    then ok (record { sessions = adjust path (install stop thread) r.sessions })
    else err (stop, thread)

unfoldable pub remove : Text → SessionRegistry → SessionRegistry × Option CastSession
remove path r = (record { sessions = erase path r.sessions }, lookup path r.sessions)

-- What `stop_cast` does to the resources of a detached session, in order.
pub data Teardown : Type 0 where
  dropped joined : ℕ → Teardown

abbrev option_list : {A : Type 0} → (ℕ → A) → Option ℕ → List A
option_list f none = []
option_list f (some n) = f n ∷ []

unfoldable pub stop_cast : CastSession → List Teardown
stop_cast s = option_list dropped s.stop ++ option_list joined s.cast_thread
