-- ===== src/Inhibit/Served.antt =====
-- inhibit.rs: the methods of the served interface and of the objects it exports, and the logind
-- client. What the object server and the bus answer are arguments.
use xdg_desktop_portal_aegis.Prelude.{ℕ, Bool, Option, none, some, Text, Map, Result, ok, err}
use xdg_desktop_portal_aegis.Runtime.Tracker.{AtAnswer, exported, occupied, at_failed}
use xdg_desktop_portal_aegis.Screencast.Options.{Variant}
use xdg_desktop_portal_aegis.Inhibit.Registry.{
  InhibitError, InhibitRegistry, Portal, object_active, server_failed, logind_failed,
  remove_request, add_monitor, remove_monitor, is_monitor, release, apply_inhibit, parse_reason,
  InhibitRecord,
}

abbrev pub lock_of : Option InhibitRecord → Option ℕ
lock_of none = none
lock_of (some r) = r.lock

-- `remove_request`, whose record is dropped by the caller.
unfoldable pub drop_request : Text → Portal → Portal
drop_request path p =
    let (removed, registry) = remove_request path p.registry in
    record { registry = registry; open_locks = release (lock_of removed) p.open_locks }

-- `InhibitIface::inhibit` behind `apply_inhibit`: the request object is exported.
unfoldable pub export_request : AtAnswer → Text → Portal → Result InhibitError (Unit {0}) × Portal
export_request (at_failed message) path p = (err (server_failed message), p)
export_request occupied path p = (err (object_active path), drop_request path p)
export_request exported path p = (ok tt, p)

abbrev pub then_export :
    AtAnswer
    → Text
    → Result InhibitError (Unit {0}) × Portal
    → Result InhibitError (Unit {0}) × Portal
then_export answer path (err e, p) = (err e, p)
then_export answer path (ok done, p) = export_request answer path p

module _ (inhibitor : Text → Text → Text → Text → Result InhibitError ℕ) where
  -- What follows `parse_reason`.
  abbrev pub with_reason :
      AtAnswer
      → Text
      → Text
      → ℕ
      → Result InhibitError (Option Text)
      → Portal
      → Result InhibitError (Unit {0}) × Portal
  with_reason answer path app flags (err e) p = (err e, p)
  with_reason answer path app flags (ok reason) p =
      then_export answer path (apply_inhibit inhibitor path app flags reason p)

  -- `InhibitIface::inhibit`.
  unfoldable pub inhibit :
      AtAnswer → Text → Text → ℕ → Map Variant → Portal → Result InhibitError (Unit {0}) × Portal
  inhibit answer path app flags options p =
      with_reason answer path app flags (parse_reason options) p

-- `InhibitRequestIface::close`. The removal of the object is only logged where it fails.
unfoldable pub close_request : Text → Portal → Portal
close_request path p = drop_request path p

unfoldable pub drop_monitor : Text → Portal → Portal
drop_monitor path p = record {
  registry = (remove_monitor path p.registry).1;
  open_locks = p.open_locks;
}

unfoldable pub export_monitor : AtAnswer → Text → Portal → Result InhibitError ℕ × Portal
export_monitor (at_failed message) path p = (err (server_failed message), p)
export_monitor occupied path p = (ok 2, drop_monitor path p)
export_monitor exported path p = (ok 0, p)

abbrev pub with_registry : InhibitRegistry → Portal → Portal
with_registry r p = record { registry = r; open_locks = p.open_locks }

-- The `StateChanged` signal is only logged where it fails.
unfoldable pub create_monitor_inner : AtAnswer → Text → Portal → Result InhibitError ℕ × Portal
create_monitor_inner answer path p = elim (add_monitor path p.registry) [
  | err e ↦ (ok 2, p)
  | ok r ↦ export_monitor answer path (with_registry r p)
]

-- Whether the call is acknowledged.
unfoldable pub query_end_response : Text → Portal → Bool
query_end_response path p = is_monitor path p.registry

-- `InhibitSessionIface::close`.
unfoldable pub close_monitor : Text → Portal → Portal
close_monitor path p = drop_monitor path p

-- The reply to logind's `Inhibit`: a descriptor, a body that does not decode, or an error.
pub data LogindReply : Type 0 where
  locked : ℕ → LogindReply
  malformed failed_call : Text → LogindReply

-- A failed call drops the cached connection.
abbrev pub logind_answer : ℕ → LogindReply → Result InhibitError ℕ × Option ℕ
logind_answer conn (locked fd) = (ok fd, some conn)
logind_answer conn (malformed message) = (err (logind_failed message), some conn)
logind_answer conn (failed_call message) = (err (logind_failed message), none)

-- `Logind::inhibit`, with the cached connection: the answer, and the connection that is cached
-- from then on. `connect` is the answer of the system bus, `call` logind's.
unfoldable pub logind_inhibit :
    Result Text ℕ → (ℕ → LogindReply) → Option ℕ → Result InhibitError ℕ × Option ℕ
logind_inhibit (err message) call none = (err (logind_failed message), none)
logind_inhibit (ok conn) call none = logind_answer conn (call conn)
logind_inhibit connect call (some conn) = logind_answer conn (call conn)
