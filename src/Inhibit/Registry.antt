-- ===== src/Inhibit/Registry.antt =====
-- inhibit.rs: the registry of inhibitions and monitors, the mapping of flags, and `apply_inhibit`.
-- The descriptors that logind has handed out and that are still open are part of the state, so a
-- value that Rust drops closes its descriptor here.
use xdg_desktop_portal_aegis.Prelude.{
  ℕ, ◌+◌, ◌/◌, ◌%◌, Bool, not, ◌||◌, Option, none, some, List, [], ◌∷◌, ◌++◌, Text, codes, join,
  utf8_len, contains_char, is_empty, leb, ltb, ◌==◌, if◌then◌else◌, unwrap_or, length, Map, lookup,
  insert, erase, contains_key, has_text, Result, ok, err, refuse_if, ◌>>◌,
}
use xdg_desktop_portal_aegis.Runtime.Tracker.{TextSet, insert_text, remove_text}
use xdg_desktop_portal_aegis.Screencast.Options.{Variant, as_text, non_empty}

abbrev pub inhibit_logout : ℕ
inhibit_logout = 1

abbrev pub inhibit_user_switch : ℕ
inhibit_user_switch = 2

abbrev pub inhibit_suspend : ℕ
inhibit_suspend = 4

abbrev pub inhibit_idle : ℕ
inhibit_idle = 8

-- The four flags together.
abbrev pub known_flags : ℕ
known_flags = 15

abbrev pub max_inhibit_objects : ℕ
max_inhibit_objects = 64

abbrev pub max_reason_bytes : ℕ
max_reason_bytes = 16384

pub data InhibitError : Type 0 where
  object_active : Text → InhibitError
  inhibit_limit unsupported_flags bad_reason : InhibitError
  logind_failed server_failed : Text → InhibitError

pub record InhibitRecord : Type 0 where
  pub app_id : Text
  pub flags : ℕ
  pub lock : Option ℕ

pub record InhibitRegistry : Type 0 where
  pub requests : Map InhibitRecord
  pub monitors : TextSet

-- `InhibitRegistry::default`.
abbrev pub no_objects : InhibitRegistry
no_objects = record { requests = []; monitors = [] }

unfoldable pub live : InhibitRegistry → ℕ
live r = length r.requests + length r.monitors

abbrev pub is_active : Text → InhibitRegistry → Bool
is_active path r = contains_key path r.requests || has_text path r.monitors

unfoldable pub add_request :
    Text → Text → ℕ → Option ℕ → InhibitRegistry → Result InhibitError InhibitRegistry
add_request path app flags lock r = do
  refuse_if (is_active path r) (object_active path)
  refuse_if (leb max_inhibit_objects (live r)) inhibit_limit
  ok (record {
    requests = insert path (record { app_id = app; flags = flags; lock = lock }) r.requests;
    monitors = r.monitors;
  })

unfoldable pub remove_request : Text → InhibitRegistry → Option InhibitRecord × InhibitRegistry
remove_request path r =
    (lookup path r.requests, record { requests = erase path r.requests; monitors = r.monitors })

unfoldable pub add_monitor : Text → InhibitRegistry → Result InhibitError InhibitRegistry
add_monitor path r = do
  refuse_if (is_active path r) (object_active path)
  refuse_if (leb max_inhibit_objects (live r)) inhibit_limit
  ok (record { requests = r.requests; monitors = insert_text path r.monitors })

unfoldable pub remove_monitor : Text → InhibitRegistry → Bool × InhibitRegistry
remove_monitor path r = (
  has_text path r.monitors,
  record { requests = r.requests; monitors = remove_text path r.monitors },
)

unfoldable pub is_monitor : Text → InhibitRegistry → Bool
is_monitor path r = has_text path r.monitors

-- `flags & flag != 0`, for a flag of one bit.
abbrev pub has_flag : ℕ → ℕ → Bool
has_flag flags flag = (flags / flag) % 2 == 1

-- `flags & !KNOWN_FLAGS != 0`.
abbrev pub has_unknown : ℕ → Bool
has_unknown flags = not (flags / 16 == 0)

unfoldable pub logind_what : ℕ → Text
logind_what flags = join (codes ":") (
    (if has_flag flags inhibit_idle then codes "idle" ∷ [] else [])
    ++ (if has_flag flags inhibit_suspend then codes "sleep" ∷ [] else []))

-- The registry, and the logind descriptors that are open.
pub record Portal : Type 0 where
  pub registry : InhibitRegistry
  pub open_locks : List ℕ

abbrev pub idle_portal : Portal
idle_portal = record { registry = no_objects; open_locks = [] }

abbrev pub drop_first : ℕ → List ℕ → List ℕ
drop_first fd [] = []
drop_first fd (x ∷ xs) = if x == fd then xs else x ∷ drop_first fd xs

-- `SystemInhibitor::inhibit` has returned a descriptor.
abbrev pub hold : Option ℕ → List ℕ → List ℕ
hold none fds = fds
hold (some fd) fds = fd ∷ fds

-- A lock is dropped.
abbrev pub release : Option ℕ → List ℕ → List ℕ
release none fds = fds
release (some fd) fds = drop_first fd fds

-- What `add_request` makes of a lock that is held already: a refusal drops it.
unfoldable pub settle_request :
    Result InhibitError InhibitRegistry
    → Option ℕ
    → Portal
    → Result InhibitError (Unit {0}) × Portal
settle_request (ok r) lock p = (ok tt, record { registry = r; open_locks = p.open_locks })
settle_request (err e) lock p =
    (err e, record { registry = p.registry; open_locks = release lock p.open_locks })

unfoldable pub record_inhibit :
    Text → Text → ℕ → Option ℕ → Portal → Result InhibitError (Unit {0}) × Portal
record_inhibit path app flags lock p =
    settle_request (add_request path app flags lock p.registry) lock
      (record { registry = p.registry; open_locks = hold lock p.open_locks })

abbrev pub who_of : Text → Text
who_of app = if is_empty app then codes "A sandboxed application" else app

abbrev pub why_of : Option Text → Text
why_of reason = unwrap_or (codes "Portal inhibition request") (non_empty reason)

-- `inhibit what who why mode` is the answer of the system inhibitor.
module _ (inhibit : Text → Text → Text → Text → Result InhibitError ℕ) where
  unfoldable pub apply_inhibit :
      Text → Text → ℕ → Option Text → Portal → Result InhibitError (Unit {0}) × Portal
  apply_inhibit path app flags reason p =
      if flags == 0 || has_unknown flags
      then (err unsupported_flags, p)
      else if is_empty (logind_what flags)
      then record_inhibit path app flags none p
      else elim (inhibit (logind_what flags) (who_of app) (why_of reason) (codes "block")) [
        | err e ↦ (err e, p)
        | ok fd ↦ record_inhibit path app flags (some fd) p
      ]

abbrev pub is_bad_reason : Text → Bool
is_bad_reason reason = ltb max_reason_bytes (utf8_len reason) || contains_char 0 reason

abbrev pub bounded_reason : Option Text → Result InhibitError (Option Text)
bounded_reason none = ok none
bounded_reason (some reason) = if is_bad_reason reason then err bad_reason else ok (some reason)

unfoldable pub parse_reason : Map Variant → Result InhibitError (Option Text)
parse_reason options = bounded_reason (as_text (lookup (codes "reason") options))
