-- ===== src/Runtime/Tracker.antt =====
-- atrium-portal-runtime/src/lib.rs: `RequestTracker`, `register`, `finish` and `dispatch`. What the
-- object server and the worker's queue answer are arguments.
use xdg_desktop_portal_aegis.Prelude.{
  ℕ, Bool, not, List, [], ◌∷◌, Text, text_eq, has_text, if◌then◌else◌, retain, Result, ok, err,
}

-- A `HashSet<String>`: its elements, each once.
abbrev pub TextSet : Type 0
TextSet = List Text

-- `HashSet::insert`.
unfoldable pub insert_text : Text → TextSet → TextSet
insert_text t s = if has_text t s then s else t ∷ s

-- `HashSet::remove`.
unfoldable pub remove_text : Text → TextSet → TextSet
remove_text t s = retain (λ u. not (text_eq u t)) s

pub record RequestTracker : Type 0 where
  pub active : TextSet
  pub closed : TextSet

-- `RequestTracker::default`.
abbrev pub no_requests : RequestTracker
no_requests = record { active = []; closed = [] }

unfoldable pub was_closed : RequestTracker → Text → Bool
was_closed t path = has_text path t.closed

unfoldable pub activate : Text → RequestTracker → RequestTracker
activate path t = record { active = insert_text path t.active; closed = t.closed }

unfoldable pub mark_closed : Text → RequestTracker → RequestTracker
mark_closed path t =
    if has_text path t.active
    then record { active = t.active; closed = insert_text path t.closed }
    else t

unfoldable pub forget : Text → RequestTracker → RequestTracker
forget path t = record { active = remove_text path t.active; closed = remove_text path t.closed }

-- What `ObjectServer::at` answers: the object is exported, the path is taken, or an error.
pub data AtAnswer : Type 0 where
  exported occupied : AtAnswer
  at_failed : Text → AtAnswer

pub data DispatchError : Type 0 where
  bus_error : Text → DispatchError
  already_active : Text → DispatchError
  worker_gone dropped_response : DispatchError

unfoldable pub register :
    AtAnswer → Text → RequestTracker → Result DispatchError (Unit {0}) × RequestTracker
register (at_failed message) path t = (err (bus_error message), t)
register occupied path t = (err (already_active path), t)
register exported path t = (ok tt, activate path t)

-- The removal of the object is only logged where it fails.
unfoldable pub finish : Text → RequestTracker → RequestTracker
finish path t = forget path t

-- A call on the tracker by any of the tasks and workers that share it.
pub data Event : Type 0 where
  activated closing forgotten : Text → Event

unfoldable pub apply_event : Event → RequestTracker → RequestTracker
apply_event (activated path) t = activate path t
apply_event (closing path) t = mark_closed path t
apply_event (forgotten path) t = forget path t

unfoldable pub run_events : List Event → RequestTracker → RequestTracker
run_events [] t = t
run_events (e ∷ es) t = run_events es (apply_event e t)

-- What `try_send` and the wait for the reply come to: a full queue, a worker that is gone, a
-- dropped reply channel, or a response code.
pub data JobOutcome : Type 0 where
  queue_full disconnected reply_dropped : JobOutcome
  replied : ℕ → JobOutcome

abbrev pub response_of : JobOutcome → Result DispatchError ℕ
response_of queue_full = ok 2
response_of disconnected = err worker_gone
response_of reply_dropped = err dropped_response
response_of (replied code) = ok code

-- `meanwhile` is what other tasks do to the tracker before the request finishes.
unfoldable pub dispatch :
    AtAnswer
    → List Event
    → JobOutcome
    → Text
    → RequestTracker
    → Result DispatchError ℕ × RequestTracker
dispatch answer meanwhile outcome path t =
    let (registered, u) = register answer path t in
    elim registered [
      | err e ↦ (err e, u)
      | ok done ↦ (response_of outcome, finish path (run_events meanwhile u))
    ]
