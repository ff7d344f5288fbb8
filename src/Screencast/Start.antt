-- ===== src/Screencast/Start.antt =====
-- screencast.rs: `start_cast` and `close_session`. `start_cast` holds the registry's lock twice, for
-- the reservation and for what follows the negotiation; in between other calls may change it.
use xdg_desktop_portal_aegis.Prelude.{
  ℕ, ℤ, as_i32, ◌≡◌, ◌≢◌, refl, ◌⊎◌, inl, inr, Bool, true, false, Option, none, some, List, [], ◌∷◌,
  ◌++◌, Text, text_eq_refl, ◌==◌, if◌then◌else◌, Option-cases, lookup, lookup-adjust, Result, ok,
  err, arith,
}
use xdg_desktop_portal_aegis.Screencast.Options.{
  source_type_monitor, source_type_window, cursor_mode_embedded,
}
use xdg_desktop_portal_aegis.Screencast.Select.{Refusal, code_cancelled, code_refused}
use xdg_desktop_portal_aegis.Session.Registry.{
  CastSource, monitor, window, StartSelection, CastSession, SessionRegistry, Teardown, dropped,
  joined, set_starting, install, reserve_start, clear_start, mark_started, remove, stop_cast,
}

-- `CastStarted`, the negotiated stream that the cast thread reports.
pub record Started : Type 0 where
  pub node_id : ℕ
  pub serial : ℕ
  pub width : ℕ
  pub height : ℕ
  pub position : ℤ × ℤ

-- `handle.started.recv_timeout(START_TIMEOUT)`.
pub data Negotiated : Type 0 where
  started : Started → Negotiated
  failed timed_out : Negotiated

-- `cast::spawn`: the handle's stop socket and thread, and what the thread then reports.
pub data Spawned : Type 0 where
  spawn_failed : Spawned
  handle : ℕ → ℕ → Negotiated → Spawned

pub data StreamCursorMode : Type 0 where
  hidden embedded : StreamCursorMode

abbrev pub stream_cursor : ℕ → StreamCursorMode
stream_cursor mode = if mode == cursor_mode_embedded then embedded else hidden

abbrev pub source_type_of : CastSource → ℕ
source_type_of (monitor c) = source_type_monitor
source_type_of (window id) = source_type_window

-- The one element of the result `streams`.
pub record StreamValue : Type 0 where
  pub node_id : ℕ
  pub pipewire_serial : ℕ
  pub source_type : ℕ
  pub position : ℤ × ℤ
  pub size : ℤ × ℤ

pub record StartResults : Type 0 where
  pub stream : StreamValue
  pub persist_mode : Option ℕ
  pub restore_token : Option Text

unfoldable pub start_results : StartSelection → Started → StartResults
start_results sel s = record {
  stream = record {
    node_id = s.node_id;
    pipewire_serial = s.serial;
    source_type = source_type_of sel.source;
    position = s.position;
    size = (as_i32 s.width, as_i32 s.height);
  };
  persist_mode = elim sel.persist_grant [
    | some (mode, token) ↦ some mode
    | none ↦ if sel.requested_persist_mode == 0 then none else some 0
  ];
  restore_token = elim sel.persist_grant [ some (mode, token) ↦ some token | none ↦ none ];
}

-- The first half: `Err` is the response, `Ok` the reserved selection and the stream's cursor.
unfoldable pub begin_start :
    Bool
    → Text
    → Text
    → SessionRegistry
    → Result Refusal (SessionRegistry × StartSelection × StreamCursorMode)
begin_start closed path app r =
    if closed then err code_cancelled else elim (reserve_start path app r) [
      | err e ↦ err code_refused
      | ok (q, sel) ↦ ok (q, sel, stream_cursor sel.cursor_mode)
    ]

-- The response, the registry after it, and the resources torn down on the way.
pub record Finished : Type 0 where
  pub response : Result Refusal StartResults
  pub registry : SessionRegistry
  pub torn_down : List Teardown

abbrev give_up : Refusal → SessionRegistry → List Teardown → Finished
give_up e r torn = record { response = err e; registry = r; torn_down = torn }

abbrev tear_down : ℕ → ℕ → List Teardown
tear_down stop thread = dropped stop ∷ joined thread ∷ []

unfoldable pub settle_start :
    Bool → Text → StartSelection → ℕ → ℕ → Started → SessionRegistry → Finished
unfolding start_results
settle_start closed path sel stop thread s r =
    if closed
    then give_up code_cancelled (clear_start path r) (tear_down stop thread)
    else elim (mark_started path stop thread r) [
      | err (stop', thread') ↦ give_up code_cancelled r (tear_down stop' thread')
      | ok q ↦ record { response = ok (start_results sel s); registry = q; torn_down = [] }
    ]

-- The second half; `closed` is whether the request was closed when the cast reported its start.
unfoldable pub finish_start : Spawned → Bool → Text → StartSelection → SessionRegistry → Finished
unfolding settle_start
finish_start spawn_failed closed path sel r = give_up code_refused (clear_start path r) []
finish_start (handle stop thread (started s)) closed path sel r =
    settle_start closed path sel stop thread s r
finish_start (handle stop thread failed) closed path sel r =
    give_up code_refused (clear_start path r) (tear_down stop thread)
finish_start (handle stop thread timed_out) closed path sel r =
    give_up code_refused (clear_start path r) (tear_down stop thread)

-- The signals and teardowns of a closed session, in order: `Closed` only after the cast is down.
pub data CloseEffect : Type 0 where
  tears_down : Teardown → CloseEffect
  emits_closed removes_object : Text → CloseEffect

abbrev teardown_effects : List Teardown → List CloseEffect
teardown_effects [] = []
teardown_effects (t ∷ ts) = tears_down t ∷ teardown_effects ts

unfoldable pub close_session : Text → SessionRegistry → SessionRegistry × List CloseEffect
close_session path r =
    let removed = remove path r in
    (
      removed.0,
      elim removed.1 [
        | none ↦ []
        | some s ↦ teardown_effects (stop_cast s) ++ emits_closed path ∷ removes_object path ∷ []
      ],
    )

-- A spawned cast is never lost: either the call answers with the stream, and the session at the
-- path holds the cast's stop socket and thread and is no longer starting, or the call answers with
-- a refusal, has closed the socket and joined the thread, and installed nothing.
pub finish_start_owned :
    (stop thread : ℕ) (n : Negotiated) (closed : Bool) (path : Text) (sel : StartSelection)
    (r : SessionRegistry)
    → let f = finish_start (handle stop thread n) closed path sel r in
      ((s : Started) × (t : CastSession) × (n ≡ started s)
        × (f.response ≡ ok (start_results sel s))
        × (lookup path r.sessions ≡ some t)
        × (lookup path f.registry.sessions ≡ some (install stop thread t))
        × (f.torn_down ≡ []))
      ⊎ ((e : Refusal) × (f.response ≡ err e)
          × (f.torn_down ≡ dropped stop ∷ joined thread ∷ [])
          × ((f.registry ≡ r) ⊎ (f.registry ≡ clear_start path r)))
unfolding finish_start mark_started
finish_start_owned stop thread failed closed path sel r = inr (code_refused, refl, refl, inr refl)
finish_start_owned stop thread timed_out closed path sel r =
    inr (code_refused, refl, refl, inr refl)
finish_start_owned stop thread (started s) true path sel r =
    inr (code_cancelled, refl, refl, inr refl)
finish_start_owned stop thread (started s) false path sel r =
    elim (Option-cases (lookup path r.sessions)) [
      | inl e ↦ inr (code_cancelled, ground (arith, e), ground (arith, e), inl (ground (arith, e)))
      | inr (t, e) ↦ inl (
        s,
        t,
        refl,
        ground (arith, e),
        e,
        ground
            (arith, e, lookup-adjust path path (install stop thread) r.sessions, text_eq_refl path),
        ground (arith, e),
      )
    ]

clear_start_released :
    (path : Text) (r : SessionRegistry) (t : CastSession)
    → lookup path (clear_start path r).sessions ≡ some t
    → t.starting ≡ false
unfolding clear_start
clear_start_released path r t h = elim (Option-cases (lookup path r.sessions)) [
  | inl e ↦ absurd (ground (arith, e, lookup-adjust path path (set_starting false) r.sessions))
  | inr (s, e) ↦
      ground (arith, e, lookup-adjust path path (set_starting false) r.sessions, text_eq_refl path)
]

settle_start_released :
    (closed : Bool) (path : Text) (sel : StartSelection) (stop thread : ℕ) (s : Started)
    (r : SessionRegistry) (t : CastSession)
    → lookup path (settle_start closed path sel stop thread s r).registry.sessions ≡ some t
    → t.starting ≡ false
unfolding settle_start mark_started
settle_start_released true path sel stop thread s r t h = clear_start_released path r t h
settle_start_released false path sel stop thread s r t h =
    elim (Option-cases (lookup path r.sessions)) [
      | inl e ↦ absurd (ground (arith, e))
      | inr (u, e) ↦
          ground
            (arith, e, lookup-adjust path path (install stop thread) r.sessions, text_eq_refl path)
    ]

-- Whatever the outcome of a start, a session that is still registered is no longer starting, so a
-- reservation never outlives the call that made it.
pub finish_start_released :
    (sp : Spawned) (closed : Bool) (path : Text) (sel : StartSelection) (r : SessionRegistry)
    (t : CastSession)
    → lookup path (finish_start sp closed path sel r).registry.sessions ≡ some t
    → t.starting ≡ false
unfolding finish_start
finish_start_released spawn_failed closed path sel r t h = clear_start_released path r t h
finish_start_released (handle stop thread (started s)) closed path sel r t h =
    settle_start_released closed path sel stop thread s r t h
finish_start_released (handle stop thread failed) closed path sel r t h =
    clear_start_released path r t h
finish_start_released (handle stop thread timed_out) closed path sel r t h =
    clear_start_released path r t h

-- What `Start` reports is what was granted: a restore token exactly with its mode; without a
-- token, mode 0 if persistence was requested, and nothing if it was not.
pub start_results_persist :
    (sel : StartSelection) (s : Started)
    → ((mode : ℕ) (token : Text)
        → sel.persist_grant ≡ some (mode, token)
        → ((start_results sel s).persist_mode ≡ some mode)
          × ((start_results sel s).restore_token ≡ some token))
      × (sel.persist_grant ≡ none
          → ((start_results sel s).restore_token ≡ none)
            × ((sel.requested_persist_mode ≢ 0 → (start_results sel s).persist_mode ≡ some 0)
                × (sel.requested_persist_mode ≡ 0 → (start_results sel s).persist_mode ≡ none)))
unfolding start_results
start_results_persist sel s = (
  λ mode token e. (ground arith, ground arith),
  λ e. (ground arith, (λ n. ground arith, λ z. ground arith)),
)
