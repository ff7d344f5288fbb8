-- ===== src/Runtime/TrackerLaws.antt =====
-- atrium-portal-runtime/src/lib.rs: what the tracker knows of each request.
use xdg_desktop_portal_aegis.Prelude.{
  ◌≡◌, ◌≤◌, suc, length, refl, ◌∙◌, ap, inl, inr, true, false, ◌||◌, List, [], ◌∷◌, Text, text_eq,
  text_eq_iff, text_eq_refl, has_text, IsErr, ◌⊎◌, if◌then◌else◌, Bool-cases, arith,
}
use xdg_desktop_portal_aegis.Runtime.Tracker.{
  TextSet, insert_text, remove_text, RequestTracker, no_requests, activate, mark_closed, forget,
  AtAnswer, at_failed, occupied, exported, register, finish, Event, activated, closing, forgotten,
  apply_event, run_events, JobOutcome, response_of, dispatch,
}

pub has_text-insert_text :
    (asked t : Text) (s : TextSet)
    → has_text asked (insert_text t s) ≡ (text_eq t asked || has_text asked s)
unfolding insert_text
has_text-insert_text asked t s = elim (Bool-cases (text_eq t asked)) [
  | inl e ↦
      let same : t ≡ asked = (text_eq_iff t asked).0 e in
      ground (arith, e, ap (λ x. has_text x s) same)
  | inr e ↦ ground (arith, e)
]

pub length-insert_text-le : (t : Text) (s : TextSet) → length (insert_text t s) ≤ suc (length s)
unfolding insert_text
length-insert_text-le t s = ground arith

pub has_text-remove_text :
    (asked t : Text) (s : TextSet)
    → has_text asked (remove_text t s) ≡ (if text_eq t asked then false else has_text asked s)
unfolding remove_text
has_text-remove_text asked t [] = ground arith
has_text-remove_text asked t (u ∷ s) = ground (
  arith,
  has_text-remove_text asked t s,
  text_eq_iff t asked,
  text_eq_iff u t,
  text_eq_iff u asked,
)

-- The life of one request path, as a client sees it.
pub data Phase : Type 0 where
  idle serving cancelled : Phase

unfoldable pub advance : Event → Phase → Phase
advance (activated path) idle = serving
advance (activated path) p = p
advance (closing path) idle = idle
advance (closing path) p = cancelled
advance (forgotten path) p = idle

abbrev pub path_of : Event → Text
path_of (activated path) = path
path_of (closing path) = path
path_of (forgotten path) = path

-- The events of one path, in their order.
unfoldable pub advance_all : Text → List Event → Phase → Phase
advance_all path [] p = p
advance_all path (e ∷ es) p =
    advance_all path es (if text_eq (path_of e) path then advance e p else p)

unfoldable pub phase : RequestTracker → Text → Phase
phase t path =
    if has_text path t.closed then cancelled else if has_text path t.active then serving else idle

-- A closing mark is kept only for a request that is served.
abbrev pub IsTidy : RequestTracker → Type 0
IsTidy t = (path : Text) → has_text path t.closed ≡ true → has_text path t.active ≡ true

apply_event-IsTidy : (e : Event) (t : RequestTracker) → IsTidy t → IsTidy (apply_event e t)
unfolding apply_event activate mark_closed forget
apply_event-IsTidy (activated p) t h path c =
    ground (arith, has_text-insert_text path p t.active, h path c)
apply_event-IsTidy (closing p) t h path c = elim (Bool-cases (has_text p t.active)) [
  | inl served ↦ ground (
    arith,
    c,
    served,
    h path,
    has_text-insert_text path p t.closed,
    text_eq_iff p path,
    ap (λ x. has_text x t.active),
  )
  | inr idle_path ↦ ground (arith, c, idle_path, h path)
]
apply_event-IsTidy (forgotten p) t h path c =
    ground
      (arith, c, h path, has_text-remove_text path p t.active, has_text-remove_text path p t.closed)

phase_step :
    (e : Event) (t : RequestTracker) (path : Text)
    → IsTidy t
    → phase (apply_event e t) path
      ≡ (if text_eq (path_of e) path then advance e (phase t path) else phase t path)
unfolding phase advance apply_event activate mark_closed forget
phase_step (activated p) t path h = ground (arith, has_text-insert_text path p t.active, h path)
phase_step (closing p) t path h = ground (
  arith,
  h path,
  has_text-insert_text path p t.closed,
  text_eq_iff p path,
  ap (λ x. has_text x t.active),
)
phase_step (forgotten p) t path h =
    ground (arith, has_text-remove_text path p t.active, has_text-remove_text path p t.closed)

phase_run :
    (es : List Event) (t : RequestTracker) (path : Text)
    → IsTidy t
    → phase (run_events es t) path ≡ advance_all path es (phase t path)
unfolding run_events advance_all
phase_run [] t path h = refl
phase_run (e ∷ es) t path h =
    phase_run es (apply_event e t) path (apply_event-IsTidy e t h)
    ∙ ap (advance_all path es) (phase_step e t path h)

-- The tracker, shared by all requests, is for each request path an automaton of its own: after any
-- sequence of calls on an empty tracker, a path is cancelled, served or idle as the calls on that
-- path alone say, whatever the calls on other paths are and wherever they stand.
pub run_events-advance_all :
    (es : List Event) (path : Text)
    → phase (run_events es no_requests) path ≡ advance_all path es idle
run_events-advance_all es path = phase_run es no_requests path (λ p c. c) ∙ unfold phase in refl

-- A request that is dispatched leaves nothing behind, whatever other tasks do to the tracker while
-- it is served and whatever comes of its job: its path is idle again. Where it cannot be
-- registered, the tracker is as it was.
pub dispatch-idle :
    (answer : AtAnswer) (meanwhile : List Event) (outcome : JobOutcome) (path : Text)
    (t : RequestTracker)
    → ((answer ≡ exported)
        × ((dispatch answer meanwhile outcome path t).0 ≡ response_of outcome)
        × (phase (dispatch answer meanwhile outcome path t).1 path ≡ idle))
      ⊎ ((IsErr (dispatch answer meanwhile outcome path t).0)
          × ((dispatch answer meanwhile outcome path t).1 ≡ t))
unfolding dispatch register
dispatch-idle (at_failed message) meanwhile outcome path t = inr ((_, refl), refl)
dispatch-idle occupied meanwhile outcome path t = inr ((_, refl), refl)
dispatch-idle exported meanwhile outcome path t =
    inl (refl, refl, forgotten_idle path (run_events meanwhile (activate path t)))
  where
    forgotten_idle : (path : Text) (t : RequestTracker) → phase (finish path t) path ≡ idle
    forgotten_idle path t =
        unfold phase finish forget in
        ground (
          arith,
          text_eq_refl path,
          has_text-remove_text path path t.active,
          has_text-remove_text path path t.closed,
        )

-- A `Close` that arrives after the request object is exported and before the tracker marks the
-- request as served is lost: the request is not cancelled.
pub close-activate_lost :
    (path : Text) (t : RequestTracker)
    → phase t path ≡ idle
    → phase (activate path (mark_closed path t)) path ≡ serving
unfolding phase activate mark_closed
close-activate_lost path t e =
    ground (arith, e, text_eq_refl path, has_text-insert_text path path t.active)
