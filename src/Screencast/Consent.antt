-- ===== src/Screencast/Consent.antt =====
-- screencast.rs: the consent behind an armed session.
use xdg_desktop_portal_aegis.Prelude.{
  ℕ, ◌∙◌, subst, ◌<◌, ◌≡◌, ◌≢◌, refl, ◌⊎◌, inl, inr, Bool, false, Option, none, some, Text, ltb,
  Option-cases, Result-cases, ok, refuse_if, bind-inverse, arith,
}
use xdg_desktop_portal_aegis.Persist.Store.{
  StoredSource, desktop, output, StoredSelection, validate,
}
use xdg_desktop_portal_aegis.Screencast.Options.{SelectOptions}
use xdg_desktop_portal_aegis.Screencast.Select.{
  Outside, World, ConfirmPick, code_cancelled, confirmed, confirm_code, resolve_source, ask_source,
  settle_source, choose_among, offers_window, grant_for, mark_selected, restorable, restore_with,
  try_restore, cast_source_of, select_interactively, protocol_of, select_sources,
}
use xdg_desktop_portal_aegis.Session.Registry.{
  CastSource, monitor, window, SessionRegistry, mark_sources_selected,
}

-- Why a source may be captured: a restore token that the store grants to this application, or the
-- compositor's confirmation of the source that this call asked for.
pub data Consents (out : Outside) (app : Text) (o : SelectOptions) (w : World) (source : CastSource)
    : Type 0 where
  by_token :
      (t : Text) (mode : ℕ) (sel : StoredSelection)
      → o.restore_token ≡ some t
      → 0 < o.persist_mode
      → validate t app (restorable out (protocol_of out)) w.store ≡ some (mode, sel)
      → source ≡ cast_source_of sel.source
      → Consents out app o w source
  by_user :
      (remember : Bool)
      → out.confirm ≡ confirmed
      → out.closed_after_choice ≡ false
      → out.closed_after_confirm ≡ false
      → ask_source out (protocol_of out) app o ≡ ok (source, remember)
      → Consents out app o w source

abbrev IsWindow : CastSource → Type 0
IsWindow (monitor c) = ⊥
IsWindow (window id) = Unit

-- How an accepted call has armed the session.
pub record Arms (out : Outside) (path app : Text) (o : SelectOptions) (w w' : World) : Type 0 where
  pub source : CastSource
  pub cursor : ℕ
  pub persist : ℕ
  pub grant : Option (ℕ × Text)
  pub consent : Consents out app o w source
  pub marked :
      mark_sources_selected path app source cursor persist grant w.sessions ≡ ok w'.sessions
  pub no_window_grant : (grant ≡ none) ⊎ (¬ IsWindow source)

mark_selected_ok :
    (out : Outside) (path app : Text) (source : CastSource) (cursor persist : ℕ)
    (grant : Option (ℕ × Text)) (w w' : World)
    → mark_selected out path app source cursor persist grant w ≡ (0, w')
    → mark_sources_selected path app source cursor persist grant w.sessions ≡ ok w'.sessions
unfolding mark_selected
mark_selected_ok out path app source cursor persist grant w w' h = ground arith

confirm_code_ok : (c : ConfirmPick) → confirm_code c ≡ ok tt → c ≡ confirmed
unfolding confirm_code
confirm_code_ok c h = ground arith

settle_source_ok :
    (out : Outside) (protocol : ℕ) (offered : Bool) (id : Text) (ticked : Bool)
    (source : CastSource) (remember : Bool)
    → settle_source out protocol offered (id, ticked) ≡ ok (source, remember)
    → (out.confirm ≡ confirmed)
      × (out.closed_after_choice ≡ false)
      × (out.closed_after_confirm ≡ false)
unfolding settle_source
settle_source_ok out protocol offered id ticked source remember h =
    let (u, a, more) = bind-inverse (refuse_if out.closed_after_choice code_cancelled) _ h in
    let (s, b, more') = bind-inverse (resolve_source out protocol offered id) _ more in
    let (v, c, more'') = bind-inverse (confirm_code out.confirm) _ more' in
    (confirm_code_ok out.confirm c, ground (arith, a), ground arith)

ask_source_ok :
    (out : Outside) (protocol : ℕ) (app : Text) (o : SelectOptions) (source : CastSource)
    (remember : Bool)
    → ask_source out protocol app o ≡ ok (source, remember)
    → (out.confirm ≡ confirmed)
      × (out.closed_after_choice ≡ false)
      × (out.closed_after_confirm ≡ false)
unfolding ask_source
ask_source_ok out protocol app o source remember h =
    let ((id, ticked), a, more) =
      bind-inverse (choose_among out app _ (ltb 0 o.persist_mode)) _ h in
    settle_source_ok out protocol (offers_window protocol o) id ticked source remember more

grant_for_monitor :
    (out : Outside) (app : Text) (o : SelectOptions) (sender : Option Text) (source : CastSource)
    (remember : Bool) (w : World)
    → ((grant_for out app o sender source remember w).0 ≡ none) ⊎ (¬ IsWindow source)
grant_for_monitor out app o sender (monitor c) remember w = inr (λ h. h)
grant_for_monitor out app o sender (window id) remember w = inl (ground arith)

grant_for_sessions :
    (out : Outside) (app : Text) (o : SelectOptions) (sender : Option Text) (source : CastSource)
    (remember : Bool) (w : World)
    → (grant_for out app o sender source remember w).1.sessions ≡ w.sessions
grant_for_sessions out app o sender (monitor none) remember w = ground arith
grant_for_sessions out app o sender (monitor (some c)) remember w = ground arith
grant_for_sessions out app o sender (window id) remember w = ground arith

cast_source_of_monitor : (s : StoredSource) → ¬ IsWindow (cast_source_of s)
cast_source_of_monitor desktop h = h
cast_source_of_monitor (output c) h = h

restore_with_granted :
    (t app : Text) (servable : StoredSource → Bool) (w : World) (mode : ℕ) (sel : StoredSelection)
    (t' : Text)
    → (restore_with t app servable w).0 ≡ some (mode, sel, t')
    → validate t app servable w.store ≡ some (mode, sel)
unfolding restore_with
restore_with_granted t app servable w mode sel t' h = ground arith

try_restore_sessions :
    (out : Outside) (protocol : ℕ) (app : Text) (o : SelectOptions) (w : World)
    → (try_restore out protocol app o w).1.sessions ≡ w.sessions
unfolding try_restore restore_with
try_restore_sessions out protocol app o w = ground arith

try_restore_token :
    (out : Outside) (protocol : ℕ) (app : Text) (o : SelectOptions) (w : World) (mode : ℕ)
    (sel : StoredSelection) (t : Text)
    → (try_restore out protocol app o w).0 ≡ some (mode, sel, t)
    → (t' : Text) × (o.restore_token ≡ some t')
      × (0 < o.persist_mode)
      × (validate t' app (restorable out protocol) w.store ≡ some (mode, sel))
unfolding try_restore
try_restore_token out protocol app o w mode sel t h = elim (Option-cases o.restore_token) [
  | inl e ↦ absurd (ground (arith, e))
  | inr (t', e) ↦ (
    t',
    e,
    ground (arith, e),
    restore_with_granted t' app (restorable out protocol) w mode sel t (ground (arith, e)),
  )
]

select_interactively-Arms :
    (out : Outside) (path app : Text) (o : SelectOptions) (sender : Option Text) (w v w' : World)
    → v.sessions ≡ w.sessions
    → select_interactively out (protocol_of out) path app o sender v ≡ (0, w')
    → Arms out path app o w w'
unfolding select_interactively
select_interactively-Arms out path app o sender w v w' same h =
    let (source, remember, asked) = answer in
    let g = grant_for out app o sender source remember v in
    let marked =
      mark_selected_ok out path app source o.cursor_mode o.persist_mode g.0 g.1 w'
        (ground (arith, asked)) in
    let (yes_said, open_then, open_now) =
      ask_source_ok out (protocol_of out) app o source remember asked in
    record {
      source = source;
      cursor = o.cursor_mode;
      persist = o.persist_mode;
      grant = g.0;
      consent = by_user remember yes_said open_then open_now asked;
      marked =
          subst
            (λ (r : SessionRegistry).
              mark_sources_selected path app source o.cursor_mode o.persist_mode g.0 r
              ≡ ok w'.sessions)
            (grant_for_sessions out app o sender source remember v ∙ same) marked;
      no_window_grant = grant_for_monitor out app o sender source remember v;
    }
  where
    answer :
        (source : CastSource) × (remember : Bool) × (ask_source out (protocol_of out) app o
          ≡ ok (source, remember))
    answer = elim (Result-cases (ask_source out (protocol_of out) app o)) [
      | inl ((source, remember), e) ↦ (source, remember, e)
      | inr (code, e) ↦ absurd (ground (arith, e))
    ]

-- A call of `select_sources` that answers 0 has armed the session, and only with consent: either a
-- restore token that the store grants to this very application for a source that can still be
-- captured, and the armed source is the stored one, or the compositor's confirmation, given while
-- the request was open, after which the armed source is the one asked for. The grant that the
-- session then holds is never for a window.
pub select_sources-Arms :
    (out : Outside) (path app : Text) (o : SelectOptions) (sender : Option Text) (w w' : World)
    → select_sources out path app o sender w ≡ (0, w')
    → Arms out path app o w w'
unfolding select_sources
select_sources-Arms out path app o sender w w' h =
    elim (Option-cases (try_restore out (protocol_of out) app o w).0) [
      | inl e ↦
          select_interactively-Arms out path app o sender w tried w'
            (try_restore_sessions out (protocol_of out) app o w) (ground (arith, e))
      | inr ((mode, sel, t), e) ↦
          let (t', given, asked, granted) =
            try_restore_token out (protocol_of out) app o w mode sel t e in
          record {
            source = cast_source_of sel.source;
            cursor = sel.cursor_mode;
            persist = mode;
            grant = some (mode, t);
            consent = by_token t' mode sel given asked granted refl;
            marked =
                subst
                  (λ (r : SessionRegistry).
                    mark_sources_selected path app (cast_source_of sel.source) sel.cursor_mode mode
                      (some (mode, t)) r
                    ≡ ok w'.sessions)
                  (try_restore_sessions out (protocol_of out) app o w)
                  (mark_selected_ok out path app (cast_source_of sel.source) sel.cursor_mode mode
                    (some (mode, t)) tried w' (ground (arith, e)));
            no_window_grant = inr (cast_source_of_monitor sel.source);
          }
    ]
  where
    tried : World
    tried = (try_restore out (protocol_of out) app o w).1

mark_selected_refused :
    (out : Outside) (path app : Text) (source : CastSource) (cursor persist : ℕ)
    (grant : Option (ℕ × Text)) (w : World)
    → (mark_selected out path app source cursor persist grant w).0 ≢ 0
    → (mark_selected out path app source cursor persist grant w).1.sessions ≡ w.sessions
unfolding mark_selected
mark_selected_refused out path app source cursor persist grant w h = ground arith

select_interactively_refused :
    (out : Outside) (protocol : ℕ) (path app : Text) (o : SelectOptions) (sender : Option Text)
    (w : World)
    → (select_interactively out protocol path app o sender w).0 ≢ 0
    → (select_interactively out protocol path app o sender w).1.sessions ≡ w.sessions
unfolding select_interactively
select_interactively_refused out protocol path app o sender w h =
    elim (Result-cases (ask_source out protocol app o)) [
      | inr (e, asked) ↦ ground (arith, asked)
      | inl ((source, remember), asked) ↦
          let g = grant_for out app o sender source remember w in
          ground (
            arith,
            asked,
            mark_selected_refused out path app source o.cursor_mode o.persist_mode g.0 g.1,
            grant_for_sessions out app o sender source remember w,
          )
    ]

-- A call of `select_sources` that does not answer 0 leaves the sessions as they were.
pub select_sources_refused :
    (out : Outside) (path app : Text) (o : SelectOptions) (sender : Option Text) (w : World)
    → (select_sources out path app o sender w).0 ≢ 0
    → (select_sources out path app o sender w).1.sessions ≡ w.sessions
unfolding select_sources
select_sources_refused out path app o sender w h =
    elim (Option-cases (try_restore out (protocol_of out) app o w).0) [
      | inl e ↦ ground (
        arith,
        e,
        select_interactively_refused out (protocol_of out) path app o sender tried,
        try_restore_sessions out (protocol_of out) app o w,
      )
      | inr ((mode, sel, t), e) ↦ ground (
        arith,
        e,
        mark_selected_refused out path app (cast_source_of sel.source) sel.cursor_mode mode
            (some (mode, t)) tried,
        try_restore_sessions out (protocol_of out) app o w,
      )
    ]
  where
    tried : World
    tried = (try_restore out (protocol_of out) app o w).1
