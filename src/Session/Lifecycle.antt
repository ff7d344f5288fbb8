-- ===== src/Session/Lifecycle.antt =====
-- session.rs: when each call succeeds, who may make it, and what becomes of a selection.
use xdg_desktop_portal_aegis.Prelude.{
  ℕ, sym, ◌∙◌, ◌<◌, ◌≡◌, ◌≢◌, ◌↔◌, refl, ap, true, false, Option, none, some, inl, inr, [], ◌∷◌,
  Text, text_eq, text_eq_iff, text_eq_refl, Bool-cases, Option-cases, lookup, adjust, count_if,
  lookup-insert, lookup-erase, lookup-adjust, ok, err, IsOk, arith,
}
use xdg_desktop_portal_aegis.Session.Registry.{
  CastSource, StartSelection, CastSession, SessionRegistry, max_live_casts, fresh_session, is_live,
  arm, set_starting, install, selection_of, insert_session, mark_sources_selected, reserve_start,
  clear_start, mark_started, remove, stop_cast, dropped, joined, another_application,
}
use xdg_desktop_portal_aegis.Session.Limits.{
  Call, inserts, selects, reserves, clears, starts, removes,
}

-- A session of `app` at `path` that may start now.
abbrev pub MayStart : Text → Text → SessionRegistry → CastSession → Type 0
MayStart path app r s =
    (lookup path r.sessions ≡ some s)
    × (s.app_id ≡ app)
    × (s.sources_selected ≡ true)
    × (is_live s ≡ false)
    × (count_if is_live r.sessions < max_live_casts)

reserve_start-MayStart :
    (path app : Text) (r : SessionRegistry) {q : SessionRegistry} {sel : StartSelection}
    → reserve_start path app r ≡ ok (q, sel)
    → (s : CastSession) × MayStart path app r s
      × (sel ≡ selection_of s)
      × (lookup path q.sessions ≡ some (set_starting true s))
unfolding reserve_start
reserve_start-MayStart path app r {q} {sel} h = elim (Option-cases (lookup path r.sessions)) [
  | inl e ↦ ground (arith, e)
  | inr (s, e) ↦ (
    s,
    ground (arith, e, text_eq_iff s.app_id app),
    ground (arith, e),
    ground (arith, e, lookup-adjust path path (set_starting true) r.sessions, text_eq_refl path),
  )
]

MayStart-reserve_start :
    (path app : Text) (r : SessionRegistry) (s : CastSession)
    → MayStart path app r s
    → reserve_start path app r
      ≡ ok (record { sessions = adjust path (set_starting true) r.sessions }, selection_of s)
unfolding reserve_start
MayStart-reserve_start path app r s m = ground (arith, text_eq_iff s.app_id app)

-- `reserve_start` succeeds exactly when the session exists, belongs to the caller, has selected
-- its sources, is neither starting nor casting, and fewer than 16 casts are live. What it returns
-- is the selection that the session was armed with, and the session is then starting.
pub reserve_start_iff :
    (path app : Text) (r q : SessionRegistry) (sel : StartSelection)
    → (reserve_start path app r ≡ ok (q, sel)) ↔ (
        (s : CastSession) × MayStart path app r s
        × (sel ≡ selection_of s)
        × (q ≡ record { sessions = adjust path (set_starting true) r.sessions }))
reserve_start_iff path app r q sel = (
  λ h.
      let (s, m, e, _) = reserve_start-MayStart path app r h in
      (s, m, e, ground (arith, MayStart-reserve_start path app r s m)),
  λ (s, m, e, f). rw (MayStart-reserve_start path app r s m, e, f),
)

-- A reservation is single use: until it is cleared, no application can reserve the session again.
pub reserve_start_twice :
    (path app app' : Text) (r q : SessionRegistry) (sel : StartSelection)
    → reserve_start path app r ≡ ok (q, sel)
    → ¬ IsOk (reserve_start path app' q)
reserve_start_twice path app app' r q sel h ((q', sel'), h') =
    let (s, _, _, now) = reserve_start-MayStart path app r h in
    let (s', m, _, _) = reserve_start-MayStart path app' q h' in ground (arith, now, m)

-- An application that did not create a session can neither start it, which is refused as another
-- application's session, nor arm it.
pub foreign_application :
    (path app : Text) (s : CastSession) (r : SessionRegistry)
    → lookup path r.sessions ≡ some s
    → s.app_id ≢ app
    → (reserve_start path app r ≡ err another_application)
      × ((source : CastSource) (cursor persist : ℕ) (grant : Option (ℕ × Text))
          → ¬ IsOk (mark_sources_selected path app source cursor persist grant r))
unfolding reserve_start mark_sources_selected
foreign_application path app s r e other = (
  ground (arith, text_eq_iff s.app_id app),
  λ source cursor persist grant (q, h). ground (arith, text_eq_iff s.app_id app),
)

-- The session at `path` is armed for `app` with the selection `sel`.
pub record IsArmed (path app : Text) (sel : StartSelection) (r : SessionRegistry) : Type 0 where
  pub session : CastSession
  pub found : lookup path r.sessions ≡ some session
  pub owner : session.app_id ≡ app
  pub selected : session.sources_selected ≡ true
  pub same : selection_of session ≡ sel

-- A history of calls that does not remove the session at `path`. A cast is installed into any
-- registered session, whether a start is reserved there or not.
pub data Keeps (path : Text) (r : SessionRegistry) : SessionRegistry → Type 0 where
  here : Keeps path r r
  next :
      {p q : SessionRegistry}
      → Keeps path r p
      → Call p q
      → ((s : CastSession) → lookup path p.sessions ≡ some s → lookup path q.sessions ≢ none)
      → Keeps path r q
  installs :
      {p q : SessionRegistry}
      → Keeps path r p
      → (k : Text) (stop thread : ℕ) → mark_started k stop thread p ≡ ok q
      → Keeps path r q

module _ (path app : Text) (sel : StartSelection) where
  -- A write at `k` that keeps the owner, the selection and the armed mark.
  adjust-IsArmed :
      (k : Text) (f : CastSession → CastSession) (r : SessionRegistry)
      → ((s : CastSession)
          → ((f s).app_id ≡ s.app_id)
            × ((f s).sources_selected ≡ s.sources_selected)
            × (selection_of (f s) ≡ selection_of s))
      → IsArmed path app sel r
      → IsArmed path app sel (record { sessions = adjust k f r.sessions })
  adjust-IsArmed k f r keep a = elim (Bool-cases (text_eq k path)) [
    | inl same ↦ record {
      session = f a.session;
      found = ground (arith, lookup-adjust k path f r.sessions, a.found);
      owner = (keep a.session).0 ∙ a.owner;
      selected = (keep a.session).1 ∙ a.selected;
      same = (keep a.session).2 ∙ a.same;
    }
    | inr other ↦ record {
      session = a.session;
      found = ground (arith, lookup-adjust k path f r.sessions, a.found);
      owner = a.owner;
      selected = a.selected;
      same = a.same;
    }
  ]

  -- The armed session itself is not written.
  untouched-IsArmed :
      (r q : SessionRegistry)
      → lookup path q.sessions ≡ lookup path r.sessions
      → IsArmed path app sel r
      → IsArmed path app sel q
  untouched-IsArmed r q e a = record {
    session = a.session;
    found = e ∙ a.found;
    owner = a.owner;
    selected = a.selected;
    same = a.same;
  }

  inserts-untouched :
      (k app' : Text) (r q : SessionRegistry)
      → IsArmed path app sel r
      → insert_session k app' r ≡ ok q
      → lookup path q.sessions ≡ lookup path r.sessions
  unfolding insert_session
  inserts-untouched k app' r q a h =
      ground
        (arith, lookup-insert k path (fresh_session app') r.sessions, text_eq_iff k path, a.found)

  selects-untouched :
      (k app' : Text) (source : CastSource) (cursor persist : ℕ) (grant : Option (ℕ × Text))
      (r q : SessionRegistry)
      → IsArmed path app sel r
      → mark_sources_selected k app' source cursor persist grant r ≡ ok q
      → lookup path q.sessions ≡ lookup path r.sessions
  unfolding mark_sources_selected
  selects-untouched k app' source cursor persist grant r q a h = ground (
    arith,
    lookup-adjust k path (arm source cursor persist grant) r.sessions,
    text_eq_iff k path,
    a.found,
    a.selected,
  )

  reserves-IsArmed :
      (k app' : Text) (sel' : StartSelection) (r q : SessionRegistry)
      → IsArmed path app sel r
      → reserve_start k app' r ≡ ok (q, sel')
      → IsArmed path app sel q
  reserves-IsArmed k app' sel' r q a h =
      let (s, m, e, f) = (reserve_start_iff k app' r q sel').0 h in
      rw f (adjust-IsArmed k (set_starting true) r (λ s. (refl, refl, refl)) a)

  starts-IsArmed :
      (k : Text) (stop thread : ℕ) (r q : SessionRegistry)
      → IsArmed path app sel r
      → mark_started k stop thread r ≡ ok q
      → IsArmed path app sel q
  unfolding mark_started
  starts-IsArmed k stop thread r q a h =
      let e : q ≡ record { sessions = adjust k (install stop thread) r.sessions } = ground arith in
      rw e (adjust-IsArmed k (install stop thread) r (λ s. (refl, refl, refl)) a)

  removes-untouched :
      (k : Text) (r : SessionRegistry)
      → IsArmed path app sel r
      → lookup path (remove k r).0.sessions ≢ none
      → lookup path (remove k r).0.sessions ≡ lookup path r.sessions
  unfolding remove
  removes-untouched k r a present = ground (arith, lookup-erase k path r.sessions)

  Call-IsArmed :
      {r q : SessionRegistry}
      → Call r q
      → lookup path q.sessions ≢ none
      → IsArmed path app sel r
      → IsArmed path app sel q
  unfolding clear_start
  Call-IsArmed {r} {q} (inserts k app' h) p a =
      untouched-IsArmed r q (inserts-untouched k app' r q a h) a
  Call-IsArmed {r} {q} (selects k app' source cursor persist grant h) p a =
      untouched-IsArmed r q (selects-untouched k app' source cursor persist grant r q a h) a
  Call-IsArmed {r} {q} (reserves k app' sel' h) p a = reserves-IsArmed k app' sel' r q a h
  Call-IsArmed {r} {q} (clears k e) p a =
      rw e (adjust-IsArmed k (set_starting false) r (λ s. (refl, refl, refl)) a)
  Call-IsArmed {r} {q} (starts k stop thread s e on h) p a = starts-IsArmed k stop thread r q a h
  Call-IsArmed {r} {q} (removes k e) p a =
      untouched-IsArmed r q
        (rw e (
          removes-untouched k r a
            (λ n. p (ap (λ (x : SessionRegistry). lookup path x.sessions) e ∙ n))))
        a

  Keeps-IsArmed :
      {r q : SessionRegistry} → IsArmed path app sel r → Keeps path r q → IsArmed path app sel q
  Keeps-IsArmed a here = a
  Keeps-IsArmed a (next k c stays) =
      let b = Keeps-IsArmed a k in Call-IsArmed c (stays b.session b.found) b
  Keeps-IsArmed {r} a (installs {p} {q} k j stop thread h) =
      starts-IsArmed j stop thread p q (Keeps-IsArmed a k) h

mark_sources_selected-IsArmed :
    (path app : Text) (source : CastSource) (cursor persist : ℕ) (grant : Option (ℕ × Text))
    (r q : SessionRegistry)
    → mark_sources_selected path app source cursor persist grant r ≡ ok q
    → IsArmed path app
        (record {
          source = source;
          cursor_mode = cursor;
          requested_persist_mode = persist;
          persist_grant = grant;
        })
        q
unfolding mark_sources_selected
mark_sources_selected-IsArmed path app source cursor persist grant r q h =
    let f : CastSession → CastSession = arm source cursor persist grant in
    elim (Option-cases (lookup path r.sessions)) [
      | inl e ↦ absurd (ground (arith, e))
      | inr (s, e) ↦ record {
        session = f s;
        found = ground (arith, e, lookup-adjust path path f r.sessions, text_eq_refl path);
        owner = ground (arith, e, text_eq_iff s.app_id app);
        selected = refl;
        same = refl;
      }
    ]

-- What is selected is what starts: once `mark_sources_selected` succeeds, then after any history
-- of registry calls, by any applications, through which the session stays registered, and in which
-- casts are installed into any registered sessions, a successful `reserve_start` returns exactly
-- the source, cursor mode, requested persistence and grant that were selected, and only to the
-- application that selected them.
pub select-reserve :
    (path app app' : Text) (source : CastSource) (cursor persist : ℕ) (grant : Option (ℕ × Text))
    (r q p p' : SessionRegistry) (sel : StartSelection)
    → mark_sources_selected path app source cursor persist grant r ≡ ok q
    → Keeps path q p
    → reserve_start path app' p ≡ ok (p', sel)
    → (sel ≡ record {
      source = source;
      cursor_mode = cursor;
      requested_persist_mode = persist;
      persist_grant = grant;
    })
      × (app' ≡ app)
select-reserve path app app' source cursor persist grant r q p p' sel h k g =
    let a =
      Keeps-IsArmed path app _
        (mark_sources_selected-IsArmed path app source cursor persist grant r q h) k in
    let (s, m, e, _) = reserve_start-MayStart path app' p g in
    let eq : a.session ≡ s = ground (arith, a.found, m.0) in
    (
      e ∙ sym (ap selection_of eq) ∙ a.same,
      sym m.1 ∙ ap (λ (x : CastSession). x.app_id) (sym eq) ∙ a.owner,
    )

-- Installing a cast in a registered session and removing the session hands back a session whose
-- teardown closes that cast's stop socket before it joins that cast's thread; the session is then
-- gone, and installing into it again gives the new handles back.
pub start-remove :
    (path : Text) (stop thread stop' thread' : ℕ) (s : CastSession) (r : SessionRegistry)
    → lookup path r.sessions ≡ some s
    → (q : SessionRegistry) × (mark_started path stop thread r ≡ ok q)
      × ((t : CastSession) × ((remove path q).1 ≡ some t)
          × (stop_cast t ≡ dropped stop ∷ joined thread ∷ []))
      × (lookup path (remove path q).0.sessions ≡ none)
      × (mark_started path stop' thread' (remove path q).0 ≡ err (stop', thread'))
unfolding mark_started remove stop_cast
start-remove path stop thread stop' thread' s r e = (
  record { sessions = adjust path (install stop thread) r.sessions },
  rw e refl,
  (
    install stop thread s,
    ground (arith, e, lookup-adjust path path (install stop thread) r.sessions, text_eq_refl path),
    refl,
  ),
  ground (
    arith,
    text_eq_refl path,
    lookup-erase path path (adjust path (install stop thread) r.sessions),
  ),
  ground (
    arith,
    text_eq_refl path,
    lookup-erase path path (adjust path (install stop thread) r.sessions),
  ),
)
