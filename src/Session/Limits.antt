-- ===== src/Session/Limits.antt =====
-- session.rs: the bounds on sessions and on live casts, over every history of registry calls.
use xdg_desktop_portal_aegis.Prelude.{
  ℕ, suc, ◌+◌, ◌≤◌, ◌≡◌, refl, true, false, Option, some, inl, inr, Text, if◌then◌else◌,
  Option-cases, length, Map, lookup, adjust, count_if, AllValues, AllValues-insert, AllValues-erase,
  AllValues-adjust, AllValues-lookup, length-insert, length-erase-le, length-adjust,
  count_if-insert, count_if-erase-le, count_if-adjust, adjust_missing, lookup-adjust, text_eq_refl,
  ok, arith,
}
use xdg_desktop_portal_aegis.Session.Registry.{
  CastSource, StartSelection, CastSession, SessionRegistry, max_sessions, max_live_casts,
  fresh_session, empty_registry, is_live, arm, set_starting, install, insert_session,
  mark_sources_selected, reserve_start, clear_start, mark_started, remove,
}

-- A session that is starting or casting has selected its sources.
pub record IsSound (s : CastSession) : Type 0 where
  pub armed : is_live s ≡ true → s.sources_selected ≡ true

pub record IsBounded (r : SessionRegistry) : Type 0 where
  pub within : length r.sessions ≤ max_sessions
  pub live_within : count_if is_live r.sessions ≤ max_live_casts
  pub sound : AllValues IsSound r.sessions

-- One registry call by any client. A cast is installed for a reservation that still stands.
pub data Call (r : SessionRegistry) : SessionRegistry → Type 0 where
  inserts : (path app : Text) {q : SessionRegistry} → insert_session path app r ≡ ok q → Call r q
  selects :
      (path app : Text) (source : CastSource) (cursor persist : ℕ) (grant : Option (ℕ × Text))
      {q : SessionRegistry}
      → mark_sources_selected path app source cursor persist grant r ≡ ok q
      → Call r q
  reserves :
      (path app : Text) {q : SessionRegistry} (sel : StartSelection)
      → reserve_start path app r ≡ ok (q, sel)
      → Call r q
  clears : (path : Text) {q : SessionRegistry} → q ≡ clear_start path r → Call r q
  starts :
      (path : Text) (stop thread : ℕ) (s : CastSession) {q : SessionRegistry}
      → lookup path r.sessions ≡ some s
      → s.starting ≡ true
      → mark_started path stop thread r ≡ ok q
      → Call r q
  removes : (path : Text) {q : SessionRegistry} → q ≡ (remove path r).0 → Call r q

pub data Reaches (r : SessionRegistry) : SessionRegistry → Type 0 where
  here : Reaches r r
  next : {p q : SessionRegistry} → Reaches r p → Call p q → Reaches r q

-- A write at one key changes the live count by what it does to that session.
live-adjust :
    (path : Text) (f : CastSession → CastSession) (s : CastSession) (m : Map CastSession)
    → lookup path m ≡ some s
    → count_if is_live (adjust path f m) + (if is_live s then 1 else 0)
      ≡ count_if is_live m + (if is_live (f s) then 1 else 0)
live-adjust path f s m h = count_if-adjust is_live path f s m h

adjust-IsBounded :
    (path : Text) (f : CastSession → CastSession) (s : CastSession) (r : SessionRegistry)
    → lookup path r.sessions ≡ some s
    → IsBounded r
    → IsSound (f s)
    → count_if is_live r.sessions + (if is_live (f s) then 1 else 0)
      ≤ max_live_casts + (if is_live s then 1 else 0)
    → IsBounded (record { sessions = adjust path f r.sessions })
adjust-IsBounded path f s r e b h room = record {
  within = omega (arith, length-adjust path f r.sessions);
  live_within = omega (arith, live-adjust path f s r.sessions e);
  sound = AllValues-adjust IsSound path f s r.sessions e h b.sound;
}

insert-IsBounded :
    (path app : Text) (r q : SessionRegistry)
    → IsBounded r
    → insert_session path app r ≡ ok q
    → IsBounded q
unfolding insert_session
insert-IsBounded path app r q b h = elim (Option-cases (lookup path r.sessions)) [
  | inl e ↦ ground (
    arith,
    e,
    length-insert path (fresh_session app) r.sessions,
    count_if-insert is_live path (fresh_session app) r.sessions e,
    AllValues-insert IsSound path (fresh_session app) r.sessions
        (record { armed = λ (x : is_live (fresh_session app) ≡ true). ground arith }) b.sound,
  )
  | inr (s, e) ↦ ground (arith, e)
]

selects-IsBounded :
    (path app : Text) (source : CastSource) (cursor persist : ℕ) (grant : Option (ℕ × Text))
    (r q : SessionRegistry)
    → IsBounded r
    → mark_sources_selected path app source cursor persist grant r ≡ ok q
    → IsBounded q
unfolding mark_sources_selected
selects-IsBounded path app source cursor persist grant r q b h =
    let f : CastSession → CastSession = arm source cursor persist grant in
    elim (Option-cases (lookup path r.sessions)) [
      | inl e ↦ ground (arith, e)
      | inr (s, e) ↦ ground (arith, e, adjust-IsBounded path f s r)
    ]

-- A reservation is given only while there is room for one more cast.
reserves-IsBounded :
    (path app : Text) (sel : StartSelection) (r q : SessionRegistry)
    → IsBounded r
    → reserve_start path app r ≡ ok (q, sel)
    → IsBounded q
unfolding reserve_start
reserves-IsBounded path app sel r q b h = elim (Option-cases (lookup path r.sessions)) [
  | inl e ↦ ground (arith, e)
  | inr (s, e) ↦ ground (arith, e, adjust-IsBounded path (set_starting true) s r)
]

clears-IsBounded :
    (path : Text) (r : SessionRegistry) → IsBounded r → IsBounded (clear_start path r)
unfolding clear_start
clears-IsBounded path r b = elim (Option-cases (lookup path r.sessions)) [
  | inl e ↦ rw (adjust_missing path (set_starting false) r.sessions e) b
  | inr (s, e) ↦ ground (
    arith,
    e,
    AllValues-lookup IsSound path s r.sessions b.sound e,
    adjust-IsBounded path (set_starting false) s r,
  )
]

starts-IsBounded :
    (path : Text) (stop thread : ℕ) (s : CastSession) (r q : SessionRegistry)
    → IsBounded r
    → lookup path r.sessions ≡ some s
    → s.starting ≡ true
    → mark_started path stop thread r ≡ ok q
    → IsBounded q
unfolding mark_started
starts-IsBounded path stop thread s r q b e on h = ground (
  arith,
  AllValues-lookup IsSound path s r.sessions b.sound e,
  adjust-IsBounded path (install stop thread) s r,
)

removes-IsBounded : (path : Text) (r : SessionRegistry) → IsBounded r → IsBounded (remove path r).0
unfolding remove
removes-IsBounded path r b = record {
  within = omega (arith, length-erase-le path r.sessions);
  live_within = omega (arith, count_if-erase-le is_live path r.sessions);
  sound = AllValues-erase IsSound path r.sessions b.sound;
}

Call-IsBounded : {r q : SessionRegistry} → Call r q → IsBounded r → IsBounded q
Call-IsBounded {r} {q} (inserts path app h) b = insert-IsBounded path app r q b h
Call-IsBounded {r} {q} (selects path app source cursor persist grant h) b =
    selects-IsBounded path app source cursor persist grant r q b h
Call-IsBounded {r} {q} (reserves path app sel h) b = reserves-IsBounded path app sel r q b h
Call-IsBounded {r} {q} (clears path e) b = rw e (clears-IsBounded path r b)
Call-IsBounded {r} {q} (starts path stop thread s e on h) b =
    starts-IsBounded path stop thread s r q b e on h
Call-IsBounded {r} {q} (removes path e) b = rw e (removes-IsBounded path r b)

empty-IsBounded : IsBounded empty_registry
unfolding count_if
empty-IsBounded = record { within = omega arith; live_within = omega arith; sound = tt }

-- After any history of registry calls that starts from the empty registry, and in which a cast is
-- installed only into a session whose reservation still stands, there are at most 128 sessions,
-- at most 16 of them starting or casting, and each of those has selected its sources.
pub Reaches-IsBounded : {q : SessionRegistry} → Reaches empty_registry q → IsBounded q
Reaches-IsBounded here = empty-IsBounded
Reaches-IsBounded (next h c) = Call-IsBounded c (Reaches-IsBounded h)

-- Installing a cast into a session that is there and neither starting nor casting succeeds and
-- raises the count of live casts by one, whatever the count was and whether or not the session
-- has selected sources: `mark_started` checks neither the reservation nor the limit.
pub mark_started_unreserved :
    (path : Text) (stop thread : ℕ) (s : CastSession) (r : SessionRegistry)
    → lookup path r.sessions ≡ some s
    → is_live s ≡ false
    → (q : SessionRegistry) × (mark_started path stop thread r ≡ ok q)
      × (count_if is_live q.sessions ≡ suc (count_if is_live r.sessions))
      × (lookup path q.sessions ≡ some (install stop thread s))
unfolding mark_started
mark_started_unreserved path stop thread s r e idle = (
  record { sessions = adjust path (install stop thread) r.sessions },
  rw e refl,
  ground (arith, live-adjust path (install stop thread) s r.sessions e),
  ground (arith, lookup-adjust path path (install stop thread) r.sessions, text_eq_refl path),
)
