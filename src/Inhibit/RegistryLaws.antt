-- ===== src/Inhibit/RegistryLaws.antt =====
-- inhibit.rs: what holds of the registry and of the open locks after any calls in any order.
use xdg_desktop_portal_aegis.Prelude.{
  ℕ, ◌+◌, ◌≤◌, ◌<◌, ◌≡◌, ◌⊎◌, refl, sym, ap, subst, inl, inr, Bool, true, false, not, ◌||◌, Option,
  none, some, List, [], ◌∷◌, Text, codes, is_empty, join, leb, ◌==◌, ==_iff, if◌then◌else◌, is_some,
  Bool-cases, Option-cases, Result-cases, lookup, insert, contains_key, has_text, AllValues,
  AllValues-insert, length-insert, lookup-insert, keys, total, Distinct, Distinct-insert,
  total-insert, text_eq_iff, Result, ok, err, arith,
}
use xdg_desktop_portal_aegis.Inhibit.Registry.{
  InhibitError, object_active, inhibit_limit, unsupported_flags, InhibitRecord, InhibitRegistry,
  Portal, max_inhibit_objects, inhibit_idle, inhibit_suspend, has_flag, has_unknown, is_active,
  live, add_request, logind_what, hold, release, drop_first, settle_request, record_inhibit, who_of,
  why_of, apply_inhibit,
}

-- The flags that logind can back.
abbrev pub is_backed : ℕ → Bool
is_backed flags = has_flag flags inhibit_idle || has_flag flags inhibit_suspend

-- A request holds a lock exactly if logind backs one of its flags.
abbrev pub IsHonest : InhibitRecord → Type 0
IsHonest i = is_some i.lock ≡ is_backed i.flags

abbrev pub occurrences : ℕ → List ℕ → ℕ
occurrences fd [] = 0
occurrences fd (x ∷ xs) = (if x == fd then 1 else 0) + occurrences fd xs

abbrev pub holds : ℕ → InhibitRecord → ℕ
holds fd i = occurrences fd (hold i.lock [])

pub record IsAccounted (p : Portal) : Type 0 where
  pub within : live p.registry ≤ max_inhibit_objects
  pub apart :
      (path : Text)
      → contains_key path p.registry.requests ≡ true
      → has_text path p.registry.monitors ≡ false
  pub unique : Distinct (keys p.registry.requests)
  pub honest : AllValues IsHonest p.registry.requests
  pub accounted : (fd : ℕ) → occurrences fd p.open_locks ≡ total (holds fd) p.registry.requests

-- The registry's part, which does not speak of descriptors.
add_request-within :
    (path app : Text) (flags : ℕ) (lock : Option ℕ) (r q : InhibitRegistry)
    → add_request path app flags lock r ≡ ok q
    → live q ≤ max_inhibit_objects
unfolding add_request live
add_request-within path app flags lock r q h =
    let i : InhibitRecord = record { app_id = app; flags = flags; lock = lock } in
    ground (arith, h, length-insert path i r.requests)

occurrences-hold :
    (fd : ℕ) (lock : Option ℕ) (fds : List ℕ)
    → occurrences fd (hold lock fds) ≡ occurrences fd (hold lock []) + occurrences fd fds
occurrences-hold fd none fds = omega arith
occurrences-hold fd (some d) fds = ground arith

occurrences-drop_first :
    (fd d : ℕ) (fds : List ℕ)
    → 1 ≤ occurrences d fds
    → occurrences fd (drop_first d fds) + (if d == fd then 1 else 0) ≡ occurrences fd fds
occurrences-drop_first fd d [] h = absurd (omega (arith, h))
occurrences-drop_first fd d (x ∷ xs) h = elim (Bool-cases (x == d)) [
  | inl e ↦ ground (arith, e, (==_iff x d).0 e)
  | inr e ↦ ground (arith, h, e, occurrences-drop_first fd d xs)
]

pub occurrences-release :
    (fd : ℕ) (lock : Option ℕ) (fds : List ℕ)
    → ((d : ℕ) → occurrences d (hold lock []) ≤ occurrences d fds)
    → occurrences fd (release lock fds) + occurrences fd (hold lock []) ≡ occurrences fd fds
occurrences-release fd none fds h = omega arith
occurrences-release fd (some d) fds h =
    let self = (==_iff d d).1 refl in
    ground (arith, occurrences-drop_first fd d fds (ground (arith, h d, self)))

pub release-hold : (lock : Option ℕ) (fds : List ℕ) → release lock (hold lock fds) ≡ fds
release-hold none fds = refl
release-hold (some d) fds = ground (arith, (==_iff d d).1 refl)

-- The portal with one more request.
abbrev pub with_request : Text → InhibitRecord → Portal → Portal
with_request path i p = record {
  registry = record {
    requests = insert path i p.registry.requests;
    monitors = p.registry.monitors;
  };
  open_locks = hold i.lock p.open_locks;
}

abbrev pub record_of : Text → ℕ → Option ℕ → InhibitRecord
record_of app flags lock = record { app_id = app; flags = flags; lock = lock }

-- A request is recorded with its lock, or nothing is kept of it.
pub record_inhibit_cases :
    (path app : Text) (flags : ℕ) (lock : Option ℕ) (p : Portal)
    → ((m : InhibitError) × (record_inhibit path app flags lock p ≡ (err m, p)))
      ⊎ ((record_inhibit path app flags lock p
            ≡ (ok tt, with_request path (record_of app flags lock) p))
          × (is_active path p.registry ≡ false)
          × (live p.registry < max_inhibit_objects))
unfolding record_inhibit settle_request add_request
record_inhibit_cases path app flags lock p = elim (Bool-cases (is_active path p.registry)) [
  | inl e ↦ inl (object_active path, ground (arith, e, release-hold lock p.open_locks))
  | inr e ↦ elim (Bool-cases (leb max_inhibit_objects (live p.registry))) [
    | inl full ↦ inl (inhibit_limit, ground (arith, e, full, release-hold lock p.open_locks))
    | inr room ↦ inr (ground (arith, e, room), e, ground (arith, room))
  ]
]

with_request-IsAccounted :
    (path : Text) (i : InhibitRecord) (p : Portal)
    → IsHonest i
    → is_active path p.registry ≡ false
    → live p.registry < max_inhibit_objects
    → IsAccounted p
    → IsAccounted (with_request path i p)
unfolding live
with_request-IsAccounted path i p honest free room a =
    let absent : lookup path p.registry.requests ≡ none =
      elim (Option-cases (lookup path p.registry.requests)) [
        | inl e ↦ e
        | inr (j, e) ↦ absurd (ground (arith, free, e))
      ] in
    record {
      within = ground (arith, room, length-insert path i p.registry.requests, absent);
      apart = λ asked known. ground (
        arith,
        a.apart asked,
        free,
        known,
        text_eq_iff path asked,
        lookup-insert path asked i p.registry.requests,
        ap (λ t. has_text t p.registry.monitors),
      );
      unique = Distinct-insert path i p.registry.requests absent a.unique;
      honest = AllValues-insert IsHonest path i p.registry.requests honest a.honest;
      accounted = λ fd. ground (
        arith,
        a.accounted fd,
        occurrences-hold fd i.lock p.open_locks,
        total-insert (holds fd) path i p.registry.requests absent,
      );
    }

record_inhibit-IsAccounted :
    (path app : Text) (flags : ℕ) (lock : Option ℕ) (p : Portal)
    → is_some lock ≡ is_backed flags
    → IsAccounted p
    → IsAccounted (record_inhibit path app flags lock p).1
record_inhibit-IsAccounted path app flags lock p honest a =
    elim (record_inhibit_cases path app flags lock p) [
      | inl (m, e) ↦ subst (λ x. IsAccounted x.1) (sym e) a
      | inr (e, free, room) ↦
          subst (λ x. IsAccounted x.1) (sym e)
            (with_request-IsAccounted path (record_of app flags lock) p honest free room a)
    ]

-- A lock is asked for exactly if logind backs one of the flags.
logind_what_backed : (flags : ℕ) → is_empty (logind_what flags) ≡ not (is_backed flags)
unfolding logind_what join
logind_what_backed flags = elim (Bool-cases (has_flag flags inhibit_idle)) [
  | inl idle ↦ elim (Bool-cases (has_flag flags inhibit_suspend)) [
    | inl suspend ↦ rw (idle, suspend) refl
    | inr suspend ↦ rw (idle, suspend) refl
  ]
  | inr idle ↦ elim (Bool-cases (has_flag flags inhibit_suspend)) [
    | inl suspend ↦ rw (idle, suspend) refl
    | inr suspend ↦ rw (idle, suspend) refl
  ]
]

module _ (inhibitor : Text → Text → Text → Text → Result InhibitError ℕ) where
  -- `apply_inhibit` refuses without a change, or records the request with or without a lock.
  pub apply_inhibit_cases :
      (path app : Text) (flags : ℕ) (reason : Option Text) (p : Portal)
      → ((m : InhibitError) × (apply_inhibit inhibitor path app flags reason p ≡ (err m, p)))
        ⊎ ((lock : Option ℕ) × (is_some lock ≡ is_backed flags)
            × (apply_inhibit inhibitor path app flags reason p
                ≡ record_inhibit path app flags lock p))
  unfolding apply_inhibit
  apply_inhibit_cases path app flags reason p =
      elim (Bool-cases (flags == 0 || has_unknown flags)) [
        | inl bad ↦ inl (unsupported_flags, rw bad refl)
        | inr good ↦ elim (Bool-cases (is_backed flags)) [
          | inr e ↦ inr (none, sym e, rw (good, logind_what_backed flags, e) refl)
          | inl e ↦
              elim (Result-cases
                (inhibitor (logind_what flags) (who_of app) (why_of reason) (codes "block"))) [
                  | inl (fd, got) ↦
                      inr (some fd, sym e, rw (good, logind_what_backed flags, e, got) refl)
                  | inr (m, failed) ↦ inl (m, rw (good, logind_what_backed flags, e, failed) refl)
                ]
        ]
      ]

  pub apply_inhibit-IsAccounted :
      (path app : Text) (flags : ℕ) (reason : Option Text) (p : Portal)
      → IsAccounted p
      → IsAccounted (apply_inhibit inhibitor path app flags reason p).1
  apply_inhibit-IsAccounted path app flags reason p a =
      elim (apply_inhibit_cases path app flags reason p) [
        | inl (m, e) ↦ subst (λ x. IsAccounted x.1) (sym e) a
        | inr (lock, honest, e) ↦
            subst (λ x. IsAccounted x.1) (sym e)
              (record_inhibit-IsAccounted path app flags lock p honest a)
      ]
