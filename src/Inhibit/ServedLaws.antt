-- ===== src/Inhibit/ServedLaws.antt =====
-- inhibit.rs: what a served `Inhibit` leaves behind where it fails.
use xdg_desktop_portal_aegis.Prelude.{
  ℕ, ◌≡◌, ◌≢◌, refl, sym, ap, subst, ◌∙◌, inl, inr, true, false, Option, none, Text, text_eq_refl,
  Option-cases, Map, lookup, lookup-insert, erase-insert, contains_key, Result, ok, err, arith,
}
use xdg_desktop_portal_aegis.Runtime.Tracker.{AtAnswer, exported, occupied, at_failed}
use xdg_desktop_portal_aegis.Screencast.Options.{Variant}
use xdg_desktop_portal_aegis.Inhibit.Registry.{
  InhibitError, server_failed, InhibitRecord, Portal, is_active, remove_request, apply_inhibit,
  parse_reason,
}
use xdg_desktop_portal_aegis.Inhibit.Served.{
  drop_request, export_request, then_export, with_reason, inhibit,
}
use xdg_desktop_portal_aegis.Inhibit.RegistryLaws.{
  with_request, record_of, record_inhibit_cases, apply_inhibit_cases, release-hold,
}

absent_request :
    (path : Text) (p : Portal)
    → is_active path p.registry ≡ false
    → lookup path p.registry.requests ≡ none
absent_request path p free = elim (Option-cases (lookup path p.registry.requests)) [
  | inl e ↦ e
  | inr (j, e) ↦ absurd (ground (arith, free, e))
]

-- Dropping the request that was just recorded brings back the portal before it.
drop_request-with_request :
    (path : Text) (i : InhibitRecord) (p : Portal)
    → is_active path p.registry ≡ false
    → drop_request path (with_request path i p) ≡ p
unfolding drop_request remove_request
drop_request-with_request path i p free =
    let absent = absent_request path p free in
    ground (
      arith,
      lookup-insert path path i p.registry.requests,
      text_eq_refl path,
      erase-insert path i p.registry.requests absent,
      release-hold i.lock p.open_locks,
    )

module _ (inhibitor : Text → Text → Text → Text → Result InhibitError ℕ) where
  -- `apply_inhibit` succeeds by recording the request, with its lock, at a free path.
  apply_inhibit_ok :
      (path app : Text) (flags : ℕ) (reason : Option Text) (p q : Portal)
      → apply_inhibit inhibitor path app flags reason p ≡ (ok tt, q)
      → (lock : Option ℕ) × (q ≡ with_request path (record_of app flags lock) p)
        × (is_active path p.registry ≡ false)
  apply_inhibit_ok path app flags reason p q h =
      elim (apply_inhibit_cases inhibitor path app flags reason p) [
        | inl (m, e) ↦ absurd (ground (arith, h, e))
        | inr (lock, honest, e) ↦ elim (record_inhibit_cases path app flags lock p) [
          | inl (m, f) ↦ absurd (ground (arith, h, e, f))
          | inr (f, free, room) ↦ (lock, ap (λ x. x.1) (sym h ∙ e ∙ f), free)
        ]
      ]

  -- A served `Inhibit` that answers with an error leaves the registry and the open locks as they
  -- were, if the object server answers at all.
  pub inhibit_failed :
      (answer : AtAnswer) (path app : Text) (flags : ℕ) (options : Map Variant) (p : Portal)
      (m : InhibitError)
      → ((message : Text) → answer ≢ at_failed message)
      → (inhibit inhibitor answer path app flags options p).0 ≡ err m
      → (inhibit inhibitor answer path app flags options p).1 ≡ p
  unfolding inhibit
  inhibit_failed answer path app flags options p m up h =
      reason_failed (parse_reason options) answer up h
    where
      exported_failed :
          (reason : Option Text) (q : Portal) (answer : AtAnswer)
          → apply_inhibit inhibitor path app flags reason p ≡ (ok tt, q)
          → ((message : Text) → answer ≢ at_failed message)
          → (export_request answer path q).0 ≡ err m
          → (export_request answer path q).1 ≡ p
      exported_failed reason q (at_failed message) e up h = absurd (up message refl)
      exported_failed reason q exported e up h = absurd (unfold export_request in ground (arith, h))
      exported_failed reason q occupied e up h =
          let (lock, shape, free) = apply_inhibit_ok path app flags reason p q e in
          unfold export_request in
          ap (drop_request path) shape
          ∙ drop_request-with_request path (record_of app flags lock) p free

      applied_failed :
          (reason : Option Text) (r : Result InhibitError (Unit {0}) × Portal) (answer : AtAnswer)
          → apply_inhibit inhibitor path app flags reason p ≡ r
          → ((message : Text) → answer ≢ at_failed message)
          → (then_export answer path r).0 ≡ err m
          → (then_export answer path r).1 ≡ p
      applied_failed reason (ok done, q) answer e up h = exported_failed reason q answer e up h
      applied_failed reason (err n, q) answer e up h =
          elim (apply_inhibit_cases inhibitor path app flags reason p) [
            | inl (k, f) ↦ ap (λ x. x.1) (sym e ∙ f)
            | inr (lock, honest, f) ↦ elim (record_inhibit_cases path app flags lock p) [
              | inl (k, g) ↦ ap (λ x. x.1) (sym e ∙ f ∙ g)
              | inr (g, free, room) ↦ absurd (ground (arith, e, f, g))
            ]
          ]

      reason_failed :
          (r : Result InhibitError (Option Text)) (answer : AtAnswer)
          → ((message : Text) → answer ≢ at_failed message)
          → (with_reason inhibitor answer path app flags r p).0 ≡ err m
          → (with_reason inhibitor answer path app flags r p).1 ≡ p
      reason_failed (err e) answer up h = refl
      reason_failed (ok reason) answer up h =
          applied_failed reason (apply_inhibit inhibitor path app flags reason p) answer refl up h

  -- Where the object server fails instead, the call answers with an error too, but the request
  -- stays recorded with its lock and keeps its path, and no object is there to close it.
  pub inhibit_leaked :
      (message path app : Text) (flags : ℕ) (options : Map Variant) (reason : Option Text)
      (p q : Portal)
      → parse_reason options ≡ ok reason
      → apply_inhibit inhibitor path app flags reason p ≡ (ok tt, q)
      → (inhibit inhibitor (at_failed message) path app flags options p
          ≡ (err (server_failed message), q))
        × (contains_key path q.registry.requests ≡ true)
  unfolding inhibit export_request
  inhibit_leaked message path app flags options reason p q parsed applied =
      let (lock, shape, free) = apply_inhibit_ok path app flags reason p q applied in
      (
        ground (arith, parsed, applied),
        subst (λ x. contains_key path x.registry.requests ≡ true) (sym shape)
            (ground (
              arith,
              lookup-insert path path (record_of app flags lock) p.registry.requests,
              text_eq_refl path,
            )),
      )
