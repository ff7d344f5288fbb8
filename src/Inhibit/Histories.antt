-- ===== src/Inhibit/Histories.antt =====
-- inhibit.rs: what holds of the registry and of the open locks after any calls in any order.
use xdg_desktop_portal_aegis.Prelude.{
  ℕ, ◌≤◌, ◌<◌, ◌≡◌, refl, sym, ap, subst, inl, inr, false, not, Option, some, [], ◌∷◌, Text,
  Option-cases, Map, lookup, contains_key, text_eq, text_eq_iff, AllValues-erase, length-erase-le,
  length-retain-le, lookup-erase, total, Distinct-erase, total-erase, erase_absent, Result, ok,
  arith,
}
use xdg_desktop_portal_aegis.Runtime.Tracker.{insert_text, remove_text}
use xdg_desktop_portal_aegis.Runtime.TrackerLaws.{
  length-insert_text-le, has_text-insert_text, has_text-remove_text,
}
use xdg_desktop_portal_aegis.Inhibit.Registry.{
  InhibitError, InhibitRecord, InhibitRegistry, Portal, max_inhibit_objects, idle_portal, is_active,
  live, remove_request, add_monitor, remove_monitor, apply_inhibit,
}
use xdg_desktop_portal_aegis.Inhibit.Served.{
  drop_request, drop_monitor, with_registry, close_request, close_monitor,
}
use xdg_desktop_portal_aegis.Inhibit.RegistryLaws.{
  IsHonest, IsAccounted, holds, occurrences-release, apply_inhibit-IsAccounted,
}

AllValues-total :
    (fd : ℕ) (path : Text) (i : InhibitRecord) (m : Map InhibitRecord)
    → lookup path m ≡ some i
    → holds fd i ≤ total (holds fd) m
unfolding lookup total
AllValues-total fd path i [] h = absurd (ground (arith, h))
AllValues-total fd path i ((k, v) ∷ m) h = ground (arith, h, AllValues-total fd path i m)

drop_request-IsAccounted :
    (path : Text) (p : Portal) → IsAccounted p → IsAccounted (drop_request path p)
unfolding drop_request remove_request live
drop_request-IsAccounted path p a = record {
  within = ground (arith, a.within, length-erase-le path p.registry.requests);
  apart = λ asked known.
      ground (arith, a.apart asked, known, lookup-erase path asked p.registry.requests);
  unique = Distinct-erase path p.registry.requests a.unique;
  honest = AllValues-erase IsHonest path p.registry.requests a.honest;
  accounted = λ fd. elim (Option-cases (lookup path p.registry.requests)) [
    | inl e ↦ ground (arith, e, a.accounted fd, erase_absent path p.registry.requests e)
    | inr (i, e) ↦ ground (
      arith,
      e,
      a.accounted fd,
      total-erase (holds fd) path i p.registry.requests a.unique e,
      occurrences-release fd i.lock p.open_locks (λ d.
          subst (λ n. holds d i ≤ n) (sym (a.accounted d))
            (AllValues-total d path i p.registry.requests e)),
    )
  ];
}

drop_monitor-IsAccounted :
    (path : Text) (p : Portal) → IsAccounted p → IsAccounted (drop_monitor path p)
unfolding drop_monitor remove_monitor remove_text live
drop_monitor-IsAccounted path p a = record {
  within =
      ground (arith, a.within, length-retain-le (λ u. not (text_eq u path)) p.registry.monitors);
  apart = λ asked known.
      unfold remove_text in
      ground (arith, a.apart asked known, has_text-remove_text asked path p.registry.monitors);
  unique = a.unique;
  honest = a.honest;
  accounted = a.accounted;
}

add_monitor-IsAccounted :
    (path : Text) (p : Portal) (r : InhibitRegistry)
    → add_monitor path p.registry ≡ ok r
    → IsAccounted p
    → IsAccounted (with_registry r p)
unfolding add_monitor
add_monitor-IsAccounted path p r h a =
    let free : is_active path p.registry ≡ false = ground (arith, h) in
    let room : live p.registry < max_inhibit_objects = ground (arith, h) in
    let shape : record {
      requests = p.registry.requests;
      monitors = insert_text path p.registry.monitors;
    }
        ≡ r =
      ground (arith, h) in
    subst (λ q. IsAccounted (with_registry q p)) shape
      (record {
        within =
            unfold live in ground (arith, room, length-insert_text-le path p.registry.monitors);
        apart = λ asked known. ground (
          arith,
          a.apart asked known,
          known,
          free,
          text_eq_iff path asked,
          has_text-insert_text asked path p.registry.monitors,
          ap (λ t. contains_key t p.registry.requests),
        );
        unique = a.unique;
        honest = a.honest;
        accounted = a.accounted;
      })

-- One call by any client or by the object server, each under the registry's lock: `begins` and
-- `withdraws` are the two halves of a served `Inhibit`, between which other calls may come.
pub data Call (p : Portal) : Portal → Type 0 where
  begins :
      (inhibitor : Text → Text → Text → Text → Result InhibitError ℕ) (path app : Text) (flags : ℕ)
      (reason : Option Text)
      → Call p (apply_inhibit inhibitor path app flags reason p).1
  withdraws : (path : Text) → Call p (drop_request path p)
  closes : (path : Text) → Call p (close_request path p)
  monitors :
      (path : Text) (r : InhibitRegistry)
      → add_monitor path p.registry ≡ ok r
      → Call p (with_registry r p)
  monitor_withdraws : (path : Text) → Call p (drop_monitor path p)
  monitor_closes : (path : Text) → Call p (close_monitor path p)

pub data Reaches (p : Portal) : Portal → Type 0 where
  here : Reaches p p
  next : {q r : Portal} → Reaches p q → Call q r → Reaches p r

Call-IsAccounted : {p q : Portal} → IsAccounted p → Call p q → IsAccounted q
unfolding close_request close_monitor
Call-IsAccounted {p} a (begins inhibitor path app flags reason) =
    apply_inhibit-IsAccounted inhibitor path app flags reason p a
Call-IsAccounted {p} a (withdraws path) = drop_request-IsAccounted path p a
Call-IsAccounted {p} a (closes path) = drop_request-IsAccounted path p a
Call-IsAccounted {p} a (monitors path r h) = add_monitor-IsAccounted path p r h a
Call-IsAccounted {p} a (monitor_withdraws path) = drop_monitor-IsAccounted path p a
Call-IsAccounted {p} a (monitor_closes path) = drop_monitor-IsAccounted path p a

idle_portal-IsAccounted : IsAccounted idle_portal
unfolding live total
idle_portal-IsAccounted = record {
  within = omega arith;
  apart = λ path known. refl;
  unique = tt;
  honest = tt;
  accounted = λ fd. refl;
}

-- Whatever calls come, in whatever order and interleaved with each other: at most 64 requests and
-- monitors are live, no path is both, each path is requested once, a request holds a logind lock
-- exactly if one of its flags is idle or suspend, and each descriptor is open as often as the
-- recorded requests hold it: no lock is open without a recorded request, and none is closed under
-- one. Whether a recorded request still has an object by which it can be closed is not stated.
pub Reaches-IsAccounted : {p : Portal} → Reaches idle_portal p → IsAccounted p
Reaches-IsAccounted here = idle_portal-IsAccounted
Reaches-IsAccounted (next run call) = Call-IsAccounted (Reaches-IsAccounted run) call
