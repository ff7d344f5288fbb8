-- ===== src/Notification/LiveLaws.antt =====
-- notification.rs: the caps of `LiveNotifications`.
use xdg_desktop_portal_aegis.Prelude.{
  suc, ◌+◌, ◌≤◌, ◌<◌, Option, none, some, List, [], ◌∷◌, ◌≡◌, refl, unwrap_or, length, Text, lookup,
  insert, erase, AllValues, AllValues-insert, AllValues-erase, AllValues-lookup, arith,
  length-append,
}
use xdg_desktop_portal_aegis.Notification.Live.{
  Live, max_ids_per_app, max_total_ids, total, cap_queue, push_new, track, remove_first, put_back,
  remove, clear,
}

total-insert :
    (k : Text) (v : List Text) (m : Live)
    → total (insert k v m) + length (unwrap_or [] (lookup k m)) ≡ total m + length v
unfolding total insert lookup
total-insert k v [] = ground arith
total-insert k v ((i, w) ∷ m) = ground (arith, total-insert k v m)

total-erase-le : (k : Text) (m : Live) → total (erase k m) ≤ total m
unfolding total erase
total-erase-le k [] = omega arith
total-erase-le k ((i, w) ∷ m) = ground (arith, total-erase-le k m)

length-remove_first-le : (id : Text) (ids : List Text) → length (remove_first id ids) ≤ length ids
unfolding remove_first
length-remove_first-le id [] = omega arith
length-remove_first-le id (t ∷ ts) = ground (arith, length-remove_first-le id ts)

abbrev pub IsShort : List Text → Type 0
IsShort ids = length ids ≤ max_ids_per_app

-- Sixty-four ids of an application, 256 of all of them.
pub record IsWithinCaps (m : Live) : Type 0 where
  pub per_app : AllValues IsShort m
  pub in_total : total m ≤ max_total_ids

length-cap_queue :
    (id : Text) (ids : List Text)
    → length ids ≤ max_ids_per_app
    → (length (cap_queue (push_new id ids)).0 ≤ max_ids_per_app)
      × (length (cap_queue (push_new id ids)).0 ≤ suc (length ids))
length-cap_queue id [] h = ground arith
length-cap_queue id (t ∷ ts) h = ground (arith, length-append ts (id ∷ []))

short_found :
    (app : Text) (m : Live) (found : Option (List Text))
    → lookup app m ≡ found
    → IsWithinCaps m
    → length (unwrap_or [] found) ≤ max_ids_per_app
short_found app m none e w = omega arith
short_found app m (some v) e w = AllValues-lookup IsShort app v m w.per_app e

short_lookup :
    (app : Text) (m : Live)
    → IsWithinCaps m
    → length (unwrap_or [] (lookup app m)) ≤ max_ids_per_app
short_lookup app m w = short_found app m (lookup app m) refl w

pub track-IsWithinCaps :
    (app id : Text) (m : Live)
    → IsWithinCaps m
    → total m < max_total_ids
    → IsWithinCaps (track app id m).0
unfolding track
track-IsWithinCaps app id m w h =
    let ids : List Text = unwrap_or [] (lookup app m) in
    let capped = length-cap_queue id ids (short_lookup app m w) in
    record {
      per_app = AllValues-insert IsShort app (cap_queue (push_new id ids)).0 m capped.0 w.per_app;
      in_total = omega (arith, total-insert app (cap_queue (push_new id ids)).0 m, capped.1, h);
    }

put_back-IsWithinCaps :
    (app : Text) (ids kept : List Text) (m : Live)
    → lookup app m ≡ some ids
    → length kept ≤ length ids
    → IsWithinCaps m
    → IsWithinCaps (put_back app kept m)
put_back-IsWithinCaps app ids [] m e h w = record {
  per_app = AllValues-erase IsShort app m w.per_app;
  in_total = omega (arith, total-erase-le app m, w.in_total);
}
put_back-IsWithinCaps app ids (t ∷ ts) m e h w =
    let short : length ids ≤ max_ids_per_app = AllValues-lookup IsShort app ids m w.per_app e in
    record {
      per_app = AllValues-insert IsShort app (t ∷ ts) m (omega (arith, h, short)) w.per_app;
      in_total = ground (arith, total-insert app (t ∷ ts) m, h, w.in_total);
    }

remove_found :
    (app id : Text) (m : Live) (found : Option (List Text))
    → lookup app m ≡ found
    → IsWithinCaps m
    → IsWithinCaps (remove app id m).0
unfolding remove
remove_found app id m none e w = rw (e, remove) w
remove_found app id m (some ids) e w =
    rw (e, remove)
      (put_back-IsWithinCaps app ids (remove_first id ids) m e (length-remove_first-le id ids) w)

pub remove-IsWithinCaps :
    (app id : Text) (m : Live) → IsWithinCaps m → IsWithinCaps (remove app id m).0
remove-IsWithinCaps app id m w = remove_found app id m (lookup app m) refl w

pub clear-IsWithinCaps : (m : Live) → IsWithinCaps (clear m).0
unfolding clear total
clear-IsWithinCaps m = record { per_app = tt; in_total = omega arith }
