-- ===== src/Notification/Live.antt =====
-- notification.rs: `LiveNotifications`. The list of an application's ids has the oldest first.
use xdg_desktop_portal_aegis.Prelude.{
  ℕ, ◌+◌, Bool, false, Option, none, some, List, [], ◌∷◌, ◌++◌, Text, text_eq, has_text, ltb,
  if◌then◌else◌, unwrap_or, length, Map, lookup, insert, erase,
}

abbrev pub max_ids_per_app : ℕ
max_ids_per_app = 64

abbrev pub max_total_ids : ℕ
max_total_ids = 256

abbrev pub Live : Type 0
Live = Map (List Text)

unfoldable pub total : Live → ℕ
total [] = 0
total ((app, ids) ∷ m) = length ids + total m

-- `pop_front` above the cap: the queue after it, and the id that was taken out.
abbrev pub cap_queue : List Text → List Text × Option Text
cap_queue [] = ([], none)
cap_queue (t ∷ ts) = if ltb max_ids_per_app (length (t ∷ ts)) then (ts, some t) else (t ∷ ts, none)

abbrev pub push_new : Text → List Text → List Text
push_new id ids = if has_text id ids then ids else ids ++ id ∷ []

unfoldable pub track : Text → Text → Live → Live × Option Text
track app id m =
    let capped = cap_queue (push_new id (unwrap_or [] (lookup app m))) in
    (insert app capped.0 m, capped.1)

-- `VecDeque::remove` at the position of the first equal id.
unfoldable pub remove_first : Text → List Text → List Text
remove_first id [] = []
remove_first id (t ∷ ts) = if text_eq t id then ts else t ∷ remove_first id ts

abbrev pub put_back : Text → List Text → Live → Live
put_back app [] m = erase app m
put_back app (t ∷ ts) m = insert app (t ∷ ts) m

unfoldable pub remove : Text → Text → Live → Live × Bool
unfolding remove_first
remove app id m = elim (lookup app m) [
  | none ↦ (m, false)
  | some ids ↦ (put_back app (remove_first id ids) m, has_text id ids)
]

unfoldable pub clear : Live → Live × ℕ
clear m = ([], total m)

-- Whether an application's id is in the book.
abbrev pub tracked : Text → Text → Live → Bool
tracked app id m = has_text id (unwrap_or [] (lookup app m))
