-- ===== src/Notification/Respawn.antt =====
-- notification.rs: deliveries to a daemon that lives and to one that has died.
use xdg_desktop_portal_aegis.Prelude.{
  ℕ, zero, suc, ◌≤◌, ◌<◌, Bool, true, false, none, some, List, [], ◌∷◌, ◌++◌, ◌≡◌, refl, leb, Text,
  text_eq_refl, has_text, unwrap_or, lookup, arith, lookup-insert, lookup-erase,
}
use xdg_desktop_portal_aegis.Notification.Live.{
  Live, max_total_ids, total, track, remove, clear, tracked, cap_queue, push_new, remove_first,
  put_back,
}
use xdg_desktop_portal_aegis.Notification.Parse.{Notification}
use xdg_desktop_portal_aegis.Notification.Daemon.{
  NotifyCommand, notify_card, close_card, set_appearance, Manager, still_running, exited, Answer,
  waits, spawns, writes, World, ◌>>=◌, pure, get, modify, ask_wait, ask_spawn, write_frame,
  start_daemon, send_once, send_with, notice_death, ensure_daemon, send, deliver, notify, close,
}

-- A daemon that dies each time right after it was spawned, `k` times over, and then fails to spawn.
abbrev pub crashes : ℕ → List Answer
crashes zero = spawns false ∷ []
crashes (suc k) = spawns true ∷ waits exited ∷ crashes k

abbrev pub idle : ℕ → Manager
idle a = record { running = false; live = []; appearance = some a; delivered = [] }

abbrev pub ran_out : ℕ → World
ran_out a = record { manager = idle a; script = [] }

-- The death of the new daemon, noticed.
second_round :
    (encodes : NotifyCommand → Bool) (f a : ℕ) (rest : List Answer) (b : Bool)
    → ensure_daemon encodes (suc f) (record { manager = idle a; script = rest })
      ≡ some (b, ran_out a)
    → send_once
        (ensure_daemon encodes (suc f))
        (set_appearance a)
        (record { manager = start_daemon (idle a); script = waits exited ∷ rest })
      ≡ some (some false, ran_out a)
unfolding ensure_daemon send_once ◌>>=◌ pure get modify ask_wait ask_spawn notice_death clear
second_round encodes f a rest true e = ground (arith, e)
second_round encodes f a rest false e = ground (arith, e)

-- Where no daemon runs, an appearance is remembered and can be encoded, and the processes answer
-- such that `k` daemons in a row are spawned and have exited when they are next asked, and the
-- spawn after them fails: one call of `ensure_daemon` meets all these answers and so spawns `k + 1`
-- times, for every `k`, the book of live ids being empty and the fuel enough for these calls. It
-- leaves no daemon, and answers that there is one exactly if `k` is not 0.
pub ensure_daemon_respawns :
    (encodes : NotifyCommand → Bool) (k f a : ℕ)
    → encodes (set_appearance a) ≡ true
    → k ≤ f
    → ensure_daemon encodes (suc f) (record { manager = idle a; script = crashes k })
      ≡ some (leb 1 k, record { manager = idle a; script = [] })
unfolding ensure_daemon send_with ◌>>=◌ pure get modify ask_wait ask_spawn notice_death clear
ensure_daemon_respawns encodes zero f a h le = refl
ensure_daemon_respawns encodes (suc k) (suc f) a h le =
    let once =
      second_round encodes f a (crashes k) (leb 1 k)
        (ensure_daemon_respawns encodes k f a h (omega (arith, le))) in
    ground (arith, h, once)
ensure_daemon_respawns encodes (suc k) zero a h le = absurd (omega (arith, le))

-- The book forgets what a new daemon has just been given: where the daemon has exited unnoticed, and
-- no appearance is to be sent, `notify` delivers the card and leaves no live id.
pub notify_forgets :
    (encodes : NotifyCommand → Bool) (f : ℕ) (n : Notification) (m : Manager) (rest : List Answer)
    → encodes (notify_card n) ≡ true
    → m.running ≡ true
    → m.appearance ≡ none
    → total m.live < max_total_ids
    → (track n.app_id n.id m.live).1 ≡ none
    → notify encodes
        (suc f)
        n
        (record { manager = m; script = waits exited ∷ spawns true ∷ writes true ∷ rest })
      ≡ some (
        tt,
        record {
          manager = record {
            running = true;
            live = [];
            appearance = none;
            delivered = notify_card n ∷ [];
          };
          script = rest;
        },
      )
unfolding notify deliver send ensure_daemon send_with send_once ◌>>=◌ pure get modify ask_wait
    ask_spawn write_frame notice_death clear
notify_forgets encodes f n m rest h r ap t ev = ground (arith, h, r, ap, t, ev)

has_text-last : (id : Text) (ids : List Text) → has_text id (ids ++ id ∷ []) ≡ true
has_text-last id [] = rw (text_eq_refl id) refl
has_text-last id (t ∷ ts) = ground (arith, has_text-last id ts)

remove_first-last :
    (id : Text) (ids : List Text) → has_text id ids ≡ false → remove_first id (ids ++ id ∷ []) ≡ ids
unfolding remove_first
remove_first-last id [] h = rw (text_eq_refl id) refl
remove_first-last id (t ∷ ts) h = ground (arith, h, remove_first-last id ts)

cap_queue-none : (ids : List Text) → (cap_queue ids).1 ≡ none → (cap_queue ids).0 ≡ ids
cap_queue-none [] h = refl
cap_queue-none (t ∷ ts) h = ground (arith, h)

-- What the book holds of an application after a new id, with nothing evicted.
lookup-track :
    (app id : Text) (m : Live)
    → (track app id m).1 ≡ none
    → tracked app id m ≡ false
    → lookup app (track app id m).0 ≡ some (unwrap_or [] (lookup app m) ++ id ∷ [])
unfolding track
lookup-track app id m e h =
    let ids : List Text = unwrap_or [] (lookup app m) in
    ground (
      arith,
      e,
      h,
      lookup-insert app app (cap_queue (push_new id ids)).0 m,
      text_eq_refl app,
      cap_queue-none (push_new id ids),
    )

put_back-tracked :
    (app id : Text) (ids : List Text) (m : Live)
    → has_text id ids ≡ false
    → tracked app id (put_back app ids m) ≡ false
put_back-tracked app id [] m h = ground (arith, lookup-erase app app m, text_eq_refl app)
put_back-tracked app id (t ∷ ts) m h =
    ground (arith, h, lookup-insert app app (t ∷ ts) m, text_eq_refl app)

remove-tracked :
    (app id : Text) (ids : List Text) (m : Live)
    → lookup app m ≡ some (ids ++ id ∷ [])
    → has_text id ids ≡ false
    → ((remove app id m).1 ≡ true) × (tracked app id (remove app id m).0 ≡ false)
unfolding remove
remove-tracked app id ids m e h =
    rw (e, remove)
      (has_text-last id ids, rw (remove_first-last id ids h) (put_back-tracked app id ids m h))

-- Where the daemon runs, still lives when it is asked and takes both frames, both of which can be
-- encoded, and fewer than 256 ids are live, the notification's id is not in the book, and tracking
-- it evicts no other id of its application: the notification and then its withdrawal write exactly
-- the two frames, and afterwards the id is not in the book.
pub notify-close :
    (encodes : NotifyCommand → Bool) (f : ℕ) (n : Notification) (m : Manager) (rest : List Answer)
    → encodes (notify_card n) ≡ true
    → encodes (close_card n.app_id n.id) ≡ true
    → m.running ≡ true
    → total m.live < max_total_ids
    → tracked n.app_id n.id m.live ≡ false
    → (track n.app_id n.id m.live).1 ≡ none
    → (book : Live) × ((notify encodes (suc f) n >>= λ _. close encodes n.app_id n.id)
          (record { manager = m; script = waits still_running ∷ writes true ∷ writes true ∷ rest })
        ≡ some (
          tt,
          record {
            manager = record m {
              live = book;
              delivered = (m.delivered ++ notify_card n ∷ []) ++ close_card n.app_id n.id ∷ [];
            };
            script = rest;
          },
        ))
      × (tracked n.app_id n.id book ≡ false)
unfolding notify close deliver send ensure_daemon send_with send_once ◌>>=◌ pure get modify ask_wait
    write_frame notice_death
notify-close encodes f n m rest hn hc r t fresh ev =
    let removed =
      remove-tracked n.app_id n.id (unwrap_or [] (lookup n.app_id m.live))
        (track n.app_id n.id m.live).0 (lookup-track n.app_id n.id m.live ev fresh) fresh in
    (
      (remove n.app_id n.id (track n.app_id n.id m.live).0).0,
      ground (arith, hn, hc, r, t, ev, removed.0),
      removed.1,
    )
