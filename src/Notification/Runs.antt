-- ===== src/Notification/Runs.antt =====
-- notification.rs: the histories of a daemon manager, and the caps on the book of live ids.
use xdg_desktop_portal_aegis.Prelude.{
  ℕ, ◌<◌, Bool, true, false, Option, some, [], ◌≡◌, leb, if◌then◌else◌, Text, arith, Bool-cases,
  inl, inr,
}
use xdg_desktop_portal_aegis.Notification.Live.{Live, max_total_ids, total, track, remove, clear}
use xdg_desktop_portal_aegis.Notification.LiveLaws.{
  IsWithinCaps, track-IsWithinCaps, remove-IsWithinCaps, clear-IsWithinCaps,
}
use xdg_desktop_portal_aegis.Notification.Parse.{Notification}
use xdg_desktop_portal_aegis.Notification.DaemonLaws.{
  Keeps, bind-Keeps, pure-Keeps, get-Keeps, modify-Keeps, write_frame-Keeps, forget-Keeps,
  send-Keeps, evict-Keeps, keep_if-Keeps,
}
use xdg_desktop_portal_aegis.Notification.Daemon.{
  NotifyCommand, notify_card, close_card, set_appearance, Manager, World, M, ◌>>=◌, pure, get,
  modify, write_frame, forget, track_card, send, evict, keep_if, deliver, notify, frame_or_nothing,
  write_close, close, remember, send_if_running, is_shown, push_appearance, NotifyEvent, event_pump,
  action_invoked, closed,
}

deliver-IsWithinCaps :
    (send : NotifyCommand → M Bool) (n : Notification) (old : Option Text) (w w' : World)
    → ((c : NotifyCommand) → Keeps (send c))
    → IsWithinCaps w.manager.live
    → total w.manager.live < max_total_ids
    → deliver send n old w ≡ some (tt, w')
    → IsWithinCaps w'.manager.live
unfolding deliver ◌>>=◌ modify
deliver-IsWithinCaps send n old w w' hs c h e =
    bind-Keeps (evict send n.app_id old) (λ _. send (notify_card n) >>= keep_if n.app_id n.id)
      (evict-Keeps send n.app_id old hs)
      (λ _.
        bind-Keeps (send (notify_card n)) (keep_if n.app_id n.id) (hs (notify_card n))
          (keep_if-Keeps n.app_id n.id))
      (record w { manager = track_card n.app_id n.id w.manager }) w' tt
      (track-IsWithinCaps n.app_id n.id w.manager.live c h) e

notify-IsWithinCaps :
    (encodes : NotifyCommand → Bool) (f : ℕ) (n : Notification) (w w' : World)
    → IsWithinCaps w.manager.live
    → notify encodes f n w ≡ some (tt, w')
    → IsWithinCaps w'.manager.live
unfolding notify ◌>>=◌ get pure
notify-IsWithinCaps encodes f n w w' c e =
    elim (Bool-cases (leb max_total_ids (total w.manager.live))) [
      | inl q ↦ ground (arith, e, c, q)
      | inr q ↦
          deliver-IsWithinCaps (send encodes f) n (track n.app_id n.id w.manager.live).1 w w'
            (send-Keeps encodes f) c (ground (arith, q)) (ground (arith, e, q))
    ]

write_close-Keeps : (frame : Option NotifyCommand) (b : Bool) → Keeps (write_close frame b)
write_close-Keeps frame false = pure-Keeps tt
write_close-Keeps frame true =
    bind-Keeps (write_frame frame) (λ _. pure tt) (write_frame-Keeps frame) (λ _. pure-Keeps tt)

close_rest-Keeps :
    (encodes : NotifyCommand → Bool) (app id : Text) (m : Manager) (b : Bool)
    → Keeps (
        if b then write_close (frame_or_nothing encodes (close_card app id)) m.running else pure tt)
close_rest-Keeps encodes app id m true =
    write_close-Keeps (frame_or_nothing encodes (close_card app id)) m.running
close_rest-Keeps encodes app id m false = pure-Keeps tt

close-Keeps : (encodes : NotifyCommand → Bool) (app id : Text) → Keeps (close encodes app id)
unfolding close
close-Keeps encodes app id =
    bind-Keeps get
      (λ m. modify (forget app id) >>= λ _.
        if (remove app id m.live).1
        then write_close (frame_or_nothing encodes (close_card app id)) m.running
        else pure tt)
      get-Keeps
      (λ m.
        bind-Keeps (modify (forget app id))
          (λ _.
            if (remove app id m.live).1
            then write_close (frame_or_nothing encodes (close_card app id)) m.running
            else pure tt)
          (forget-Keeps app id) (λ _. close_rest-Keeps encodes app id m (remove app id m.live).1))

event_pump-IsWithinCaps :
    (e : NotifyEvent) (m : Live) → IsWithinCaps m → IsWithinCaps (event_pump e m).0
unfolding event_pump
event_pump-IsWithinCaps (action_invoked app id a) m h = remove-IsWithinCaps app id m h
event_pump-IsWithinCaps (closed app id) m h = remove-IsWithinCaps app id m h

push_rest-Keeps :
    (encodes : NotifyCommand → Bool) (f a : ℕ) (b : Bool)
    → Keeps (send_if_running (send encodes f) a b)
push_rest-Keeps encodes f a false = pure-Keeps tt
push_rest-Keeps encodes f a true =
    bind-Keeps (send encodes f (set_appearance a)) (λ _. pure tt)
      (send-Keeps encodes f (set_appearance a)) (λ _. pure-Keeps tt)

push_unless-Keeps :
    (encodes : NotifyCommand → Bool) (f a : ℕ) (m : Manager) (b : Bool)
    → Keeps (
        if b
        then pure tt
        else (modify (remember a) >>= λ _. send_if_running (send encodes f) a m.running))
push_unless-Keeps encodes f a m true = pure-Keeps tt
push_unless-Keeps encodes f a m false =
    bind-Keeps (modify (remember a)) (λ _. send_if_running (send encodes f) a m.running)
      (modify-Keeps (remember a) (λ m h. h)) (λ _. push_rest-Keeps encodes f a m.running)

push_appearance-Keeps :
    (encodes : NotifyCommand → Bool) (f a : ℕ) → Keeps (push_appearance encodes f a)
unfolding push_appearance
push_appearance-Keeps encodes f a =
    bind-Keeps get
      (λ m.
        if is_shown a m.appearance
        then pure tt
        else (modify (remember a) >>= λ _. send_if_running (send encodes f) a m.running))
      get-Keeps (λ m. push_unless-Keeps encodes f a m (is_shown a m.appearance))

-- What befalls a manager from its start on: requests that end, and the pump between two of them.
pub data Reaches (encodes : NotifyCommand → Bool) : Manager → Type 0 where
  at_start : (m : Manager) → m.live ≡ [] → Reaches encodes m
  notified :
      (f : ℕ) (n : Notification) (w w' : World)
      → Reaches encodes w.manager
      → notify encodes f n w ≡ some (tt, w')
      → Reaches encodes w'.manager
  closed_by_app :
      (app id : Text) (w w' : World)
      → Reaches encodes w.manager
      → close encodes app id w ≡ some (tt, w')
      → Reaches encodes w'.manager
  appearance_pushed :
      (f a : ℕ) (w w' : World)
      → Reaches encodes w.manager
      → push_appearance encodes f a w ≡ some (tt, w')
      → Reaches encodes w'.manager
  pumped :
      (e : NotifyEvent) (m : Manager)
      → Reaches encodes m
      → Reaches encodes (record m { live = (event_pump e m.live).0 })

-- In every history of the manager, whatever the processes answer and however often the daemon dies,
-- no application has more than 64 live ids and all of them together have at most 256.
pub Reaches-IsWithinCaps :
    {encodes : NotifyCommand → Bool} {m : Manager} → Reaches encodes m → IsWithinCaps m.live
unfolding clear
Reaches-IsWithinCaps (at_start m e) = rw e (clear-IsWithinCaps [])
Reaches-IsWithinCaps {encodes} (notified f n w w' r e) =
    notify-IsWithinCaps encodes f n w w' (Reaches-IsWithinCaps r) e
Reaches-IsWithinCaps {encodes} (closed_by_app app id w w' r e) =
    close-Keeps encodes app id w w' tt (Reaches-IsWithinCaps r) e
Reaches-IsWithinCaps {encodes} (appearance_pushed f a w w' r e) =
    push_appearance-Keeps encodes f a w w' tt (Reaches-IsWithinCaps r) e
Reaches-IsWithinCaps (pumped e m r) = event_pump-IsWithinCaps e m.live (Reaches-IsWithinCaps r)
