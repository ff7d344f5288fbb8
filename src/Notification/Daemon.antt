-- ===== src/Notification/Daemon.antt =====
-- notification.rs: `DaemonManager`. What the processes answer is a script, a list of answers in the
-- order in which the code asks; a call that the script does not fit has no result. `delivered` is
-- what the running daemon has been sent, so it starts empty with each daemon.
use xdg_desktop_portal_aegis.Prelude.{
  ℕ, zero, suc, Bool, true, false, Option, none, some, List, [], ◌∷◌, ◌++◌, Text, leb, ◌==◌,
  if◌then◌else◌,
}
use xdg_desktop_portal_aegis.Notification.Live.{Live, max_total_ids, total, track, remove, clear}
use xdg_desktop_portal_aegis.Notification.Parse.{Notification}

-- `NotifyCommand`; an appearance is its number.
pub data NotifyCommand : Type 0 where
  notify_card : Notification → NotifyCommand
  close_card : Text → Text → NotifyCommand
  set_appearance : ℕ → NotifyCommand

pub record Manager : Type 0 where
  pub running : Bool
  pub live : Live
  pub appearance : Option ℕ
  pub delivered : List NotifyCommand

-- `try_wait`.
pub data Wait : Type 0 where
  still_running exited wait_failed : Wait

pub data Answer : Type 0 where
  waits : Wait → Answer
  spawns : Bool → Answer
  writes : Bool → Answer

pub record World : Type 0 where
  pub manager : Manager
  pub script : List Answer

abbrev pub M : Type 0 → Type 0
M A = World → Option (A × World)

infixl 5 ◌>>=◌ ◌>>◌
unfoldable pub ◌>>=◌ : {A B : Type 0} → M A → (A → M B) → M B
◌>>=◌ m f w = elim (m w) [ none ↦ none | some (a, w') ↦ f a w' ]

abbrev pub ◌>>◌ : {A B : Type 0} → M A → M B → M B
m >> k = m >>= λ _. k

unfoldable pub pure : {A : Type 0} → A → M A
pure a w = some (a, w)

unfoldable pub get : M Manager
get w = some (w.manager, w)

unfoldable pub modify : (Manager → Manager) → M (Unit {0})
modify f w = some (tt, record w { manager = f w.manager })

abbrev as_wait : List Answer → World → Option (Wait × World)
as_wait (waits a ∷ rest) w = some (a, record w { script = rest })
as_wait _ w = none

abbrev as_spawn : List Answer → World → Option (Bool × World)
as_spawn (spawns a ∷ rest) w = some (a, record w { script = rest })
as_spawn _ w = none

-- A frame that is written has reached the running daemon; `none` is the empty text.
abbrev note_frame : Bool → Option NotifyCommand → Manager → Manager
note_frame true (some c) m = record m { delivered = m.delivered ++ c ∷ [] }
note_frame _ _ m = m

abbrev as_write : Option NotifyCommand → List Answer → World → Option (Bool × World)
as_write c (writes a ∷ rest) w =
    some (a, record { manager = note_frame a c w.manager; script = rest })
as_write c _ w = none

unfoldable pub ask_wait : M Wait
ask_wait w = as_wait w.script w

unfoldable pub ask_spawn : M Bool
ask_spawn w = as_spawn w.script w

unfoldable pub write_frame : Option NotifyCommand → M Bool
write_frame c w = as_write c w.script w

abbrev pub stop_daemon : Manager → Manager
stop_daemon m = record m { running = false }

abbrev pub start_daemon : Manager → Manager
start_daemon m = record m { running = true; delivered = [] }

abbrev pub forget_all : Manager → Manager
forget_all m = record m { running = false; live = (clear m.live).0 }

abbrev pub forget : Text → Text → Manager → Manager
forget app id m = record m { live = (remove app id m.live).0 }

abbrev pub track_card : Text → Text → Manager → Manager
track_card app id m = record m { live = (track app id m.live).0 }

-- A daemon that is there and that has taken the frame, or is gone: `none` goes round again.
abbrev pub after_write : Bool → M (Option Bool)
after_write true = pure (some true)
after_write false = do modify stop_daemon; pure none

abbrev pub write_if_running : NotifyCommand → Bool → M (Option Bool)
write_if_running c false = pure (some false)
write_if_running c true = write_frame (some c) >>= after_write

abbrev pub write_if_ensured : NotifyCommand → Bool → M (Option Bool)
write_if_ensured c false = pure (some false)
write_if_ensured c true = do m ← get; write_if_running c m.running

-- One round of the loop of `send`.
unfoldable pub send_once : M Bool → NotifyCommand → M (Option Bool)
send_once ensure c = ensure >>= write_if_ensured c

abbrev pub or_give_up : Option Bool → M Bool
or_give_up (some r) = pure r
or_give_up none = pure false

abbrev pub or_again : M Bool → NotifyCommand → Option Bool → M Bool
or_again ensure c (some r) = pure r
or_again ensure c none = send_once ensure c >>= or_give_up

-- `send` over `ensure_daemon`, two rounds at most; a frame that is not encoded is not sent.
unfoldable pub send_with : (NotifyCommand → Bool) → M Bool → NotifyCommand → M Bool
send_with encodes ensure c =
    if encodes c then send_once ensure c >>= or_again ensure c else pure false

-- An exit forgets the live ids, a failed query does not.
abbrev pub after_wait : Wait → M Bool
after_wait still_running = pure true
after_wait exited = do modify forget_all; pure false
after_wait wait_failed = do modify stop_daemon; pure false

abbrev pub wait_if_running : Bool → M Bool
wait_if_running false = pure false
wait_if_running true = ask_wait >>= after_wait

-- Whether the daemon is alive.
unfoldable pub notice_death : M Bool
notice_death = do m ← get; wait_if_running m.running

abbrev pub prime : (NotifyCommand → M Bool) → Option ℕ → M Bool
prime send none = pure true
prime send (some a) = do _ ← send (set_appearance a); pure true

abbrev pub prime_if_spawned : (NotifyCommand → M Bool) → Bool → M Bool
prime_if_spawned send false = pure false
prime_if_spawned send true = do modify start_daemon; m ← get; prime send m.appearance

abbrev pub spawn_unless : (NotifyCommand → M Bool) → Bool → M Bool
spawn_unless send true = pure true
spawn_unless send false = ask_spawn >>= prime_if_spawned send

-- `ensure_daemon`, on fuel: priming a new daemon sends, and sending ensures a daemon again.
unfoldable pub ensure_daemon : (NotifyCommand → Bool) → ℕ → M Bool
ensure_daemon encodes zero = λ w. none
ensure_daemon encodes (suc f) =
    notice_death >>= spawn_unless (send_with encodes (ensure_daemon encodes f))

unfoldable pub send : (NotifyCommand → Bool) → ℕ → NotifyCommand → M Bool
send encodes f = send_with encodes (ensure_daemon encodes f)

abbrev pub evict : (NotifyCommand → M Bool) → Text → Option Text → M (Unit {0})
evict send app none = pure tt
evict send app (some old) = do _ ← send (close_card app old); modify (forget app old)

abbrev pub keep_if : Text → Text → Bool → M (Unit {0})
keep_if app id true = pure tt
keep_if app id false = modify (forget app id)

-- The part of `notify` below the total's guard; `old` is the id that `track` has evicted.
unfoldable pub deliver : (NotifyCommand → M Bool) → Notification → Option Text → M (Unit {0})
deliver send n old = do
  modify (track_card n.app_id n.id)
  evict send n.app_id old
  send (notify_card n) >>= keep_if n.app_id n.id

-- `DaemonManager::notify`.
unfoldable pub notify : (NotifyCommand → Bool) → ℕ → Notification → M (Unit {0})
notify encodes f n = do
  m ← get
  (if leb max_total_ids (total m.live)
      then pure tt
      else deliver (send encodes f) n (track n.app_id n.id m.live).1)

-- What `close` writes: nothing where the frame is not encoded.
abbrev pub frame_or_nothing : (NotifyCommand → Bool) → NotifyCommand → Option NotifyCommand
frame_or_nothing encodes c = if encodes c then some c else none

abbrev pub write_close : Option NotifyCommand → Bool → M (Unit {0})
write_close frame false = pure tt
write_close frame true = do _ ← write_frame frame; pure tt

-- `DaemonManager::close`.
unfoldable pub close : (NotifyCommand → Bool) → Text → Text → M (Unit {0})
close encodes app id = do
  m ← get
  modify (forget app id)
  (if (remove app id m.live).1
      then write_close (frame_or_nothing encodes (close_card app id)) m.running
      else pure tt)

abbrev pub remember : ℕ → Manager → Manager
remember a m = record m { appearance = some a }

abbrev pub send_if_running : (NotifyCommand → M Bool) → ℕ → Bool → M (Unit {0})
send_if_running send a false = pure tt
send_if_running send a true = do _ ← send (set_appearance a); pure tt

abbrev pub is_shown : ℕ → Option ℕ → Bool
is_shown a none = false
is_shown a (some old) = old == a

-- `DaemonManager::push_appearance`.
unfoldable pub push_appearance : (NotifyCommand → Bool) → ℕ → ℕ → M (Unit {0})
push_appearance encodes f a = do
  m ← get
  (if is_shown a m.appearance
      then pure tt
      else do modify (remember a); send_if_running (send encodes f) a m.running)

-- `NotifyEvent`, and what the pump does with one: the signal's arguments, and the id forgotten.
pub data NotifyEvent : Type 0 where
  action_invoked : Text → Text → Text → NotifyEvent
  closed : Text → Text → NotifyEvent

unfoldable pub event_pump : NotifyEvent → Live → Live × Option (Text × Text × Text)
event_pump (action_invoked app id action) m = ((remove app id m).0, some (app, id, action))
event_pump (closed app id) m = ((remove app id m).0, none)
