-- ===== src/Notification/DaemonLaws.antt =====
-- notification.rs: the runs of the daemon manager and the caps on the book of live ids.
use xdg_desktop_portal_aegis.Prelude.{
  ℕ, zero, suc, Bool, true, false, Option, none, some, ◌≡◌, refl, if◌then◌else◌, Text, arith,
}
use xdg_desktop_portal_aegis.Notification.LiveLaws.{
  IsWithinCaps, remove-IsWithinCaps, clear-IsWithinCaps,
}
use xdg_desktop_portal_aegis.Notification.Daemon.{
  NotifyCommand, close_card, set_appearance, Manager, Wait, still_running, exited, wait_failed,
  World, M, ◌>>=◌, pure, get, modify, ask_wait, ask_spawn, write_frame, stop_daemon, start_daemon,
  forget_all, forget, after_write, write_if_running, write_if_ensured, send_once, or_give_up,
  or_again, send_with, after_wait, wait_if_running, notice_death, prime, prime_if_spawned,
  spawn_unless, ensure_daemon, send, evict, keep_if,
}

-- A run that ends leaves the book within its caps where it began within them.
abbrev pub Keeps : {A : Type 0} → M A → Type 0
Keeps {A} m =
    (w w' : World) (a : A)
    → IsWithinCaps w.manager.live
    → m w ≡ some (a, w')
    → IsWithinCaps w'.manager.live

bound-Keeps :
    {A B : Type 0} (k : A → M B) (first : Option (A × World)) (w' : World) (b : B)
    → (elim first [ none ↦ none | some (a, v) ↦ k a v ]) ≡ some (b, w')
    → ((a : A) (v : World) → first ≡ some (a, v) → IsWithinCaps v.manager.live)
    → ((a : A) → Keeps (k a))
    → IsWithinCaps w'.manager.live
bound-Keeps k none w' b e h hk = absurd (ground arith)
bound-Keeps k (some (a, v)) w' b e h hk = hk a v w' b (h a v refl) e

pub bind-Keeps :
    {A B : Type 0} (m : M A) (k : A → M B) → Keeps m → ((a : A) → Keeps (k a)) → Keeps (m >>= k)
unfolding ◌>>=◌
bind-Keeps m k hm hk w w' b c e = bound-Keeps k (m w) w' b e (λ a v q. hm w v a c q) hk

pub pure-Keeps : {A : Type 0} (a : A) → Keeps (pure a)
unfolding pure
pure-Keeps a w w' b c e = ground (arith, e, c)

pub modify-Keeps :
    (f : Manager → Manager)
    → ((m : Manager) → IsWithinCaps m.live → IsWithinCaps (f m).live)
    → Keeps (modify f)
unfolding modify
modify-Keeps f h w w' b c e = ground (arith, e, h w.manager c)

pub get-Keeps : Keeps get
unfolding get
get-Keeps w w' b c e = ground (arith, e, c)

ask_wait-Keeps : Keeps ask_wait
unfolding ask_wait
ask_wait-Keeps w w' b c e = ground (arith, e, c)

ask_spawn-Keeps : Keeps ask_spawn
unfolding ask_spawn
ask_spawn-Keeps w w' b c e = ground (arith, e, c)

pub write_frame-Keeps : (c : Option NotifyCommand) → Keeps (write_frame c)
unfolding write_frame
write_frame-Keeps c w w' b h e = ground (arith, e, h)

stop-Keeps : Keeps (modify stop_daemon)
stop-Keeps = modify-Keeps stop_daemon (λ m h. h)

pub forget-Keeps : (app id : Text) → Keeps (modify (forget app id))
forget-Keeps app id = modify-Keeps (forget app id) (λ m h. remove-IsWithinCaps app id m.live h)

after_write-Keeps : (b : Bool) → Keeps (after_write b)
after_write-Keeps true = pure-Keeps (some true)
after_write-Keeps false =
    bind-Keeps (modify stop_daemon) (λ _. pure none) stop-Keeps (λ _. pure-Keeps none)

write_if_running-Keeps : (c : NotifyCommand) (b : Bool) → Keeps (write_if_running c b)
write_if_running-Keeps c false = pure-Keeps (some false)
write_if_running-Keeps c true =
    bind-Keeps (write_frame (some c)) after_write (write_frame-Keeps (some c)) after_write-Keeps

write_if_ensured-Keeps : (c : NotifyCommand) (b : Bool) → Keeps (write_if_ensured c b)
write_if_ensured-Keeps c false = pure-Keeps (some false)
write_if_ensured-Keeps c true =
    bind-Keeps get (λ m. write_if_running c m.running) get-Keeps
      (λ m. write_if_running-Keeps c m.running)

send_once-Keeps : (ensure : M Bool) (c : NotifyCommand) → Keeps ensure → Keeps (send_once ensure c)
unfolding send_once
send_once-Keeps ensure c h = bind-Keeps ensure (write_if_ensured c) h (write_if_ensured-Keeps c)

or_give_up-Keeps : (r : Option Bool) → Keeps (or_give_up r)
or_give_up-Keeps (some r) = pure-Keeps r
or_give_up-Keeps none = pure-Keeps false

or_again-Keeps :
    (ensure : M Bool) (c : NotifyCommand) (r : Option Bool)
    → Keeps ensure
    → Keeps (or_again ensure c r)
or_again-Keeps ensure c (some r) h = pure-Keeps r
or_again-Keeps ensure c none h =
    bind-Keeps (send_once ensure c) or_give_up (send_once-Keeps ensure c h) or_give_up-Keeps

send_with-Keeps :
    (encodes : NotifyCommand → Bool) (ensure : M Bool) (c : NotifyCommand)
    → Keeps ensure
    → Keeps (send_with encodes ensure c)
unfolding send_with
send_with-Keeps encodes ensure c h =
    elim (encodes c)
      as (λ b. Keeps (if b then send_once ensure c >>= or_again ensure c else pure false)) [
        | true ↦
            bind-Keeps (send_once ensure c) (or_again ensure c) (send_once-Keeps ensure c h)
              (λ r. or_again-Keeps ensure c r h)
        | false ↦ pure-Keeps false
      ]

after_wait-Keeps : (a : Wait) → Keeps (after_wait a)
after_wait-Keeps still_running = pure-Keeps true
after_wait-Keeps exited =
    bind-Keeps (modify forget_all) (λ _. pure false)
      (modify-Keeps forget_all (λ m h. clear-IsWithinCaps m.live)) (λ _. pure-Keeps false)
after_wait-Keeps wait_failed =
    bind-Keeps (modify stop_daemon) (λ _. pure false) stop-Keeps (λ _. pure-Keeps false)

wait_if_running-Keeps : (b : Bool) → Keeps (wait_if_running b)
wait_if_running-Keeps false = pure-Keeps false
wait_if_running-Keeps true = bind-Keeps ask_wait after_wait ask_wait-Keeps after_wait-Keeps

notice_death-Keeps : Keeps notice_death
unfolding notice_death
notice_death-Keeps =
    bind-Keeps get (λ m. wait_if_running m.running) get-Keeps (λ m. wait_if_running-Keeps m.running)

prime-Keeps :
    (send : NotifyCommand → M Bool) (a : Option ℕ)
    → ((c : NotifyCommand) → Keeps (send c))
    → Keeps (prime send a)
prime-Keeps send none h = pure-Keeps true
prime-Keeps send (some a) h =
    bind-Keeps (send (set_appearance a)) (λ _. pure true) (h (set_appearance a))
      (λ _. pure-Keeps true)

prime_if_spawned-Keeps :
    (send : NotifyCommand → M Bool) (b : Bool)
    → ((c : NotifyCommand) → Keeps (send c))
    → Keeps (prime_if_spawned send b)
prime_if_spawned-Keeps send false h = pure-Keeps false
prime_if_spawned-Keeps send true h =
    bind-Keeps (modify start_daemon) (λ _. get >>= λ m. prime send m.appearance)
      (modify-Keeps start_daemon (λ m k. k))
      (λ _.
        bind-Keeps get (λ m. prime send m.appearance) get-Keeps
          (λ m. prime-Keeps send m.appearance h))

spawn_unless-Keeps :
    (send : NotifyCommand → M Bool) (b : Bool)
    → ((c : NotifyCommand) → Keeps (send c))
    → Keeps (spawn_unless send b)
spawn_unless-Keeps send true h = pure-Keeps true
spawn_unless-Keeps send false h =
    bind-Keeps ask_spawn (prime_if_spawned send) ask_spawn-Keeps
      (λ b. prime_if_spawned-Keeps send b h)

ensure_daemon-Keeps : (encodes : NotifyCommand → Bool) (f : ℕ) → Keeps (ensure_daemon encodes f)
unfolding ensure_daemon
ensure_daemon-Keeps encodes zero = λ w w' b c e. absurd (ground (arith, e))
ensure_daemon-Keeps encodes (suc f) =
    bind-Keeps notice_death (spawn_unless (send_with encodes (ensure_daemon encodes f)))
      notice_death-Keeps
      (λ b.
        spawn_unless-Keeps (send_with encodes (ensure_daemon encodes f)) b (λ c.
          send_with-Keeps encodes (ensure_daemon encodes f) c (ensure_daemon-Keeps encodes f)))

pub send-Keeps :
    (encodes : NotifyCommand → Bool) (f : ℕ) (c : NotifyCommand) → Keeps (send encodes f c)
unfolding send
send-Keeps encodes f c =
    send_with-Keeps encodes (ensure_daemon encodes f) c (ensure_daemon-Keeps encodes f)

pub evict-Keeps :
    (send : NotifyCommand → M Bool) (app : Text) (old : Option Text)
    → ((c : NotifyCommand) → Keeps (send c))
    → Keeps (evict send app old)
evict-Keeps send app none h = pure-Keeps tt
evict-Keeps send app (some old) h =
    bind-Keeps (send (close_card app old)) (λ _. modify (forget app old)) (h (close_card app old))
      (λ _. forget-Keeps app old)

pub keep_if-Keeps : (app id : Text) (b : Bool) → Keeps (keep_if app id b)
keep_if-Keeps app id true = pure-Keeps tt
keep_if-Keeps app id false = forget-Keeps app id
