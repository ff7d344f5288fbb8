-- ===== src/Notification/Wire.antt =====
-- crates/atrium-portal-prompter/src/notify.rs: the check that the daemon makes on a card it decodes.
use xdg_desktop_portal_aegis.Prelude.{
  ℕ, ◌&&◌, ◌||◌, Option, none, some, List, [], ◌∷◌, Text, contains_char, trim, utf8_len, ltb,
  is_empty, length, Result, ok, refuse_if, ◌>>◌,
}
use xdg_desktop_portal_aegis.Notification.Parse.{Notification, NotifyButton}

abbrev pub max_app_id_bytes : ℕ
max_app_id_bytes = 255

abbrev pub max_notification_id_bytes : ℕ
max_notification_id_bytes = 255

abbrev pub max_title_bytes : ℕ
max_title_bytes = 1024

abbrev pub max_body_bytes : ℕ
max_body_bytes = 4096

abbrev pub max_action_bytes : ℕ
max_action_bytes = 255

abbrev pub max_label_bytes : ℕ
max_label_bytes = 256

abbrev pub max_buttons : ℕ
max_buttons = 8

pub data WireError : Type 0 where
  not_bounded bad_text nothing_to_show too_many_buttons : WireError

unfoldable pub bounded : Text → ℕ → Result WireError (Unit {0})
bounded value limit =
    refuse_if (is_empty value || ltb limit (utf8_len value) || contains_char 0 value) not_bounded

abbrev pub bounded_action : Option Text → Result WireError (Unit {0})
bounded_action none = ok tt
bounded_action (some t) = bounded t max_action_bytes

unfoldable pub validate_buttons : List NotifyButton → Result WireError (Unit {0})
validate_buttons [] = ok tt
validate_buttons (b ∷ bs) = do
  bounded b.action max_action_bytes
  bounded b.label max_label_bytes
  validate_buttons bs

-- `Notification::validate`.
unfoldable pub validate : Notification → Result WireError (Unit {0})
validate n = do
  bounded n.app_id max_app_id_bytes
  bounded n.id max_notification_id_bytes
  refuse_if
      (ltb max_title_bytes (utf8_len n.title)
        || ltb max_body_bytes (utf8_len n.body)
        || contains_char 0 n.title
        || contains_char 0 n.body)
      bad_text
  refuse_if (is_empty (trim n.title) && is_empty (trim n.body)) nothing_to_show
  bounded_action n.default_action
  refuse_if (ltb max_buttons (length n.buttons)) too_many_buttons
  validate_buttons n.buttons
