-- ===== src/Notification/Parse.antt =====
-- notification.rs: `valid_id`, `strip_markup` and `parse_notification`.
use xdg_desktop_portal_aegis.Prelude.{
  ℕ, Bool, true, false, not, ◌&&◌, ◌||◌, Option, none, some, List, [], ◌∷◌, Text, codes, text_eq,
  contains_char, is_control, trim, utf8_len, ltb, ◌==◌, if◌then◌else◌, is_empty, any_of, unwrap_or,
  length, Map, lookup, Result, ok, err, refuse_if, ◌>>=◌, ◌>>◌,
}

abbrev pub max_id_bytes : ℕ
max_id_bytes = 255

abbrev pub max_title_chars : ℕ
max_title_chars = 256

abbrev pub max_body_bytes : ℕ
max_body_bytes = 4096

abbrev pub max_buttons : ℕ
max_buttons = 8

abbrev pub max_label_chars : ℕ
max_label_chars = 256

-- A value of the vardict, as far as the code reads it. Of a button the entries that are strings.
pub data Value : Type 0 where
  str : Text → Value
  strs : List Text → Value
  dicts : List (Map Text) → Value
  other : Value

pub data Priority : Type 0 where
  low normal high urgent : Priority

pub record NotifyButton : Type 0 where
  pub action : Text
  pub label : Text

pub record Notification : Type 0 where
  pub app_id : Text
  pub id : Text
  pub title : Text
  pub body : Text
  pub priority : Priority
  pub default_action : Option Text
  pub buttons : List NotifyButton
  pub expire_hint : Option ℕ

pub data NotificationError : Type 0 where
  invalid_id invalid_title invalid_body nothing_to_show : NotificationError
  not_buttons too_many_buttons invalid_label : NotificationError

unfoldable pub valid_id : Text → Result NotificationError (Unit {0})
valid_id t =
    refuse_if (is_empty t || ltb max_id_bytes (utf8_len t) || any_of is_control t) invalid_id

-- The loop of `strip_markup`.
unfoldable pub strip_from : Bool → Text → Text
strip_from in_tag [] = []
strip_from in_tag (c ∷ s) =
    let inside = strip_from true s in
    let outside = strip_from false s in
    let pushed = c ∷ strip_from in_tag s in
    let skipped = strip_from in_tag s in
    if c == b'<'
    then inside
    else if c == b'>' && in_tag
    then outside
    else if not in_tag
    then pushed
    else skipped

unfoldable pub strip_markup : Text → Text
unfolding strip_from
strip_markup = strip_from false

abbrev pub get_string : Text → Map Value → Option Text
get_string key m = elim (lookup key m) [
  | none ↦ none
  | some v ↦ elim v [ str t ↦ some t | strs ts ↦ none | dicts ds ↦ none | other ↦ none ]
]

abbrev pub non_empty : Option Text → Option Text
non_empty none = none
non_empty (some t) = if is_empty t then none else some t

unfoldable pub parse_body : Map Value → Text
parse_body m =
    let body = unwrap_or [] (get_string (codes "body") m) in
    if is_empty body
    then elim (get_string (codes "markup-body") m) [ none ↦ body | some t ↦ strip_markup t ]
    else body

unfoldable pub parse_priority : Option Text → Priority
parse_priority none = normal
parse_priority (some t) =
    if text_eq t (codes "low")
    then low
    else if text_eq t (codes "high")
    then high
    else if text_eq t (codes "urgent")
    then urgent
    else normal

abbrev pub keep_button :
    Text
    → Option Text
    → Result NotificationError (List NotifyButton)
    → Result NotificationError (List NotifyButton)
keep_button action none rest = rest
keep_button action (some label) rest = do
  refuse_if (ltb max_label_chars (length label) || contains_char 0 label) invalid_label
  more ← rest
  ok (record { action = action; label = label } ∷ more)

abbrev pub add_button :
    Option Text
    → Option Text
    → Result NotificationError (List NotifyButton)
    → Result NotificationError (List NotifyButton)
add_button none label rest = rest
add_button (some action) label rest = do valid_id action; keep_button action label rest

-- The loop over the buttons, which skips one without an action or a label.
unfoldable pub parse_buttons : List (Map Text) → Result NotificationError (List NotifyButton)
parse_buttons [] = ok []
parse_buttons (b ∷ bs) =
    add_button (non_empty (lookup (codes "action") b)) (non_empty (lookup (codes "label") b))
      (parse_buttons bs)

abbrev pub read_buttons : Option Value → Result NotificationError (List NotifyButton)
read_buttons none = ok []
read_buttons (some (dicts ds)) = do
  refuse_if (ltb max_buttons (length ds)) too_many_buttons
  parse_buttons ds
read_buttons (some (str t)) = err not_buttons
read_buttons (some (strs ts)) = err not_buttons
read_buttons (some other) = err not_buttons

abbrev pub read_hints : Option Value → List Text
read_hints (some (strs ts)) = ts
read_hints _ = []

abbrev pub default_expiry : Priority → Option ℕ
default_expiry low = some 5
default_expiry normal = some 10
default_expiry high = none
default_expiry urgent = none

-- The loop over the display hints.
unfoldable pub apply_hints : List Text → Option ℕ → Option ℕ
apply_hints [] expire = expire
apply_hints (h ∷ hs) expire = apply_hints hs (
    if text_eq h (codes "transient")
    then some 5
    else if text_eq h (codes "persistent")
    then none
    else expire)

abbrev pub check_action : Option Text → Result NotificationError (Unit {0})
check_action none = ok tt
check_action (some t) = valid_id t

unfoldable pub parse_notification : Text → Text → Map Value → Result NotificationError Notification
parse_notification app id m = do
  valid_id app
  valid_id id
  let title = unwrap_or [] (get_string (codes "title") m)
  refuse_if (ltb max_title_chars (length title) || contains_char 0 title) invalid_title
  let body = parse_body m
  refuse_if (ltb max_body_bytes (utf8_len body) || contains_char 0 body) invalid_body
  refuse_if (is_empty (trim title) && is_empty (trim body)) nothing_to_show
  let priority = parse_priority (get_string (codes "priority") m)
  let default_action = non_empty (get_string (codes "default-action") m)
  check_action default_action
  buttons ← read_buttons (lookup (codes "buttons") m)
  ok (record {
    app_id = app;
    id = id;
    title = title;
    body = body;
    priority = priority;
    default_action = default_action;
    buttons = buttons;
    expire_hint =
        apply_hints (read_hints (lookup (codes "display-hint") m)) (default_expiry priority);
  })
