-- ===== src/Background/Request.antt =====
-- background.rs: the request, its consent dialog, and the autostart entry.
use xdg_desktop_portal_aegis.Prelude.{
  ℕ, ◌*◌, ◌-◌, Bool, true, false, not, ◌&&◌, ◌||◌, Option, none, some, List, [], ◌∷◌, ◌++◌, map,
  Text, codes, any_of, is_empty, length, contains_char, trim, is_control, join, ltb, leb, ◌==◌,
  utf8_len, char_len, if◌then◌else◌, Map, lookup, Result, ok, err, refuse_if, ◌>>◌,
}
use xdg_desktop_portal_aegis.Prompter.Choices.{PromptError}
use xdg_desktop_portal_aegis.Prompter.Dialogs.{ConfirmRequest, validate_confirm}
use xdg_desktop_portal_aegis.FileChooser.Options.{Value, strs, as_bool, filled_only}
use xdg_desktop_portal_aegis.Wallpaper.Request.{is_ascii_alphanumeric}

abbrev pub max_app_id_bytes : ℕ
max_app_id_bytes = 255

abbrev pub max_reason_bytes : ℕ
max_reason_bytes = 16 * 1024

abbrev pub max_commandline_args : ℕ
max_commandline_args = 64

abbrev pub max_arg_bytes : ℕ
max_arg_bytes = 4 * 1024

abbrev pub max_body_bytes : ℕ
max_body_bytes = 16 * 1024

pub record AutostartSpec : Type 0 where
  pub commandline : List Text
  pub dbus_activatable : Bool

pub data BackgroundError : Type 0 where
  invalid_app_id invalid_reason invalid_commandline : BackgroundError
  invalid_prompt : PromptError → BackgroundError

abbrev pub bad_id_char : ℕ → Bool
bad_id_char c = c == b'/' || c == 92 || is_control c

abbrev pub bad_arg : Text → Bool
bad_arg arg = is_empty arg || ltb max_arg_bytes (utf8_len arg) || contains_char 0 arg

abbrev pub as_strs : Option Value → List Text
as_strs (some (strs ts)) = ts
as_strs _ = []

-- The longest prefix of whole characters within so many bytes: `end` moved back to a boundary.
unfoldable pub truncate_at : ℕ → Text → Text
truncate_at n [] = []
truncate_at n (c ∷ s) =
    let rest = truncate_at (n - char_len c) s in if leb (char_len c) n then c ∷ rest else []

abbrev pub reason_part : Text → Text
reason_part reason = if is_empty (trim reason) then [] else codes "\n\n" ++ reason

abbrev pub autostart_part : Bool → Text
autostart_part true = codes "\n\nThe application also wants to start automatically when you log in."
autostart_part false = []

abbrev pub fitted : Text → Text
fitted body =
    if ltb max_body_bytes (utf8_len body)
    then truncate_at (max_body_bytes - 3) body ++ (0x2026 ∷ [])
    else body

unfoldable pub consent_body : Text → Text → Bool → Text
consent_body app_id reason autostart = fitted (
    (codes "The application '" ++ (app_id ++ codes "' wants to run in the background."))
    ++ (reason_part reason ++ autostart_part autostart))

abbrev pub background_prompt : Text → Text → Text → Bool → ConfirmRequest
background_prompt app_id parent reason autostart = record {
  title = codes "Run in Background";
  body = consent_body app_id reason autostart;
  accept_label = some (codes "_Allow");
  deny_label = none;
  modal = true;
  parent_window = filled_only (some parent);
}

abbrev pub prompt_checked : Result PromptError (Unit {0}) → Result BackgroundError (Unit {0})
prompt_checked (ok done) = ok tt
prompt_checked (err e) = err (invalid_prompt e)

abbrev pub spec_of : Bool → Bool → List Text → Option AutostartSpec
spec_of autostart activatable commandline =
    if autostart && not (is_empty commandline)
    then some (record { commandline = commandline; dbus_activatable = activatable })
    else none

unfoldable pub parse_request :
    Text → Text → Text → Map Value → Result BackgroundError (ConfirmRequest × Option AutostartSpec)
parse_request app_id parent reason options =
    let wants_autostart = as_bool false (lookup (codes "autostart") options) in
    let activatable = as_bool false (lookup (codes "dbus-activatable") options) in
    let commandline = as_strs (lookup (codes "commandline") options) in
    let prompt = background_prompt app_id parent reason wants_autostart in
    do
      refuse_if
          (is_empty app_id || ltb max_app_id_bytes (utf8_len app_id) || any_of bad_id_char app_id)
          invalid_app_id
      refuse_if (ltb max_reason_bytes (utf8_len reason) || contains_char 0 reason) invalid_reason
      refuse_if (ltb max_commandline_args (length commandline) || any_of bad_arg commandline)
          invalid_commandline
      prompt_checked (validate_confirm prompt)
      ok (prompt, spec_of wants_autostart activatable commandline)

-- The closure `safe`.
unfoldable pub is_safe : ℕ → Bool
is_safe c =
    is_ascii_alphanumeric c
    || c == b'-'
    || c == b'_'
    || c == b'.'
    || c == b'/'
    || c == b':'
    || c == b'@'
    || c == b'%'
    || c == b'='
    || c == b','
    || c == b'~'
    || c == b'+'

abbrev pub is_reserved : ℕ → Bool
is_reserved c = c == b'"' || c == b'`' || c == b'$' || c == 92

-- The loop that fills `quoted`, with the closing quote.
abbrev pub quoted : Text → Text
quoted [] = b'"' ∷ []
quoted (c ∷ t) = if is_reserved c then 92 ∷ c ∷ quoted t else c ∷ quoted t

-- `replace('%', "%%")`.
abbrev pub double_percent : Text → Text
double_percent [] = []
double_percent (c ∷ t) = if c == b'%' then b'%' ∷ b'%' ∷ double_percent t else c ∷ double_percent t

abbrev pub all_safe : Text → Bool
all_safe t = not (any_of (λ c. not (is_safe c)) t)

unfoldable pub quote_exec_arg : Text → Text
quote_exec_arg arg =
    double_percent (if not (is_empty arg) && all_safe arg then arg else b'"' ∷ quoted arg)

unfoldable pub exec_line : AutostartSpec → Text
exec_line spec = join (codes " ") (map quote_exec_arg spec.commandline)

unfoldable pub render_desktop_entry : Text → AutostartSpec → Text
render_desktop_entry app_id spec =
    codes "[Desktop Entry]\nType=Application\nName="
    ++ (app_id
        ++ (codes "\nExec="
            ++ (exec_line spec
                ++ (codes "\n"
                    ++ ((if spec.dbus_activatable then codes "DBusActivatable=true\n" else [])
                        ++ codes "X-Tessera-Portal=background\n")))))
