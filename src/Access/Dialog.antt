-- ===== src/Access/Dialog.antt =====
-- access.rs: the dialog of a request, and the answer to it.
use xdg_desktop_portal_aegis.Prelude.{
  ℕ, ◌*◌, Bool, true, false, ◌&&◌, ◌||◌, Option, none, some, ◌++◌, Text, codes, is_empty,
  contains_char, trim, ltb, utf8_len, if◌then◌else◌, Map, lookup, Result, ok, err, refuse_if, ◌>>◌,
  ◌>>=◌,
}
use xdg_desktop_portal_aegis.Prompter.Dialogs.{ConfirmRequest, confirmed, confirm_cancelled}
use xdg_desktop_portal_aegis.Prompter.Envelope.{of_confirm}
use xdg_desktop_portal_aegis.FileChooser.Options.{Value, str, as_bool, filled_only}
use xdg_desktop_portal_aegis.FileChooser.Pick.{
  Invoked, answered_by, closed_meanwhile, invoke_failed,
}

abbrev pub max_dialog_text_bytes : ℕ
max_dialog_text_bytes = 16 * 1024

abbrev pub max_label_bytes : ℕ
max_label_bytes = 256

pub data DialogError : Type 0 where
  invalid_dialog_text invalid_label : Text → DialogError
  all_empty : DialogError

abbrev pub check_text : Text → Text → Result DialogError (Unit {0})
check_text name text =
    refuse_if (ltb max_dialog_text_bytes (utf8_len text) || contains_char 0 text)
      (invalid_dialog_text name)

abbrev pub is_blank : Text → Bool
is_blank t = is_empty (trim t)

-- The closure `text`, with the limit of labels.
abbrev pub label_of : Text → Option Value → Result DialogError (Option Text)
label_of name (some (str t)) =
    if ltb max_label_bytes (utf8_len t) || contains_char 0 t
    then err (invalid_label name)
    else ok (some t)
label_of name _ = ok none

-- The title and the body of the dialog.
unfoldable pub two_texts : Text → Text → Text → Text × Text
two_texts title subtitle body =
    if is_blank title
    then (subtitle, body)
    else if is_blank subtitle
    then (title, body)
    else if is_blank body
    then (title, subtitle)
    else (title, subtitle ++ (codes "\n\n" ++ body))

unfoldable pub dialog_request :
    Text → Text → Text → Text → Map Value → Result DialogError ConfirmRequest
dialog_request window title subtitle body options = do
  check_text (codes "title") title
  check_text (codes "subtitle") subtitle
  check_text (codes "body") body
  refuse_if (is_blank title && is_blank subtitle && is_blank body) all_empty
  deny ← label_of (codes "deny_label") (lookup (codes "deny_label") options)
  grant ← label_of (codes "grant_label") (lookup (codes "grant_label") options)
  ok (record {
    title = (two_texts title subtitle body).0;
    body = (two_texts title subtitle body).1;
    accept_label = grant;
    deny_label = deny;
    modal = as_bool true (lookup (codes "modality") options);
    parent_window = filled_only (some window);
  })

-- The response code, of whether the request was closed before and of what the prompter answers.
unfoldable pub run_dialog : Bool → Invoked → ℕ
run_dialog true prompted = 1
run_dialog false (answered_by (of_confirm confirmed)) = 0
run_dialog false (answered_by (of_confirm confirm_cancelled)) = 1
run_dialog false closed_meanwhile = 1
run_dialog false (answered_by other) = 2
run_dialog false (invoke_failed message) = 2
