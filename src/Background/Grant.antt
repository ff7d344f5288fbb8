-- ===== src/Background/Grant.antt =====
-- background.rs: the consent, and the autostart entry that follows it.
use xdg_desktop_portal_aegis.Prelude.{
  ℕ, Bool, true, false, ◌++◌, Option, none, some, Text, codes, if◌then◌else◌, Map, insert, erase,
  decimal,
}
use xdg_desktop_portal_aegis.Prompter.Dialogs.{confirmed, confirm_cancelled}
use xdg_desktop_portal_aegis.Prompter.Envelope.{of_confirm}
use xdg_desktop_portal_aegis.FileChooser.Pick.{
  Invoked, answered_by, closed_meanwhile, invoke_failed,
}
use xdg_desktop_portal_aegis.Background.Request.{AutostartSpec, render_desktop_entry}

-- The entries of the autostart folder by their file names.
abbrev pub Entries : Type 0
Entries = Map Text

-- The response code, the result `autostart` where there are results, and the entries then.
pub record Granted : Type 0 where
  pub code : ℕ
  pub autostart : Option Bool
  pub entries : Entries

abbrev pub entry_name : Text → Text
entry_name app_id = app_id ++ codes ".desktop"

-- The file that is written first, in the process with the number `pid`.
abbrev pub temporary_name : ℕ → Text → Text
temporary_name pid app_id = codes "." ++ (app_id ++ (codes ".desktop.atrium-" ++ decimal pid))

-- How `write_autostart_entry` ends: with no folder or before the temporary file is opened; with that
-- file cut short, at the text that it then holds; with it whole, where its permissions or its name
-- could not be changed; or well.
pub data WriteEnd : Type 0 where
  not_opened : WriteEnd
  cut_short : Text → WriteEnd
  not_renamed renamed : WriteEnd

-- Whether the entry is written, and the folder then: no failure removes the temporary file.
unfoldable pub write_autostart_entry :
    ℕ → WriteEnd → Text → AutostartSpec → Entries → Bool × Entries
write_autostart_entry pid not_opened app_id spec d = (false, d)
write_autostart_entry pid (cut_short left) app_id spec d =
    (false, insert (temporary_name pid app_id) left d)
write_autostart_entry pid not_renamed app_id spec d =
    (false, insert (temporary_name pid app_id) (render_desktop_entry app_id spec) d)
write_autostart_entry pid renamed app_id spec d =
    let content = render_desktop_entry app_id spec in
    let temporary = temporary_name pid app_id in
    (true, insert (entry_name app_id) content (erase temporary (insert temporary content d)))

abbrev pub granted_with : Bool × Entries → Granted
granted_with (written, d) = record { code = 0; autostart = some written; entries = d }

unfoldable pub write_autostart : ℕ → WriteEnd → Text → Option AutostartSpec → Entries → Granted
write_autostart pid end app_id none d = granted_with (false, d)
write_autostart pid end app_id (some spec) d =
    granted_with (write_autostart_entry pid end app_id spec d)

abbrev pub without_grant : ℕ → Entries → Granted
without_grant code d = record { code = code; autostart = none; entries = d }

unfoldable pub run_request :
    Bool → Bool → ℕ → WriteEnd → Text → Invoked → Option AutostartSpec → Entries → Granted
run_request true closed_after pid end app_id prompted spec d = without_grant 1 d
run_request false closed_after pid end app_id (answered_by (of_confirm confirmed)) spec d =
    if closed_after then without_grant 1 d else write_autostart pid end app_id spec d
run_request false closed_after pid end app_id (answered_by (of_confirm confirm_cancelled)) spec d =
    without_grant 1 d
run_request false closed_after pid end app_id closed_meanwhile spec d = without_grant 1 d
run_request false closed_after pid end app_id (answered_by other) spec d = without_grant 2 d
run_request false closed_after pid end app_id (invoke_failed message) spec d = without_grant 2 d
