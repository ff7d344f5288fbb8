-- ===== src/Background/Tests.antt =====
-- Examples of a request to run in the background, and of its autostart entry.
use xdg_desktop_portal_aegis.Prelude.{
  ◌≡◌, ◌≤◌, refl, true, false, some, [], ◌∷◌, ◌++◌, codes, ok, utf8_len, Map, join, is_control,
  lookup, text_eq, trim_end, trim_start, is_whitespace,
}
use xdg_desktop_portal_aegis.Apps.Uri.{value}
use xdg_desktop_portal_aegis.Apps.Exec.{expand_exec}
use xdg_desktop_portal_aegis.FileChooser.Options.{Value, bool, strs}
use xdg_desktop_portal_aegis.Background.Request.{
  AutostartSpec, max_body_bytes, consent_body, background_prompt, parse_request, exec_line,
  render_desktop_entry, quote_exec_arg, is_safe,
}
use xdg_desktop_portal_aegis.Background.EntryLaws.{expand_exec-exec_line}
use xdg_desktop_portal_aegis.Background.BodyLaws.{consent_body_fits}
use xdg_desktop_portal_aegis.Prompter.Dialogs.{validate_confirm}
use xdg_desktop_portal_aegis.Prompter.Choices.{validate_prompt_text}
use xdg_desktop_portal_aegis.Prompter.Dialogs.{confirmed}
use xdg_desktop_portal_aegis.Prompter.Envelope.{of_confirm}
use xdg_desktop_portal_aegis.FileChooser.Pick.{Invoked, answered_by}
use xdg_desktop_portal_aegis.Background.Grant.{renamed, run_request}
use xdg_desktop_portal_aegis.Background.GrantLaws.{Tells, run_request_told}

abbrev syncing : AutostartSpec
syncing = record {
  commandline = codes "sync" ∷ codes "--at=50%" ∷ codes "a \"b\"" ∷ [];
  dbus_activatable = false;
}

syncing_line : exec_line syncing ≡ codes "sync --at=50%% \"a \\\"b\\\"\""
unfolding exec_line join quote_exec_arg is_safe
syncing_line = refl

expand_exec-exec_line_example :
    expand_exec some [] (exec_line syncing) ≡ value (syncing.commandline ++ [])
expand_exec-exec_line_example = expand_exec-exec_line some [] syncing (refl, (refl, (refl, tt)))

consent_body_fits_example :
    utf8_len (consent_body (codes "org.example.Sync") (codes "to sync") true) ≤ max_body_bytes
consent_body_fits_example = consent_body_fits (codes "org.example.Sync") (codes "to sync") true

-- A line break in an argument ends the line of the entry.
abbrev broken : AutostartSpec
broken = record { commandline = codes "a\nHidden=true" ∷ []; dbus_activatable = false }

broken_entry :
    render_desktop_entry (codes "x") broken
    ≡ codes
        "[Desktop Entry]\nType=Application\nName=x\nExec=\"a\nHidden=true\"\nX-Tessera-Portal=background\n"
unfolding render_desktop_entry exec_line join quote_exec_arg is_safe
broken_entry = refl

abbrev broken_options : Map Value
broken_options =
    (codes "autostart", bool true) ∷ (codes "commandline", strs (broken.commandline)) ∷ []

broken_accepted :
    parse_request (codes "x") [] [] broken_options
    ≡ ok (background_prompt (codes "x") [] [] true, some broken)
unfolding parse_request utf8_len is_control lookup text_eq validate_confirm validate_prompt_text
    trim_end trim_start is_whitespace consent_body
broken_accepted = refl

abbrev agreed : Invoked
agreed = answered_by (of_confirm confirmed)

run_request_told_example :
    Tells false false 7
      (codes "x")
      agreed
      (some syncing)
      []
      (run_request false false 7 renamed (codes "x") agreed (some syncing) []).autostart
      (run_request false false 7 renamed (codes "x") agreed (some syncing) [])
run_request_told_example =
    run_request_told false false 7 renamed (codes "x") agreed (some syncing) []
