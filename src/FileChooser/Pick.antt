-- ===== src/FileChooser/Pick.antt =====
-- file_chooser.rs: a request on its way through the worker and the prompter, and the answer.
use xdg_desktop_portal_aegis.Prelude.{
  ℕ, ◌+◌, Bool, false, Option, none, some, List, [], ◌∷◌, Text, is_empty, leb, if◌then◌else◌,
  Result, ok, err,
}
use xdg_desktop_portal_aegis.Prompter.Paths.{Bytes}
use xdg_desktop_portal_aegis.Prompter.Choices.{PromptError}
use xdg_desktop_portal_aegis.Prompter.Files.{
  FileFilter, FileChooserRequest, validate_request, FileChooserResponse, selected_files,
  cancelled_files, failed_files, validate_response,
}
use xdg_desktop_portal_aegis.Prompter.Envelope.{PromptResult, of_files}
use xdg_desktop_portal_aegis.Files.Uri.{file_uri}
use xdg_desktop_portal_aegis.FileChooser.Options.{WireFilter, filter_to_wire}

abbrev pub max_request_bytes : ℕ
max_request_bytes = 1048576

abbrev pub max_active_file_choosers : ℕ
max_active_file_choosers = 32

-- The response code and the results, those that are present.
pub record Response : Type 0 where
  pub code : ℕ
  pub uris : Option (List Bytes)
  pub filter : Option WireFilter
  pub answers : Option (List (Text × Text))

abbrev pub cancelled : Response
cancelled = record { code = 1; uris = none; filter = none; answers = none }

abbrev pub failed : Response
failed = record { code = 2; uris = none; filter = none; answers = none }

unfoldable pub uris_of : List Bytes → List Bytes
uris_of [] = []
uris_of (p ∷ ps) = if is_empty p then uris_of ps else file_uri p ∷ uris_of ps

abbrev pub wire_of : Option FileFilter → Option WireFilter
wire_of none = none
wire_of (some f) = some (filter_to_wire f)

-- `build_results`, in a response of code 0.
unfoldable pub build_results : List Bytes → Option FileFilter → List (Text × Text) → Response
build_results paths filter answers = record {
  code = 0;
  uris = some (uris_of paths);
  filter = wire_of filter;
  answers = if is_empty answers then none else some answers;
}

-- What `prompter::invoke` comes to.
pub data Invoked : Type 0 where
  answered_by : PromptResult → Invoked
  closed_meanwhile : Invoked
  invoke_failed : Text → Invoked

-- `invoke_prompter`, of which the messages are only logged.
unfoldable pub invoke_prompter : Invoked → Option FileChooserResponse
invoke_prompter (answered_by (of_files r)) = some r
invoke_prompter (answered_by _) = none
invoke_prompter closed_meanwhile = some cancelled_files
invoke_prompter (invoke_failed message) = none

abbrev pub checked_results :
    FileChooserRequest
    → List Bytes
    → Option FileFilter
    → List (Text × Text)
    → Result PromptError (Unit {0})
    → Response
checked_results r paths filter answers (err e) = failed
checked_results r paths filter answers (ok done) = build_results paths filter answers

-- `closed_after` is whether the request was closed when the prompter had answered.
abbrev pub settle_pick : Bool → FileChooserRequest → Option FileChooserResponse → Response
settle_pick closed_after r none = failed
settle_pick closed_after r (some cancelled_files) = cancelled
settle_pick closed_after r (some (failed_files message)) = failed
settle_pick closed_after r (some (selected_files paths filter answers)) =
    if closed_after
    then cancelled
    else checked_results r paths filter answers
        (validate_response (selected_files paths filter answers) r)

abbrev pub pick_valid :
    Bool → FileChooserRequest → Invoked → Result PromptError (Unit {0}) → Response
pick_valid closed_after r invoked (err e) = failed
pick_valid closed_after r invoked (ok done) = settle_pick closed_after r (invoke_prompter invoked)

unfoldable pub run_pick : Bool → Bool → FileChooserRequest → Invoked → Response
run_pick closed_before closed_after r invoked =
    if closed_before then cancelled else pick_valid closed_after r invoked (validate_request r)

-- The test of a call before it is queued; `encoded` is the length of its encoding, if it has one.
abbrev pub within_bytes : Option ℕ → Bool
within_bytes none = false
within_bytes (some n) = leb n max_request_bytes

unfoldable pub accepts_call : FileChooserRequest → Option ℕ → Bool
accepts_call r encoded = elim (validate_request r) [
  | err e ↦ false
  | ok done ↦ within_bytes encoded
]

-- One job that the worker takes: whether a task was spawned, and the tasks that are active then.
unfoldable pub take_job : Bool → ℕ → Option Response × ℕ
take_job spawned active =
    if leb max_active_file_choosers active
    then (some failed, active)
    else if spawned
    then (none, active + 1)
    else (some failed, active)
