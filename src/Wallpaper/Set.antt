-- ===== src/Wallpaper/Set.antt =====
-- wallpaper.rs: one request against the staging directory.
use xdg_desktop_portal_aegis.Prelude.{
  ℕ, Bool, true, false, not, ◌||◌, Option, none, some, Text, text_eq, retain, if◌then◌else◌, Map,
  insert, erase, Result, ok, err,
}
use xdg_desktop_portal_aegis.Prompter.Paths.{Bytes}
use xdg_desktop_portal_aegis.Prompter.Dialogs.{confirmed, confirm_cancelled}
use xdg_desktop_portal_aegis.Prompter.Envelope.{of_confirm}
use xdg_desktop_portal_aegis.FileChooser.Pick.{
  Invoked, answered_by, closed_meanwhile, invoke_failed,
}
use xdg_desktop_portal_aegis.Wallpaper.Request.{read_image}

-- The staged files by their names.
abbrev pub Directory : Type 0
Directory = Map Bytes

-- How `write_atomic` ends: before its rename, after it with an error, or well.
pub data Staging : Type 0 where
  not_renamed not_synced staged : Staging

-- What a request meets: the request's state before and after the prompt, the image file, the
-- prompter, the write, the compositor's answer, the directory's listing and removals.
pub record Surroundings : Type 0 where
  pub closed_before : Bool
  pub closed_after : Bool
  pub file : Option Bytes
  pub prompted : Invoked
  pub staging : Staging
  pub applied : Bool
  pub listed : Bool
  pub removable : Text → Bool

-- The response code, the directory then, and the name that the compositor was given.
pub record Outcome : Type 0 where
  pub code : ℕ
  pub directory : Directory
  pub sent : Option Text

abbrev pub leave : ℕ → Directory → Outcome
leave code d = record { code = code; directory = d; sent = none }

pub data PreviewError : Type 0 where
  wrong_kind prompter_failed : PreviewError

-- `preview_consent`.
unfoldable pub preview_consent : Invoked → Result PreviewError Bool
preview_consent (answered_by (of_confirm confirmed)) = ok true
preview_consent (answered_by (of_confirm confirm_cancelled)) = ok false
preview_consent closed_meanwhile = ok false
preview_consent (answered_by other) = err wrong_kind
preview_consent (invoke_failed message) = err prompter_failed

abbrev pub consent : Bool → Invoked → Result PreviewError Bool
consent false prompted = ok true
consent true prompted = preview_consent prompted

-- `prune_staging`.
unfoldable pub prune_staging : Bool → (Text → Bool) → Text → Directory → Directory
prune_staging listed removable keep d =
    if listed then retain (λ f. text_eq keep f.0 || not (removable f.0)) d else d

-- From the receipt of the compositor on.
unfoldable pub settle_staged : Surroundings → Text → Directory → Outcome
settle_staged e name d =
    if e.applied
    then record {
      code = 0;
      directory = prune_staging e.listed e.removable name d;
      sent = some name;
    }
    else record {
      code = 2;
      directory = if e.removable name then erase name d else d;
      sent = some name;
    }

abbrev pub stage_image : Surroundings → Text → Bytes → Directory → Staging → Outcome
stage_image e name image d not_renamed = leave 2 d
stage_image e name image d not_synced = leave 2 (insert name image d)
stage_image e name image d staged = settle_staged e name (insert name image d)

abbrev pub with_consent :
    Surroundings → Text → Bytes → Directory → Result PreviewError Bool → Outcome
with_consent e name image d (err f) = leave 2 d
with_consent e name image d (ok false) = leave 1 d
with_consent e name image d (ok true) =
    if e.closed_after then leave 1 d else stage_image e name image d e.staging

abbrev pub with_image : Surroundings → Bool → Text → Directory → Option Bytes → Outcome
with_image e show_preview name d none = leave 2 d
with_image e show_preview name d (some image) =
    with_consent e name image d (consent show_preview e.prompted)

-- `name` is the staged name of the image's path.
unfoldable pub run_set_staged : Surroundings → Bool → Text → Directory → Outcome
run_set_staged e show_preview name d =
    if e.closed_before then leave 1 d else with_image e show_preview name d (read_image e.file)
