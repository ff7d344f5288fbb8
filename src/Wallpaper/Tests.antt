-- ===== src/Wallpaper/Tests.antt =====
-- Examples of wallpapers: a JPEG is staged beside a PNG that was applied before.
use xdg_desktop_portal_aegis.Prelude.{
  ◌≡◌, refl, true, false, some, [], ◌∷◌, Text, codes, ok, text_eq, lookup, insert, erase, split,
  utf8_len, strip_prefix,
}
use xdg_desktop_portal_aegis.Prompter.Dialogs.{confirmed}
use xdg_desktop_portal_aegis.Prompter.Envelope.{of_confirm}
use xdg_desktop_portal_aegis.FileChooser.Pick.{answered_by}
use xdg_desktop_portal_aegis.Wallpaper.Request.{parse_request, staged_name, extension, file_name}
use xdg_desktop_portal_aegis.Wallpaper.Set.{
  Directory, Surroundings, staged, run_set_staged, preview_consent, settle_staged, prune_staging,
}
use xdg_desktop_portal_aegis.Wallpaper.SetLaws.{IsAsTold, run_set_staged_told}
use xdg_desktop_portal_aegis.Prompter.Paths.{components, pieces}
use xdg_desktop_portal_aegis.Files.Uri.{path_from_file_uri, decode_bytes, hex}

abbrev same : Text → Text
same t = t

abbrev jpg : Text
jpg = codes "current.jpg"

abbrev png : Text
png = codes "current.png"

abbrev before : Directory
before = (png, 1 ∷ []) ∷ []

abbrev well : Surroundings
well = record {
  closed_before = false;
  closed_after = false;
  file = some (2 ∷ 3 ∷ []);
  prompted = answered_by (of_confirm confirmed);
  staging = staged;
  applied = true;
  listed = true;
  removable = λ t. true;
}

abbrev refused : Surroundings
refused = record {
  closed_before = false;
  closed_after = false;
  file = some (2 ∷ 3 ∷ []);
  prompted = answered_by (of_confirm confirmed);
  staging = staged;
  applied = false;
  listed = true;
  removable = λ t. true;
}

other_name : text_eq jpg png ≡ false
unfolding text_eq
other_name = refl

run_set_staged_told_example :
    IsAsTold well true jpg before png
      (run_set_staged well true jpg before).code
      (run_set_staged well true jpg before)
run_set_staged_told_example = run_set_staged_told well true jpg before png other_name

jpg_applied : (run_set_staged well true jpg before).directory ≡ ((jpg, 2 ∷ 3 ∷ []) ∷ [])
unfolding run_set_staged preview_consent settle_staged prune_staging insert text_eq
jpg_applied = refl

-- The applied PNG stays when the compositor refuses a JPEG, and is gone when it refuses a PNG.
png_kept : (run_set_staged refused true jpg before).directory ≡ before
unfolding run_set_staged preview_consent settle_staged erase insert text_eq
png_kept = refl

png_gone : (run_set_staged refused true png before).directory ≡ []
unfolding run_set_staged preview_consent settle_staged erase insert text_eq
png_gone = refl

named : staged_name same some same (codes "/tmp/wall.jpg") ≡ jpg
unfolding staged_name extension file_name components pieces split text_eq
named = refl

named_img : staged_name same some same (codes "/tmp/wall.p ng") ≡ codes "current.img"
unfolding staged_name extension file_name components pieces split text_eq
named_img = refl

local_file : parse_request (codes "file:///a%20b") [] ≡ ok (codes "/a b", false)
unfolding parse_request utf8_len strip_prefix path_from_file_uri decode_bytes hex lookup
local_file = refl
