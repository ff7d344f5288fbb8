-- ===== src/Wallpaper/Request.antt =====
-- wallpaper.rs: the options of a call, the bounded image, the staged file's name, the preview.
use xdg_desktop_portal_aegis.Prelude.{
  ℕ, ◌+◌, ◌*◌, Bool, true, false, not, ◌&&◌, ◌||◌, Option, none, some, List, [], ◌∷◌, ◌++◌, Text,
  codes, text_eq, any_of, is_empty, is_some, length, take, strip_prefix, unwrap_or, ltb, leb,
  utf8_len, if◌then◌else◌, Map, lookup, Result, ok, ok_or, refuse_if, ◌>>◌, ◌>>=◌,
}
use xdg_desktop_portal_aegis.Prompter.Paths.{
  Bytes, Component, root_dir, cur_dir, parent_dir, normal, components, last_dot,
}
use xdg_desktop_portal_aegis.Prompter.Dialogs.{ConfirmRequest}
use xdg_desktop_portal_aegis.Files.Uri.{path_from_file_uri}
use xdg_desktop_portal_aegis.FileChooser.Options.{Value, str, as_bool}

abbrev pub max_wallpaper_image_bytes : ℕ
max_wallpaper_image_bytes = 67108864

pub data WallpaperError : Type 0 where
  uri_oversized uri_not_file uri_not_local : WallpaperError
  unknown_set_on : Text → WallpaperError

abbrev pub known_place : Text → Bool
known_place t =
    is_empty t
    || text_eq t (codes "background")
    || text_eq t (codes "lockscreen")
    || text_eq t (codes "both")

abbrev pub parse_set_on : Option Value → Result WallpaperError (Unit {0})
parse_set_on (some (str t)) = refuse_if (not (known_place t)) (unknown_set_on t)
parse_set_on _ = ok tt

unfoldable pub parse_request : Text → Map Value → Result WallpaperError (Bytes × Bool)
parse_request uri options = do
  refuse_if (ltb (8 * 1024) (utf8_len uri)) uri_oversized
  refuse_if (not (is_some (strip_prefix (codes "file://") uri))) uri_not_file
  path ← ok_or (path_from_file_uri uri) uri_not_local
  parse_set_on (lookup (codes "set-on") options)
  ok (path, as_bool false (lookup (codes "show-preview") options))

-- `read_image`, of the file's bytes; `none` is a file that cannot be opened or read.
abbrev pub read_image : Option Bytes → Option Bytes
read_image none = none
read_image (some file) =
    let bytes = take (max_wallpaper_image_bytes + 1) file in
    if is_empty bytes || ltb max_wallpaper_image_bytes (length bytes) then none else some bytes

abbrev pub last_normal : List Component → Option Bytes
last_normal [] = none
last_normal (normal name ∷ []) = some name
last_normal (root_dir ∷ []) = none
last_normal (cur_dir ∷ []) = none
last_normal (parent_dir ∷ []) = none
last_normal (c ∷ d ∷ cs) = last_normal (d ∷ cs)

-- `Path::file_name`.
unfoldable pub file_name : Bytes → Option Bytes
file_name p = last_normal (components p)

abbrev pub behind_dot : Option (Bytes × Bytes) → Option Bytes
behind_dot none = none
behind_dot (some (before, behind)) = if is_empty before then none else some behind

abbrev pub name_extension : Option Bytes → Option Bytes
name_extension none = none
name_extension (some name) = behind_dot (last_dot name)

-- `Path::extension`.
unfoldable pub extension : Bytes → Option Bytes
extension p = name_extension (file_name p)

abbrev pub is_ascii_alphanumeric : ℕ → Bool
is_ascii_alphanumeric c =
    (leb b'0' c && leb c b'9') || (leb b'A' c && leb c b'Z') || (leb b'a' c && leb c b'z')

abbrev pub kept_extension : Text → Text
kept_extension e =
    if is_empty e || any_of (λ c. not (is_ascii_alphanumeric c)) e then codes "img" else e

-- `staging_dir_from`; the directory under it is fixed.
abbrev pub staging_base : Option Bytes → Option Bytes
staging_base none = none
staging_base (some dir) = if is_empty dir then none else some dir

-- `str::to_lowercase`, and the readings of a byte string as a text: exact, and with replacements.
module _ (lower : Text → Text) (from_utf8 : Bytes → Option Text) (lossy : Bytes → Text) where
  abbrev pub lowered : Option Bytes → Text
  lowered none = codes "img"
  lowered (some e) = elim (from_utf8 e) [ none ↦ codes "img" | some t ↦ kept_extension (lower t) ]

  unfoldable pub staged_name : Bytes → Text
  staged_name image_path = codes "current." ++ lowered (extension image_path)

  -- The dialog of `preview_consent`.
  unfoldable pub preview_prompt : Text → Bytes → Option Text → ConfirmRequest
  preview_prompt app_id image_path parent = record {
    title = codes "Set Wallpaper";
    body =
        codes "The application '"
        ++ (app_id
            ++ (codes "' wants to set '"
                ++ (lossy (unwrap_or image_path (file_name image_path))
                    ++ codes "' as the wallpaper.")));
    accept_label = some (codes "_Set Wallpaper");
    deny_label = none;
    modal = true;
    parent_window = parent;
  }
