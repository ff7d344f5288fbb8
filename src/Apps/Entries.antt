-- ===== src/Apps/Entries.antt =====
-- apps/desktop.rs: the readers of `globs2` and of desktop files. A file is its bytes, or `none` where
-- it cannot be opened or read.
use xdg_desktop_portal_aegis.Prelude.{
  ℕ, suc, ◌+◌, ◌-◌, ◌*◌, ◌^◌, Bool, false, not, ◌&&◌, ◌||◌, Option, none, some, List, [], ◌∷◌, Text,
  codes, text_eq, utf8_len, trim, trim_end, split_once, split, ltb, leb, ◌==◌, if◌then◌else◌,
  is_empty, any_of, unwrap_or, take,
}
use xdg_desktop_portal_aegis.Apps.Desktop.{
  lines, header_of, list_items, starts_with_hash, max_entry_bytes, read_capped,
}
use xdg_desktop_portal_aegis.Apps.Uri.{Bytes}

abbrev pub max_globs : ℕ
max_globs = 16384

abbrev pub max_exec_bytes : ℕ
max_exec_bytes = 8192

-- `str::parse` of a `u32`: an optional plus, at least one digit, less than 2 ^ 32.
abbrev digits_value : ℕ → Text → Option ℕ
digits_value n [] = if ltb n (2 ^ 32) then some n else none
digits_value n (c ∷ s) =
    if leb b'0' c && leb c b'9' then digits_value (n * 10 + (c - b'0')) s else none

abbrev unsigned : Text → Option ℕ
unsigned [] = none
unsigned (c ∷ s) = digits_value 0 (c ∷ s)

abbrev parse_u32 : Text → Option ℕ
parse_u32 [] = none
parse_u32 (c ∷ s) = if c == b'+' then unsigned s else unsigned (c ∷ s)

pub record GlobRule : Type 0 where
  pub priority : ℕ
  pub glob : Text
  pub mime : Text
  pub case_sensitive : Bool

-- A line of the form `priority:glob:mimetype[:flags]`.
unfoldable pub glob_rule : Text → Option GlobRule
glob_rule line = elim (split_once b':' line) [
  | none ↦ none
  | some (priority, rest) ↦ elim (parse_u32 (trim priority)) [
    | none ↦ none
    | some p ↦ elim (split_once b':' rest) [
      | none ↦ none
      | some (glob, more) ↦
          let parts : Text × Text = unwrap_or (more, []) (split_once b':' more) in
          if is_empty glob || is_empty parts.0
          then none
          else some (record {
            priority = p;
            glob = glob;
            mime = parts.0;
            case_sensitive =
                any_of (λ (flag : Text). text_eq (trim flag) (codes "cs")) (split b',' parts.1);
          })
    ]
  ]
]

-- The loop of `parse_globs2`, with `n` rules read.
unfoldable pub parse_rules : ℕ → List Text → List GlobRule
unfolding glob_rule
parse_rules n [] = []
parse_rules n (line ∷ ls) =
    let skip = parse_rules n ls in
    let more = parse_rules (suc n) ls in
    if starts_with_hash line || is_empty (trim line)
    then skip
    else elim (glob_rule line) [ none ↦ skip | some r ↦ if leb max_globs n then skip else r ∷ more ]

abbrev pub max_globs_bytes : ℕ
max_globs_bytes = 1048576

unfoldable pub parse_globs2 : (Bytes → Text) → Option Bytes → List GlobRule
parse_globs2 from_utf8_lossy file = elim (read_capped from_utf8_lossy max_globs_bytes file) [
  | none ↦ []
  | some text ↦ parse_rules 0 (lines text)
]

pub record AppInfo : Type 0 where
  pub id : Text
  pub name : Text
  pub exec : Text
  pub icon : Option Text
  pub terminal : Bool
  pub no_display : Bool
  pub mime_types : List Text

-- The variables of the loop of `parse_desktop_file`.
pub record Fields : Type 0 where
  pub in_entry : Bool
  pub name : Option Text
  pub exec : Option Text
  pub icon : Option Text
  pub no_display : Bool
  pub terminal : Bool
  pub mime_types : List Text

abbrev pub no_fields : Fields
no_fields = record {
  in_entry = false;
  name = none;
  exec = none;
  icon = none;
  no_display = false;
  terminal = false;
  mime_types = [];
}

-- One `key=value`; `none` deletes the entry from view.
unfoldable pub set_field : Text → Text → Fields → Option Fields
set_field key value f =
    if text_eq key (codes "Name")
    then some (record f { name = some value })
    else if text_eq key (codes "Exec") && leb (utf8_len value) max_exec_bytes
    then some (record f { exec = some value })
    else if text_eq key (codes "Icon") && not (is_empty value)
    then some (record f { icon = some value })
    else if text_eq key (codes "NoDisplay")
    then some (record f { no_display = text_eq value (codes "true") })
    else if text_eq key (codes "Hidden") && text_eq value (codes "true")
    then none
    else if text_eq key (codes "Terminal")
    then some (record f { terminal = text_eq value (codes "true") })
    else if text_eq key (codes "MimeType")
    then some (record f { mime_types = list_items value })
    else some f

unfoldable pub field_line : Fields → Text → Option Fields
unfolding set_field
field_line f line = elim (header_of line) [
  | some group ↦ some (record f { in_entry = text_eq group (codes "Desktop Entry") })
  | none ↦ if not f.in_entry || starts_with_hash line then some f else elim (split_once b'=' line) [
    | none ↦ some f
    | some (key, value) ↦ set_field (trim key) (trim value) f
  ]
]

unfoldable pub field_lines : Fields → List Text → Option Fields
unfolding field_line
field_lines f [] = some f
field_lines f (l ∷ ls) = elim (field_line f (trim_end l)) [
  | none ↦ none
  | some g ↦ field_lines g ls
]

abbrev app_of : Text → Fields → Option Text → Option Text → Option AppInfo
app_of id f (some name) (some exec) = some (record {
  id = id;
  name = take 256 name;
  exec = exec;
  icon = f.icon;
  terminal = f.terminal;
  no_display = f.no_display;
  mime_types = f.mime_types;
})
app_of id f _ _ = none

abbrev pub app_of_text : Text → Option Text → Option AppInfo
app_of_text id none = none
app_of_text id (some text) = elim (field_lines no_fields (lines text)) [
  | none ↦ none
  | some f ↦ app_of id f f.name f.exec
]

unfoldable pub parse_desktop_file : (Bytes → Text) → Option Bytes → Text → Option AppInfo
parse_desktop_file from_utf8_lossy file id =
    app_of_text id (read_capped from_utf8_lossy max_entry_bytes file)
