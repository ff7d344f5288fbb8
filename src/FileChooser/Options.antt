-- ===== src/FileChooser/Options.antt =====
-- file_chooser.rs: the options of a call, and the request that it makes of them.
use xdg_desktop_portal_aegis.Prelude.{
  ℕ, Bool, true, false, not, ◌&&◌, ◌||◌, Option, none, some, List, [], ◌∷◌, map, Text, codes,
  contains_char, is_empty, unwrap_or, retain, ◌==◌, if◌then◌else◌, Map, lookup,
}
use xdg_desktop_portal_aegis.Prompter.Choices.{Choice}
use xdg_desktop_portal_aegis.Prompter.Paths.{Bytes, is_absolute}
use xdg_desktop_portal_aegis.Prompter.Files.{
  open_file, open_directory, save_file, save_files, FilterRuleKind, glob, mime, FilterRule,
  FileFilter, FileChooserRequest,
}

-- A filter on the wire: its label, and its rules with the number of their kind.
abbrev pub WireFilter : Type 0
WireFilter = Text × List (ℕ × Text)

abbrev pub WireChoice : Type 0
WireChoice = Text × Text × List (Text × Text) × Text

-- A D-Bus value, as far as these options are read from it.
pub data Value : Type 0 where
  bool : Bool → Value
  str : Text → Value
  bytes : Bytes → Value
  byte_arrays : List Bytes → Value
  strs : List Text → Value
  filter : WireFilter → Value
  filters : List WireFilter → Value
  choices : List WireChoice → Value
  other : Value

pub record ParsedOptions : Type 0 where
  pub modal : Bool
  pub multiple : Bool
  pub directory : Bool
  pub accept_label : Option Text
  pub current_folder : Option Bytes
  pub current_name : Option Text
  pub current_file : Option Bytes
  pub filters_given : List FileFilter
  pub current_filter : Option FileFilter
  pub choices_given : List Choice
  pub save_names : List Bytes

-- The bytes in front of a zero at the end, if one is there.
abbrev pub before_nul : Bytes → Option Bytes
before_nul [] = none
before_nul (b ∷ []) = if b == 0 then some [] else none
before_nul (b ∷ c ∷ bs) = elim (before_nul (c ∷ bs)) [ none ↦ none | some t ↦ some (b ∷ t) ]

abbrev pub whole_name : Option Bytes → Option Bytes
whole_name none = none
whole_name (some t) = if is_empty t || contains_char 0 t then none else some t

unfoldable pub byte_path : Bytes → Option Bytes
byte_path b = whole_name (before_nul b)

abbrev pub kind_of : ℕ → Option FilterRuleKind
kind_of kind = if kind == 0 then some glob else if kind == 1 then some mime else none

-- `filter_map` of the rules: those of another kind are dropped.
unfoldable pub rules_from_wire : List (ℕ × Text) → List FilterRule
rules_from_wire [] = []
rules_from_wire ((kind, value) ∷ rest) = elim (kind_of kind) [
  | none ↦ rules_from_wire rest
  | some k ↦ record { kind = k; value = value } ∷ rules_from_wire rest
]

abbrev pub filter_from_wire : WireFilter → FileFilter
filter_from_wire (label, rules) = record { label = label; rules = rules_from_wire rules }

abbrev pub kind_to_wire : FilterRuleKind → ℕ
kind_to_wire glob = 0
kind_to_wire mime = 1

abbrev pub rules_to_wire : List FilterRule → List (ℕ × Text)
rules_to_wire [] = []
rules_to_wire (r ∷ rest) = (kind_to_wire r.kind, r.value) ∷ rules_to_wire rest

abbrev pub filter_to_wire : FileFilter → WireFilter
filter_to_wire f = (f.label, rules_to_wire f.rules)

abbrev pub as_bool : Bool → Option Value → Bool
as_bool default (some (bool b)) = b
as_bool default _ = default

abbrev pub as_path : Option Value → Option Bytes
as_path (some (bytes b)) = byte_path b
as_path _ = none

abbrev pub absolute_only : Option Bytes → Option Bytes
absolute_only none = none
absolute_only (some p) = if is_absolute p then some p else none

abbrev pub filled_only : Option Text → Option Text
filled_only none = none
filled_only (some t) = if is_empty t then none else some t

abbrev pub as_filters : Option Value → List FileFilter
as_filters (some (filters fs)) = map filter_from_wire fs
as_filters _ = []

abbrev pub as_filter : Option Value → Option FileFilter
as_filter (some (filter f)) = some (filter_from_wire f)
as_filter _ = none

abbrev pub choice_from_wire : WireChoice → Choice
choice_from_wire (id, label, options, selected) = record {
  id = id;
  label = label;
  options = options;
  selected = selected;
}

abbrev pub as_choices : Option Value → List Choice
as_choices (some (choices cs)) = map choice_from_wire cs
as_choices _ = []

unfoldable pub byte_paths : List Bytes → List Bytes
byte_paths [] = []
byte_paths (b ∷ bs) = elim (byte_path b) [ none ↦ byte_paths bs | some p ↦ p ∷ byte_paths bs ]

-- Where a text's bytes and a text from bytes are needed, `into_bytes` and `from_utf8` convert.
module _ (into_bytes : Text → Bytes) (from_utf8 : Bytes → Option Text) where
  abbrev pub as_string : Option Value → Option Text
  as_string (some (str t)) = some t
  as_string (some (bytes b)) = from_utf8 (unwrap_or b (before_nul b))
  as_string _ = none

  abbrev pub as_names : Option Value → List Bytes
  as_names (some (byte_arrays ps)) = byte_paths ps
  as_names (some (strs ts)) =
      map into_bytes (retain (λ t. not (is_empty t) && not (contains_char 0 t)) ts)
  as_names _ = []

  unfoldable pub parse_options : Map Value → ParsedOptions
  parse_options options = record {
    modal = as_bool true (lookup (codes "modal") options);
    multiple = as_bool false (lookup (codes "multiple") options);
    directory = as_bool false (lookup (codes "directory") options);
    accept_label = filled_only (as_string (lookup (codes "accept_label") options));
    current_folder = absolute_only (as_path (lookup (codes "current_folder") options));
    current_name = as_string (lookup (codes "current_name") options);
    current_file = absolute_only (as_path (lookup (codes "current_file") options));
    filters_given = as_filters (lookup (codes "filters") options);
    current_filter = as_filter (lookup (codes "current_filter") options);
    choices_given = as_choices (lookup (codes "choices") options);
    save_names = as_names (lookup (codes "files") options);
  }

  -- The request of `open_file`.
  unfoldable pub open_request : Text → Text → Text → Map Value → FileChooserRequest
  open_request app parent title options =
      let parsed = parse_options options in
      record {
        mode = if parsed.directory then open_directory else open_file;
        app_id = app;
        title = title;
        accept_label = parsed.accept_label;
        modal = parsed.modal;
        parent_window = filled_only (some parent);
        multiple = parsed.multiple;
        current_folder = parsed.current_folder;
        current_name = none;
        current_file = none;
        filters = parsed.filters_given;
        current_filter = parsed.current_filter;
        choices = parsed.choices_given;
        files = [];
      }

  -- The request of `save_file`.
  unfoldable pub save_request : Text → Text → Text → Map Value → FileChooserRequest
  save_request app parent title options =
      let parsed = parse_options options in
      record {
        mode = save_file;
        app_id = app;
        title = title;
        accept_label = parsed.accept_label;
        modal = parsed.modal;
        parent_window = filled_only (some parent);
        multiple = false;
        current_folder = parsed.current_folder;
        current_name = parsed.current_name;
        current_file = parsed.current_file;
        filters = parsed.filters_given;
        current_filter = parsed.current_filter;
        choices = parsed.choices_given;
        files = [];
      }

  -- The request of `save_files`.
  unfoldable pub save_files_request : Text → Text → Text → Map Value → FileChooserRequest
  save_files_request app parent title options =
      let parsed = parse_options options in
      record {
        mode = save_files;
        app_id = app;
        title = title;
        accept_label = parsed.accept_label;
        modal = parsed.modal;
        parent_window = filled_only (some parent);
        multiple = false;
        current_folder = parsed.current_folder;
        current_name = none;
        current_file = none;
        filters = [];
        current_filter = none;
        choices = parsed.choices_given;
        files = parsed.save_names;
      }
