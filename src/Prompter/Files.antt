-- ===== src/Prompter/Files.antt =====
-- lib.rs: the file chooser's request and response, and `finish_paths`.
use xdg_desktop_portal_aegis.Prelude.{
  ℕ, Bool, true, false, not, ◌&&◌, ◌||◌, Option, none, some, List, [], ◌∷◌, ◌++◌, Text, codes,
  text_eq, contains_char, is_empty, any_of, length, ◌==◌, if◌then◌else◌, Result, ok, err, refuse_if,
  ◌>>◌, ◌>>=◌,
}
use xdg_desktop_portal_aegis.Prompter.Choices.{
  PromptError, Choice, validate_choices, validate_choice_answers, files_unexpected, files_missing,
  empty_filter, no_folder, wrong_path_count, invalid_path, filter_not_offered,
}
use xdg_desktop_portal_aegis.Prompter.Paths.{
  Bytes, is_absolute, validate_basename, validate_absolute_path, Metadata, unique_child,
}

pub data FileChooserMode : Type 0 where
  open_file open_directory save_file save_files : FileChooserMode

pub data FilterRuleKind : Type 0 where
  glob mime : FilterRuleKind

pub record FilterRule : Type 0 where
  pub kind : FilterRuleKind
  pub value : Text

pub record FileFilter : Type 0 where
  pub label : Text
  pub rules : List FilterRule

pub record FileChooserRequest : Type 0 where
  pub mode : FileChooserMode
  pub app_id : Text
  pub title : Text
  pub accept_label : Option Text
  pub modal : Bool
  pub parent_window : Option Text
  pub multiple : Bool
  pub current_folder : Option Bytes
  pub current_name : Option Text
  pub current_file : Option Bytes
  pub filters : List FileFilter
  pub current_filter : Option FileFilter
  pub choices : List Choice
  pub files : List Bytes

abbrev pub is_save_files : FileChooserMode → Bool
is_save_files save_files = true
is_save_files _ = false

abbrev pub validate_optional_path : Text → Option Bytes → Result PromptError (Unit {0})
validate_optional_path name none = ok tt
validate_optional_path name (some p) = validate_absolute_path name p

unfoldable pub validate_names : List Bytes → Result PromptError (Unit {0})
validate_names [] = ok tt
validate_names (n ∷ ns) = do validate_basename n; validate_names ns

abbrev pub filter_named : FileFilter → Bool
filter_named f = not (is_empty f.label || any_of (λ r. is_empty r.value) f.rules)

-- `filters.iter().chain(current_filter)`.
abbrev pub chained : List FileFilter → Option FileFilter → List FileFilter
chained fs none = fs
chained fs (some f) = fs ++ (f ∷ [])

unfoldable pub validate_request : FileChooserRequest → Result PromptError (Unit {0})
validate_request r = do
  validate_optional_path (codes "current_folder") r.current_folder
  validate_optional_path (codes "current_file") r.current_file
  refuse_if (not (is_save_files r.mode) && not (is_empty r.files)) files_unexpected
  refuse_if (is_save_files r.mode && is_empty r.files) files_missing
  validate_names r.files
  refuse_if (any_of (λ f. not (filter_named f)) (chained r.filters r.current_filter)) empty_filter
  validate_choices r.choices

module _ (symlink_metadata : Bytes → Metadata) where
  -- The loop of `finish_paths`, with the paths that are reserved already.
  unfoldable pub finish_names : Bytes → List Bytes → List Bytes → Result PromptError (List Bytes)
  finish_names folder reserved [] = ok []
  finish_names folder reserved (n ∷ ns) = do
    path ← unique_child symlink_metadata folder n reserved
    paths ← finish_names folder (path ∷ reserved) ns
    ok (path ∷ paths)

  abbrev pub finish_in : List Bytes → List Bytes → Result PromptError (List Bytes)
  finish_in [] names = err no_folder
  finish_in (folder ∷ more) names = finish_names folder [] names

  unfoldable pub finish_paths : FileChooserRequest → List Bytes → Result PromptError (List Bytes)
  finish_paths r selected =
      if not (is_save_files r.mode) then ok selected else finish_in selected r.files

pub data FileChooserResponse : Type 0 where
  selected_files : List Bytes → Option FileFilter → List (Text × Text) → FileChooserResponse
  cancelled_files : FileChooserResponse
  failed_files : Text → FileChooserResponse

-- `expected_paths`.
abbrev pub expected_paths : FileChooserRequest → FileChooserMode → Option ℕ
expected_paths r save_file = some 1
expected_paths r save_files = some (length r.files)
expected_paths r open_file = if r.multiple then none else some 1
expected_paths r open_directory = if r.multiple then none else some 1

abbrev pub differs : ℕ → Option ℕ → Bool
differs n none = false
differs n (some expected) = not (n == expected)

unfoldable pub check_paths : List Bytes → Result PromptError (Unit {0})
check_paths [] = ok tt
check_paths (p ∷ ps) = do
  refuse_if (not (is_absolute p) || contains_char 0 p) (invalid_path p)
  check_paths ps

-- The derived equalities.
abbrev pub kind_eq : FilterRuleKind → FilterRuleKind → Bool
kind_eq glob glob = true
kind_eq mime mime = true
kind_eq _ _ = false

abbrev pub rules_eq : List FilterRule → List FilterRule → Bool
rules_eq [] [] = true
rules_eq (a ∷ xs) (b ∷ ys) = kind_eq a.kind b.kind && text_eq a.value b.value && rules_eq xs ys
rules_eq _ _ = false

unfoldable pub filter_eq : FileFilter → FileFilter → Bool
filter_eq f g = text_eq f.label g.label && rules_eq f.rules g.rules

abbrev pub is_filter : FileFilter → Option FileFilter → Bool
is_filter f none = false
is_filter f (some g) = filter_eq g f

unfoldable pub filter_offered : FileChooserRequest → FileFilter → Bool
filter_offered r f =
    any_of (λ g. filter_eq g f) r.filters || (is_empty r.filters && is_filter f r.current_filter)

abbrev pub check_filter : FileChooserRequest → Option FileFilter → Result PromptError (Unit {0})
check_filter r none = ok tt
check_filter r (some f) = refuse_if (not (filter_offered r f)) filter_not_offered

unfoldable pub validate_response :
    FileChooserResponse → FileChooserRequest → Result PromptError (Unit {0})
validate_response cancelled_files r = ok tt
validate_response (failed_files message) r = ok tt
validate_response (selected_files paths filter answers) r = do
  refuse_if (is_empty paths || differs (length paths) (expected_paths r r.mode)) wrong_path_count
  check_paths paths
  check_filter r filter
  validate_choice_answers answers r.choices
