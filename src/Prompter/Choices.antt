-- ===== src/Prompter/Choices.antt =====
-- lib.rs: `validate_prompt_text`, and the choices shared by the file and application choosers.
use xdg_desktop_portal_aegis.Prelude.{
  ℕ, Bool, false, not, ◌&&◌, ◌||◌, List, [], ◌∷◌, map, Text, codes, text_eq, contains_char, trim,
  utf8_len, has_text, ltb, ◌==◌, if◌then◌else◌, is_empty, any_of, length, Result, ok, refuse_if,
  ◌>>◌,
}

abbrev pub max_prompt_text_bytes : ℕ
max_prompt_text_bytes = 16384

-- `name` is the field that an error speaks of.
pub data PromptError : Type 0 where
  invalid_text : Text → PromptError
  empty_choice wrong_answer_count : PromptError
  duplicate_choice empty_option duplicate_option invalid_boolean unknown_option : Text → PromptError
  unexpected_choice invalid_value : Text → PromptError
  option_count invalid_source_id source_not_offered remembered_unasked : PromptError
  duplicate_source : Text → PromptError
  basename_nul : PromptError
  not_a_basename not_absolute no_unique_name : Text → PromptError
  files_unexpected files_missing empty_filter no_folder wrong_path_count : PromptError
  invalid_path : Text → PromptError
  filter_not_offered candidate_count invalid_app_id : PromptError
  duplicate_app app_not_offered : Text → PromptError
  launcher_name_invalid launcher_name_empty saved_name_invalid launcher_name_changed : PromptError
  black_accent not_file_chooser : PromptError
  unsupported_version : ℕ → PromptError
  child_failed : Text → PromptError

unfoldable pub validate_prompt_text : Text → Text → Bool → Result PromptError (Unit {0})
validate_prompt_text name value allow_empty =
    refuse_if
      ((not allow_empty && is_empty (trim value))
        || ltb max_prompt_text_bytes (utf8_len value)
        || contains_char 0 value)
      (invalid_text name)

pub record Choice : Type 0 where
  pub id : Text
  pub label : Text
  pub options : List (Text × Text)
  pub selected : Text

abbrev pub option_ids : List (Text × Text) → List Text
option_ids = map (λ o. o.0)

-- A `BTreeSet` that refuses an element: whether some element stands in `seen` or came before.
unfoldable pub repeats : List Text → List Text → Bool
repeats seen [] = false
repeats seen (t ∷ ts) = has_text t seen || repeats (t ∷ seen) ts

abbrev pub is_boolean_value : Text → Bool
is_boolean_value t = text_eq t (codes "true") || text_eq t (codes "false")

-- The last test of the loop's body: the preselected value.
unfoldable pub check_selected : Choice → Result PromptError (Unit {0})
check_selected c =
    if is_empty c.options
    then refuse_if (not (is_empty c.selected || is_boolean_value c.selected)) (invalid_boolean c.id)
    else refuse_if (not (is_empty c.selected) && not (has_text c.selected (option_ids c.options)))
        (unknown_option c.id)

unfoldable pub check_choice : List Text → Choice → Result PromptError (Unit {0})
unfolding check_selected
check_choice seen c = do
  refuse_if (is_empty c.id || is_empty c.label) empty_choice
  refuse_if (has_text c.id seen) (duplicate_choice c.id)
  refuse_if (any_of (λ o. is_empty o.0 || is_empty o.1) c.options) (empty_option c.id)
  refuse_if (repeats [] (option_ids c.options)) (duplicate_option c.id)
  check_selected c

unfoldable pub validate_choices_from : List Text → List Choice → Result PromptError (Unit {0})
validate_choices_from seen [] = ok tt
validate_choices_from seen (c ∷ cs) = do check_choice seen c; validate_choices_from (c.id ∷ seen) cs

abbrev pub validate_choices : List Choice → Result PromptError (Unit {0})
validate_choices = validate_choices_from []

-- Whether `selected` answers the choice.
unfoldable pub valid_answer : Choice → Text → Bool
valid_answer c selected =
    if is_empty c.options
    then is_boolean_value selected
    else has_text selected (option_ids c.options)

-- The loop over `zip`, which stops at the shorter list.
unfoldable pub check_answers : List (Text × Text) → List Choice → Result PromptError (Unit {0})
check_answers [] cs = ok tt
check_answers (a ∷ answers) [] = ok tt
check_answers ((id, selected) ∷ answers) (c ∷ cs) = do
  refuse_if (not (text_eq id c.id)) (unexpected_choice id)
  refuse_if (not (valid_answer c selected)) (invalid_value id)
  check_answers answers cs

unfoldable pub validate_choice_answers :
    List (Text × Text) → List Choice → Result PromptError (Unit {0})
validate_choice_answers answers choices = do
  refuse_if (not (length answers == length choices)) wrong_answer_count
  check_answers answers choices
