-- ===== src/Prompter/Tests.antt =====
-- Examples of choices, of saved files, of launchers and of envelopes.
use xdg_desktop_portal_aegis.Prelude.{
  ℕ, zero, suc, ◌<◌, List, [], ◌∷◌, ◌≡◌, ◌↔◌, refl, true, false, none, some, All, Distinct, Text,
  codes, text_eq, utf8_len, length, if◌then◌else◌, ok, arith, split, decimal, trim_end, trim_start,
  is_whitespace,
}
use xdg_desktop_portal_aegis.Prompter.Paths.{
  Bytes, Metadata, found, not_found, join_path, is_free, validate_basename, unique_child,
  components, pieces, path_occupied, first_free, split_extension, path_eq,
}
use xdg_desktop_portal_aegis.Prompter.PathLaws.{proposal, unique_child_first}
use xdg_desktop_portal_aegis.Prompter.Files.{
  FileChooserRequest, save_files, selected_files, finish_paths, validate_response, finish_names,
}
use xdg_desktop_portal_aegis.Prompter.FilesLaws.{
  IsVacant, Apart, finish_paths_fresh, finish_paths-validate_response,
}
use xdg_desktop_portal_aegis.Prompter.Dialogs.{LauncherEditRequest, validate_launcher}
use xdg_desktop_portal_aegis.Prompter.Envelope.{ask_launcher, PrompterRequest, enveloped}
use xdg_desktop_portal_aegis.Prompter.Choices.{
  Choice, validate_choices, validate_choice_answers, check_answers, valid_answer,
  validate_prompt_text,
}
use xdg_desktop_portal_aegis.Prompter.ChoiceLaws.{
  IsValidChoice, Answers, choice_ids, validate_choices_iff, validate_choice_answers_iff,
}

abbrev encoding : Choice
encoding = record {
  id = codes "encoding";
  label = codes "Encoding";
  options = (codes "utf8", codes "UTF-8") ∷ (codes "latin1", codes "Latin-1") ∷ [];
  selected = codes "latin1";
}

abbrev read_only : Choice
read_only = record {
  id = codes "ro";
  label = codes "Read only";
  options = [];
  selected = codes "true";
}

abbrev offered : List Choice
offered = encoding ∷ read_only ∷ []

validate_choices_iff_example :
    (validate_choices offered ≡ ok tt) ↔ (All IsValidChoice offered × Distinct (choice_ids offered))
validate_choices_iff_example = validate_choices_iff offered

abbrev given : List (Text × Text)
given = (codes "encoding", codes "utf8") ∷ (codes "ro", codes "false") ∷ []

validate_choice_answers_iff_example :
    (validate_choice_answers given offered ≡ ok tt) ↔ Answers given offered
validate_choice_answers_iff_example = validate_choice_answers_iff given offered

-- A folder in which one of the two requested names is taken.
abbrev downloads : Bytes
downloads = codes "/home/u"

abbrev taken_once : Bytes → Metadata
taken_once p = if text_eq p (codes "/home/u/a.txt") then found else not_found

abbrev two_files : FileChooserRequest
two_files = record {
  mode = save_files;
  app_id = codes "org.example.Editor";
  title = codes "Save";
  accept_label = none;
  modal = true;
  parent_window = none;
  multiple = false;
  current_folder = some downloads;
  current_name = none;
  current_file = none;
  filters = [];
  current_filter = none;
  choices = offered;
  files = codes "a.txt" ∷ codes "b" ∷ [];
}

abbrev chosen_paths : List Bytes
chosen_paths = codes "/home/u/a(1).txt" ∷ codes "/home/u/b" ∷ []

two_files_run : finish_paths taken_once two_files (downloads ∷ []) ≡ ok chosen_paths
unfolding finish_paths finish_names unique_child validate_basename components split text_eq pieces
    is_free path_occupied join_path first_free split_extension path_eq decimal
two_files_run = refl

finish_paths_fresh_example :
    (length chosen_paths ≡ length two_files.files)
    × All (IsVacant taken_once) chosen_paths
    × Apart chosen_paths
finish_paths_fresh_example =
    finish_paths_fresh taken_once two_files (downloads ∷ []) chosen_paths refl two_files_run

finish_paths-validate_response_example :
    validate_response (selected_files chosen_paths none given) two_files ≡ ok tt
unfolding check_answers text_eq valid_answer
finish_paths-validate_response_example =
    finish_paths-validate_response taken_once two_files downloads [] chosen_paths none given refl
      refl (refl, refl) refl (unfold validate_choice_answers in refl) two_files_run

plain_taken :
    (j : ℕ)
    → j < 1
    → is_free taken_once [] (proposal taken_once downloads (codes "a.txt") j) ≡ false
unfolding is_free path_occupied text_eq join_path
plain_taken zero low = refl
plain_taken (suc j) low = absurd (omega (arith, low))

a_txt_named : validate_basename (codes "a.txt") ≡ ok tt
unfolding validate_basename components split text_eq pieces
a_txt_named = refl

first_suffix_free : is_free taken_once [] (proposal taken_once downloads (codes "a.txt") 1) ≡ true
unfolding is_free path_occupied text_eq join_path split_extension
first_suffix_free = refl

unique_child_first_example :
    unique_child taken_once downloads (codes "a.txt") []
    ≡ ok (proposal taken_once downloads (codes "a.txt") 1)
unique_child_first_example =
    unique_child_first taken_once downloads (codes "a.txt") [] 1 a_txt_named (omega arith)
      first_suffix_free plain_taken

abbrev web_app : LauncherEditRequest
web_app = record {
  app_id = codes "org.example.Browser";
  title = codes "Install";
  name = codes "Mail";
  editable_name = false;
  target = some (codes "https://mail.example");
  icon_label = none;
  modal = true;
  parent_window = none;
}

web_app_valid : validate_launcher web_app ≡ ok tt
unfolding validate_launcher validate_prompt_text trim_end trim_start is_whitespace utf8_len
web_app_valid = refl

abbrev wrapped : PrompterRequest
wrapped = enveloped (ask_launcher web_app)
