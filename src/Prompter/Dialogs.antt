-- ===== src/Prompter/Dialogs.antt =====
-- lib.rs: the confirmation, secret, application-chooser and launcher dialogs: their requests, their
-- responses and the checks of both.
use xdg_desktop_portal_aegis.Prelude.{
  ℕ, Bool, false, not, ◌&&◌, ◌||◌, Option, none, some, List, [], ◌∷◌, map, Text, codes, text_eq,
  contains_char, trim, utf8_len, has_text, is_empty, length, ltb, Result, ok, refuse_if, ◌>>◌,
}
use xdg_desktop_portal_aegis.Prompter.Choices.{
  PromptError, max_prompt_text_bytes, validate_prompt_text, Choice, validate_choices,
  validate_choice_answers, candidate_count, invalid_app_id, duplicate_app, app_not_offered,
  launcher_name_invalid, launcher_name_empty, saved_name_invalid, launcher_name_changed,
}
use xdg_desktop_portal_aegis.Prompter.Source.{validate_optional}

-- `if let Some(text) = … { validate_prompt_text(name, text, false)? }`.
abbrev pub validate_filled : Text → Option Text → Result PromptError (Unit {0})
validate_filled name none = ok tt
validate_filled name (some t) = validate_prompt_text name t false

pub record ConfirmRequest : Type 0 where
  pub title : Text
  pub body : Text
  pub accept_label : Option Text
  pub deny_label : Option Text
  pub modal : Bool
  pub parent_window : Option Text

unfoldable pub validate_confirm : ConfirmRequest → Result PromptError (Unit {0})
validate_confirm r = do
  validate_prompt_text (codes "confirmation title") r.title false
  validate_prompt_text (codes "confirmation body") r.body false
  validate_filled (codes "confirmation accept label") r.accept_label
  validate_optional (codes "confirmation deny label") r.deny_label
  validate_optional (codes "confirmation parent window") r.parent_window

pub data ConfirmResponse : Type 0 where
  confirmed confirm_cancelled : ConfirmResponse

pub record SecretRequest : Type 0 where
  pub title : Text
  pub reason : Option Text

unfoldable pub validate_secret : SecretRequest → Result PromptError (Unit {0})
validate_secret r = do
  validate_prompt_text (codes "secret title") r.title false
  validate_optional (codes "secret reason") r.reason

pub data SecretResponse : Type 0 where
  secret_value : Text → SecretResponse
  secret_cancelled : SecretResponse

-- The value, and what the response holds from then on.
unfoldable pub take_value : SecretResponse → Option Text × SecretResponse
take_value (secret_value value) = (some value, secret_value [])
take_value secret_cancelled = (none, secret_cancelled)

pub record AppChoice : Type 0 where
  pub id : Text
  pub name : Text
  pub icon : Option Text

pub record ChooseAppRequest : Type 0 where
  pub app_id : Text
  pub title : Text
  pub content_type : Text
  pub parent_window : Option Text
  pub apps : List AppChoice
  pub choices : List Choice

abbrev pub max_choose_app_candidates : ℕ
max_choose_app_candidates = 64

-- The loop over the applications, with the ids before.
unfoldable pub validate_apps : List Text → List AppChoice → Result PromptError (Unit {0})
validate_apps ids [] = ok tt
validate_apps ids (a ∷ rest) = do
  refuse_if (is_empty a.id || ltb max_prompt_text_bytes (utf8_len a.id) || contains_char 0 a.id)
      invalid_app_id
  refuse_if (has_text a.id ids) (duplicate_app a.id)
  validate_prompt_text (codes "app name") a.name false
  validate_optional (codes "app icon") a.icon
  validate_apps (a.id ∷ ids) rest

unfoldable pub validate_choose_app : ChooseAppRequest → Result PromptError (Unit {0})
validate_choose_app r = do
  validate_prompt_text (codes "app chooser title") r.title false
  validate_prompt_text (codes "app chooser content type") r.content_type false
  validate_optional (codes "app chooser parent window") r.parent_window
  refuse_if (is_empty r.apps || ltb max_choose_app_candidates (length r.apps)) candidate_count
  validate_apps [] r.apps
  validate_choices r.choices

pub data ChooseAppResponse : Type 0 where
  app_selected : Text → List (Text × Text) → ChooseAppResponse
  app_cancelled : ChooseAppResponse

abbrev pub app_ids : List AppChoice → List Text
app_ids = map (λ a. a.id)

unfoldable pub validate_app_answer :
    ChooseAppResponse → ChooseAppRequest → Result PromptError (Unit {0})
validate_app_answer app_cancelled r = ok tt
validate_app_answer (app_selected app answers) r = do
  refuse_if (not (has_text app (app_ids r.apps))) (app_not_offered app)
  validate_choice_answers answers r.choices

abbrev pub max_launcher_name_bytes : ℕ
max_launcher_name_bytes = 1024

pub record LauncherEditRequest : Type 0 where
  pub app_id : Text
  pub title : Text
  pub name : Text
  pub editable_name : Bool
  pub target : Option Text
  pub icon_label : Option Text
  pub modal : Bool
  pub parent_window : Option Text

unfoldable pub validate_launcher : LauncherEditRequest → Result PromptError (Unit {0})
validate_launcher r = do
  validate_prompt_text (codes "launcher editor title") r.title false
  refuse_if (ltb max_launcher_name_bytes (utf8_len r.name) || contains_char 0 r.name)
      launcher_name_invalid
  refuse_if (not r.editable_name && is_empty (trim r.name)) launcher_name_empty
  validate_filled (codes "launcher target") r.target
  validate_filled (codes "launcher icon label") r.icon_label
  validate_optional (codes "launcher parent window") r.parent_window

pub data LauncherEditResponse : Type 0 where
  saved : Text → LauncherEditResponse
  edit_cancelled : LauncherEditResponse

unfoldable pub validate_saved :
    LauncherEditResponse → LauncherEditRequest → Result PromptError (Unit {0})
validate_saved edit_cancelled r = ok tt
validate_saved (saved name) r = do
  refuse_if
      (is_empty (trim name) || ltb max_launcher_name_bytes (utf8_len name) || contains_char 0 name)
      saved_name_invalid
  refuse_if (not r.editable_name && not (text_eq name r.name)) launcher_name_changed
