-- ===== src/Prompter/Envelope.antt =====
-- lib.rs: the versioned envelopes between the portal and a prompter process.
use xdg_desktop_portal_aegis.Prelude.{
  ℕ, Bool, false, not, ◌&&◌, Option, none, some, Text, ◌==◌, Result, ok, err, refuse_if, ◌>>◌,
  ◌>>=◌,
}
use xdg_desktop_portal_aegis.Prompter.Choices.{
  PromptError, black_accent, unsupported_version, not_file_chooser, child_failed,
}
use xdg_desktop_portal_aegis.Prompter.Source.{ChooseSourceRequest, ChooseSourceResponse, validate}
use xdg_desktop_portal_aegis.Prompter.Files.{
  FileChooserRequest, FileChooserResponse, validate_request,
}
use xdg_desktop_portal_aegis.Prompter.Dialogs.{
  ConfirmRequest, ConfirmResponse, validate_confirm, SecretRequest, SecretResponse, validate_secret,
  ChooseAppRequest, ChooseAppResponse, validate_choose_app, LauncherEditRequest,
  LauncherEditResponse, validate_launcher,
}

abbrev pub process_contract_version : ℕ
process_contract_version = 6

pub data PromptColorScheme : Type 0 where
  system dark light : PromptColorScheme

pub record PromptAccent : Type 0 where
  pub red : ℕ
  pub green : ℕ
  pub blue : ℕ

pub record PromptAppearance : Type 0 where
  pub color_scheme : PromptColorScheme
  pub accent_color : Option PromptAccent
  pub high_contrast : Bool
  pub reduced_motion : Bool

abbrev pub is_black : Option PromptAccent → Bool
is_black none = false
is_black (some a) = a.red == 0 && a.green == 0 && a.blue == 0

unfoldable pub validate_appearance : PromptAppearance → Result PromptError (Unit {0})
validate_appearance a = refuse_if (is_black a.accent_color) black_accent

pub data PromptRequest : Type 0 where
  ask_files : FileChooserRequest → PromptRequest
  ask_confirm : ConfirmRequest → PromptRequest
  ask_secret : SecretRequest → PromptRequest
  ask_app : ChooseAppRequest → PromptRequest
  ask_source : ChooseSourceRequest → PromptRequest
  ask_launcher : LauncherEditRequest → PromptRequest

unfoldable pub validate_prompt : PromptRequest → Result PromptError (Unit {0})
validate_prompt (ask_files r) = validate_request r
validate_prompt (ask_confirm r) = validate_confirm r
validate_prompt (ask_secret r) = validate_secret r
validate_prompt (ask_app r) = validate_choose_app r
validate_prompt (ask_source r) = validate r
validate_prompt (ask_launcher r) = validate_launcher r

pub record PrompterRequest : Type 0 where
  pub version : ℕ
  pub prompt : PromptRequest
  pub appearance : Option PromptAppearance

-- The constructors `file_chooser` (and `new`), `confirm`, `secret`, `choose_app`, `choose_source`
-- and `launcher_edit`.
abbrev pub enveloped : PromptRequest → PrompterRequest
enveloped p = record { version = process_contract_version; prompt = p; appearance = none }

abbrev pub with_appearance : PrompterRequest → PromptAppearance → PrompterRequest
with_appearance r a = record { version = r.version; prompt = r.prompt; appearance = some a }

abbrev pub validate_optional_appearance : Option PromptAppearance → Result PromptError (Unit {0})
validate_optional_appearance none = ok tt
validate_optional_appearance (some a) = validate_appearance a

unfoldable pub validate_envelope : PrompterRequest → Result PromptError (Unit {0})
validate_envelope r = do
  refuse_if (not (r.version == process_contract_version)) (unsupported_version r.version)
  validate_optional_appearance r.appearance
  validate_prompt r.prompt

unfoldable pub into_prompt : PrompterRequest → Result PromptError PromptRequest
into_prompt r = do validate_envelope r; ok r.prompt

abbrev pub file_request : PromptRequest → Result PromptError FileChooserRequest
file_request (ask_files r) = ok r
file_request _ = err not_file_chooser

unfoldable pub request_into_file_chooser : PrompterRequest → Result PromptError FileChooserRequest
request_into_file_chooser r = into_prompt r >>= file_request

pub data PromptResult : Type 0 where
  of_files : FileChooserResponse → PromptResult
  of_confirm : ConfirmResponse → PromptResult
  of_secret : SecretResponse → PromptResult
  of_app : ChooseAppResponse → PromptResult
  of_source : ChooseSourceResponse → PromptResult
  of_launcher : LauncherEditResponse → PromptResult
  of_failure : Text → PromptResult

pub record PrompterResponse : Type 0 where
  pub version : ℕ
  pub result : PromptResult

-- The constructors of a response, `failed` among them.
abbrev pub answered : PromptResult → PrompterResponse
answered p = record { version = process_contract_version; result = p }

unfoldable pub into_result : PrompterResponse → Result PromptError PromptResult
into_result r = do
  refuse_if (not (r.version == process_contract_version)) (unsupported_version r.version)
  ok r.result

abbrev pub file_response : PromptResult → Result PromptError FileChooserResponse
file_response (of_files r) = ok r
file_response (of_failure message) = err (child_failed message)
file_response _ = err not_file_chooser

unfoldable pub response_into_file_chooser :
    PrompterResponse → Result PromptError FileChooserResponse
response_into_file_chooser r = into_result r >>= file_response
