-- ===== src/Prompter/Source.antt =====
-- lib.rs: the source chooser's request and response, and their validation.
use xdg_desktop_portal_aegis.Prelude.{
  ℕ, ◌≡◌, Bool, true, false, not, ◌&&◌, ◌||◌, ◌⊎◌, Option, none, some, List, [], ◌∷◌, map, Text,
  codes, contains_char, has_text, utf8_len, is_empty, length, ltb, Result, ok, refuse_if, ◌>>◌,
  arith,
}
use xdg_desktop_portal_aegis.Prompter.Choices.{
  PromptError, max_prompt_text_bytes, validate_prompt_text, option_count, invalid_source_id,
  duplicate_source, source_not_offered, remembered_unasked,
}

abbrev pub max_choose_source_options : ℕ
max_choose_source_options = 16

pub record SourceChoice : Type 0 where
  pub id : Text
  pub label : Text
  pub description : Option Text

pub record ChooseSourceRequest : Type 0 where
  pub app_id : Text
  pub title : Text
  pub options : List SourceChoice
  pub remember_offered : Bool
  pub parent_window : Option Text

pub data ChooseSourceResponse : Type 0 where
  selected : Text → Bool → ChooseSourceResponse
  cancelled : ChooseSourceResponse

-- `if let Some(text) = … { validate_prompt_text(name, text, true)? }`.
abbrev pub validate_optional : Text → Option Text → Result PromptError (Unit {0})
validate_optional name none = ok tt
validate_optional name (some t) = validate_prompt_text name t true

unfoldable pub validate_sources : List Text → List SourceChoice → Result PromptError (Unit {0})
validate_sources ids [] = ok tt
validate_sources ids (o ∷ os) = do
  refuse_if (is_empty o.id || ltb max_prompt_text_bytes (utf8_len o.id) || contains_char 0 o.id)
      invalid_source_id
  refuse_if (has_text o.id ids) (duplicate_source o.id)
  validate_prompt_text (codes "source label") o.label false
  validate_optional (codes "source description") o.description
  validate_sources (o.id ∷ ids) os

unfoldable pub validate : ChooseSourceRequest → Result PromptError (Unit {0})
validate r = do
  validate_prompt_text (codes "source chooser title") r.title false
  validate_optional (codes "source chooser parent window") r.parent_window
  refuse_if (is_empty r.options || ltb max_choose_source_options (length r.options)) option_count
  validate_sources [] r.options

abbrev pub source_ids : List SourceChoice → List Text
source_ids = map (λ o. o.id)

unfoldable pub validate_for :
    ChooseSourceResponse → ChooseSourceRequest → Result PromptError (Unit {0})
validate_for cancelled r = ok tt
validate_for (selected source remember) r = do
  refuse_if (not (has_text source (source_ids r.options))) source_not_offered
  refuse_if (remember && not r.remember_offered) remembered_unasked

-- A validated answer names a source that was offered, and remembers it only if that was offered.
pub validate_for-offered :
    (source : Text) (remember : Bool) (r : ChooseSourceRequest)
    → validate_for (selected source remember) r ≡ ok tt
    → (has_text source (source_ids r.options) ≡ true)
      × ((remember ≡ false) ⊎ (r.remember_offered ≡ true))
unfolding validate_for
validate_for-offered source remember r h = (ground arith, ground arith)
