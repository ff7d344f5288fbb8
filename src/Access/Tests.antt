-- ===== src/Access/Tests.antt =====
-- Examples of access dialogs: one with three texts, and one that has only a title.
use xdg_desktop_portal_aegis.Prelude.{
  ◌≡◌, refl, true, none, ok, err, [], codes, trim_end, trim_start, is_whitespace, utf8_len, lookup,
}
use xdg_desktop_portal_aegis.Prompter.Choices.{invalid_text, validate_prompt_text}
use xdg_desktop_portal_aegis.Prompter.Dialogs.{ConfirmRequest, validate_confirm}
use xdg_desktop_portal_aegis.Access.Dialog.{dialog_request, two_texts}

joined_texts : two_texts (codes "A") (codes "b") (codes "c") ≡ (codes "A", codes "b\n\nc")
unfolding two_texts trim_end trim_start is_whitespace
joined_texts = refl

abbrev only_title : ConfirmRequest
only_title = record {
  title = codes "Use the camera?";
  body = [];
  accept_label = none;
  deny_label = none;
  modal = true;
  parent_window = none;
}

-- A dialog of a title alone passes the interface and not the prompter's contract.
title_accepted : dialog_request [] (codes "Use the camera?") [] [] [] ≡ ok only_title
unfolding dialog_request utf8_len trim_end trim_start is_whitespace lookup two_texts
title_accepted = refl

title_refused : validate_confirm only_title ≡ err (invalid_text (codes "confirmation body"))
unfolding validate_confirm validate_prompt_text trim_end trim_start is_whitespace utf8_len
title_refused = refl
