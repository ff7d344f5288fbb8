-- ===== src/FileChooser/Tests.antt =====
-- Examples of a call of OpenFile and of the prompter's answer to it.
use xdg_desktop_portal_aegis.Prelude.{
  ◌≡◌, refl, true, false, none, some, List, [], ◌∷◌, Text, codes, All, Map, ok, arith, lookup,
  text_eq,
}
use xdg_desktop_portal_aegis.Prompter.Paths.{Bytes}
use xdg_desktop_portal_aegis.Prompter.Files.{
  FileChooserRequest, validate_request, selected_files, validate_response, check_paths,
  filter_offered, filter_eq, validate_names,
}
use xdg_desktop_portal_aegis.Prompter.Envelope.{of_files}
use xdg_desktop_portal_aegis.Prompter.Choices.{validate_choice_answers, check_answers}
use xdg_desktop_portal_aegis.FileChooser.Options.{
  Value, bool, str, filters, WireFilter, filter_from_wire, open_request, byte_path, parse_options,
  rules_from_wire,
}
use xdg_desktop_portal_aegis.FileChooser.Pick.{
  Invoked, answered_by, run_pick, invoke_prompter, build_results,
}
use xdg_desktop_portal_aegis.FileChooser.PickLaws.{IsBytes, IsDelivered, run_pick_delivered}
use xdg_desktop_portal_aegis.Prompter.Choices.{validate_choices_from}

abbrev plain_bytes : Text → Bytes
plain_bytes t = t

abbrev images : WireFilter
images = (codes "Images", (0, codes "*.png") ∷ (1, codes "image/jpeg") ∷ (7, codes "x") ∷ [])

abbrev given : Map Value
given =
    (codes "multiple", bool true)
    ∷ (codes "accept_label", str (codes "Use"))
    ∷ (codes "filters", filters (images ∷ []))
    ∷ []

abbrev opened : FileChooserRequest
opened = open_request plain_bytes some (codes "org.example.Viewer") [] (codes "Open") given

abbrev chosen : List Bytes
chosen = codes "/a b" ∷ codes "/%" ∷ []

abbrev selection : Invoked
selection = answered_by (of_files (selected_files chosen (some (filter_from_wire images)) []))

opened_valid : validate_request opened ≡ ok tt
unfolding validate_request open_request parse_options lookup text_eq validate_names rules_from_wire
    validate_choices_from
opened_valid = refl

selection_told : (run_pick false false opened selection).code ≡ 0
unfolding run_pick validate_request open_request parse_options lookup text_eq validate_names
    rules_from_wire validate_choices_from invoke_prompter validate_response check_paths
    filter_offered filter_eq validate_choice_answers check_answers build_results
selection_told = refl

chosen-IsBytes : All IsBytes chosen
chosen-IsBytes = (
  (omega arith, (omega arith, (omega arith, (omega arith, tt)))),
  ((omega arith, (omega arith, tt)), tt),
)

run_pick_delivered_example :
    (false ≡ false)
    × (validate_request opened ≡ ok tt)
    × (false ≡ false)
    × IsDelivered opened selection (run_pick false false opened selection)
run_pick_delivered_example =
    run_pick_delivered false false opened selection chosen-IsBytes selection_told

nul_ended : byte_path (47 ∷ 97 ∷ 0 ∷ []) ≡ some (47 ∷ 97 ∷ [])
unfolding byte_path
nul_ended = refl

not_nul_ended : byte_path (47 ∷ 97 ∷ []) ≡ none
unfolding byte_path
not_nul_ended = refl
