-- ===== src/FileChooser/PickLaws.antt =====
-- file_chooser.rs: what a client is told of a file choice.
use xdg_desktop_portal_aegis.Prelude.{
  ◌<◌, ◌≡◌, refl, ap, Bool, true, false, ◌||◌, Option, none, some, List, [], ◌∷◌, map, Text, All,
  is_empty, length, unwrap_or, if◌then◌else◌, Result, ok, err, bind-inverse, refuse_if, ◌>>◌, arith,
}
use xdg_desktop_portal_aegis.Prompter.Paths.{Bytes}
use xdg_desktop_portal_aegis.Prompter.Choices.{
  PromptError, wrong_path_count, validate_choice_answers,
}
use xdg_desktop_portal_aegis.Prompter.Files.{
  FileFilter, FileChooserRequest, validate_request, selected_files, check_paths, validate_response,
  differs, expected_paths, check_filter,
}
use xdg_desktop_portal_aegis.Prompter.Envelope.{of_files}
use xdg_desktop_portal_aegis.Prompter.FilesLaws.{IsLocal}
use xdg_desktop_portal_aegis.Files.Uri.{path_from_file_uri}
use xdg_desktop_portal_aegis.Files.UriLaws.{path_from_file_uri-file_uri}
use xdg_desktop_portal_aegis.FileChooser.Pick.{
  Response, uris_of, build_results, Invoked, answered_by, wire_of, invoke_prompter, checked_results,
  settle_pick, pick_valid, run_pick,
}

abbrev pub IsBytes : Bytes → Type 0
IsBytes = All (λ b. b < 256)

check_paths-IsLocal : (ps : List Bytes) → check_paths ps ≡ ok tt → All IsLocal ps
unfolding check_paths
check_paths-IsLocal [] h = tt
check_paths-IsLocal (p ∷ ps) h =
    ((ground (arith, h), ground (arith, h)), check_paths-IsLocal ps (ground (arith, h)))

uris_read_back :
    (ps : List Bytes)
    → All IsLocal ps
    → All IsBytes ps
    → map path_from_file_uri (uris_of ps) ≡ map some ps
unfolding uris_of
uris_read_back [] l b = refl
uris_read_back ([] ∷ ps) (h, l) (s, b) = absurd (ground (arith, h.0))
uris_read_back ((c ∷ p) ∷ ps) (h, l) (s, b) =
    rw (path_from_file_uri-file_uri (c ∷ p) s h.0 h.1)
      (ap (◌∷◌ (some (c ∷ p))) (uris_read_back ps l b))

validate_response-IsLocal :
    (r : FileChooserRequest) (paths : List Bytes) (filter : Option FileFilter)
    (answers : List (Text × Text))
    → validate_response (selected_files paths filter answers) r ≡ ok tt
    → All IsLocal paths
unfolding validate_response
validate_response-IsLocal r paths filter answers h =
    let (_, _, rest) =
      bind-inverse
        (refuse_if (is_empty paths || differs (length paths) (expected_paths r r.mode))
          wrong_path_count)
        (λ _.
          check_paths paths >> (check_filter r filter >> validate_choice_answers answers r.choices))
        h in
    let (_, checked, _) =
      bind-inverse (check_paths paths)
        (λ _. check_filter r filter >> validate_choice_answers answers r.choices) rest in
    check_paths-IsLocal paths checked

-- The paths that the prompter answered.
abbrev pub paths_of : Invoked → List Bytes
paths_of (answered_by (of_files (selected_files paths filter answers))) = paths
paths_of _ = []

-- What a success tells the client of the prompter's answer.
abbrev pub IsDelivered : FileChooserRequest → Invoked → Response → Type 0
IsDelivered r (answered_by (of_files (selected_files paths filter answers))) told =
    (validate_response (selected_files paths filter answers) r ≡ ok tt)
    × All IsLocal paths
    × (map path_from_file_uri (unwrap_or [] told.uris) ≡ map some paths)
    × (told.filter ≡ wire_of filter)
    × (unwrap_or [] told.answers ≡ answers)
IsDelivered r _ told = ⊥

unwrap_answers :
    (answers : List (Text × Text))
    → unwrap_or [] (if is_empty answers then none else some answers) ≡ answers
unwrap_answers [] = refl
unwrap_answers (a ∷ rest) = refl

checked_results_delivered :
    (r : FileChooserRequest) (paths : List Bytes) (filter : Option FileFilter)
    (answers : List (Text × Text))
    → All IsBytes paths
    → (c : Result PromptError (Unit {0}))
    → validate_response (selected_files paths filter answers) r ≡ c
    → (checked_results r paths filter answers c).code ≡ 0
    → IsDelivered r
        (answered_by (of_files (selected_files paths filter answers)))
        (checked_results r paths filter answers c)
unfolding build_results
checked_results_delivered r paths filter answers b (err e) v h = absurd (omega (arith, h))
checked_results_delivered r paths filter answers b (ok done) v h =
    let l = validate_response-IsLocal r paths filter answers v in
    (v, l, uris_read_back paths l b, refl, unwrap_answers answers)

settle_pick_delivered :
    (after : Bool) (r : FileChooserRequest) (i : Invoked)
    → All IsBytes (paths_of i)
    → (settle_pick after r (invoke_prompter i)).code ≡ 0
    → (after ≡ false) × IsDelivered r i (settle_pick after r (invoke_prompter i))
unfolding invoke_prompter
settle_pick_delivered false r (answered_by (of_files (selected_files ps f a))) b h = (
  refl,
  checked_results_delivered r ps f a b (validate_response (selected_files ps f a) r) refl h,
)
settle_pick_delivered true r (answered_by (of_files (selected_files ps f a))) b h =
    absurd (omega (arith, h))
settle_pick_delivered after r i b h = absurd (omega (arith, h))

pick_valid_delivered :
    (after : Bool) (r : FileChooserRequest) (i : Invoked)
    → All IsBytes (paths_of i)
    → (c : Result PromptError (Unit {0})) → validate_request r ≡ c
    → (pick_valid after r i c).code ≡ 0
    → (validate_request r ≡ ok tt) × (after ≡ false) × IsDelivered r i (pick_valid after r i c)
pick_valid_delivered after r i b (err e) v h = absurd (omega (arith, h))
pick_valid_delivered after r i b (ok done) v h =
    let (unclosed, told) = settle_pick_delivered after r i b h in (v, unclosed, told)

-- When a file choice is answered with code 0 then the request was not closed before or after the
-- prompter ran, it is valid, the prompter answered a selection that is valid for the request, of
-- which every path is absolute and without a zero byte, and the client is told this selection:
-- its filter, its answers to the choices and, when the paths consist of bytes, URIs of which each
-- is read back as the path that was selected.
pub run_pick_delivered :
    (before after : Bool) (r : FileChooserRequest) (i : Invoked)
    → All IsBytes (paths_of i)
    → (run_pick before after r i).code ≡ 0
    → (before ≡ false)
      × (validate_request r ≡ ok tt)
      × (after ≡ false)
      × IsDelivered r i (run_pick before after r i)
unfolding run_pick
run_pick_delivered true after r i b h = absurd (omega (arith, h))
run_pick_delivered false after r i b h =
    let (v, unclosed, told) = pick_valid_delivered after r i b (validate_request r) refl h in
    (refl, v, unclosed, told)
