-- ===== src/Screencast/Select.antt =====
-- screencast.rs: `select_sources` and what it calls.
use xdg_desktop_portal_aegis.Prelude.{
  ℕ, zero, suc, Bool, true, false, ◌&&◌, Option, none, some, List, [], ◌∷◌, ◌++◌, map, Text, codes,
  text_eq, strip_prefix, decimal, ltb, leb, ◌==◌, if◌then◌else◌, is_some, any_of, unwrap_or, length,
  Result, ok, err, refuse_if, ◌>>=◌, ◌>>◌,
}
use xdg_desktop_portal_aegis.Persist.Store.{
  StoredSource, desktop, output, StoredSelection, DiskStore, RestoreStore, issue, Issued, validate,
  prune,
}
use xdg_desktop_portal_aegis.Prompter.Source.{
  SourceChoice, ChooseSourceRequest, ChooseSourceResponse, selected, cancelled, validate_for,
}
use xdg_desktop_portal_aegis.Prompter.Source
use xdg_desktop_portal_aegis.Screencast.Options.{
  SelectOptions, validate_select, per_source_protocol, min_protocol_version, has_bit,
}
use xdg_desktop_portal_aegis.Session.Registry.{
  CastSource, monitor, window, SessionRegistry, mark_sources_selected,
}

pub record OutputInfo : Type 0 where
  pub connector : Text
  pub w : ℕ
  pub h : ℕ
  pub primary : Bool

-- What `prompter::invoke` returns for a source chooser.
pub data ChooserReply : Type 0 where
  answered : ChooseSourceResponse → ChooserReply
  wrong_kind invoke_cancelled invoke_failed : ChooserReply

pub data WindowPick : Type 0 where
  picked : ℕ → WindowPick
  pick_cancelled pick_other pick_failed : WindowPick

pub data ConfirmPick : Type 0 where
  confirmed confirm_cancelled confirm_failed : ConfirmPick

-- What the outside answers in the course of one call: whether the request has been closed at each
-- time that the code asks, what the compositor says, and the token that the random source gives.
pub record Outside : Type 0 where
  pub closed_at_entry : Bool
  pub protocol_version : Option ℕ
  pub outputs_for_restore : Option (List OutputInfo)
  pub outputs_for_choice : Option (List OutputInfo)
  pub chooser : ChooserReply
  pub closed_in_chooser : Bool
  pub closed_after_choice : Bool
  pub window_pick : WindowPick
  pub confirm : ConfirmPick
  pub closed_after_confirm : Bool
  pub closed_at_mark : Bool
  pub token : Text

-- The shared state, and the store files written so far, newest first.
pub record World : Type 0 where
  pub sessions : SessionRegistry
  pub store : RestoreStore
  pub writes : List DiskStore

abbrev pub note_write : Option DiskStore → List DiskStore → List DiskStore
note_write none ws = ws
note_write (some d) ws = d ∷ ws

-- The response codes of a call that arms nothing, 1 and 2.
pub data Refusal : Type 0 where
  code_cancelled code_refused : Refusal

abbrev pub code_of : Refusal → ℕ
code_of code_cancelled = 1
code_of code_refused = 2

unfoldable pub enumerate_outputs : ℕ → Option (List OutputInfo) → List OutputInfo
enumerate_outputs protocol answer =
    if ltb protocol per_source_protocol then [] else unwrap_or [] answer

unfoldable pub servable_source : ℕ → List OutputInfo → StoredSource → Bool
servable_source protocol outputs desktop = true
servable_source protocol outputs (output c) =
    leb per_source_protocol protocol && any_of (λ o. text_eq o.connector c) outputs

unfoldable pub mark_selected :
    Outside → Text → Text → CastSource → ℕ → ℕ → Option (ℕ × Text) → World → ℕ × World
mark_selected out path app source cursor persist grant w =
    if out.closed_at_mark
    then (code_of code_cancelled, w)
    else elim (mark_sources_selected path app source cursor persist grant w.sessions) [
      | ok r ↦ (0, record w { sessions = r })
      | err e ↦ (code_of code_refused, w)
    ]

abbrev pub cast_source_of : StoredSource → CastSource
cast_source_of desktop = monitor none
cast_source_of (output c) = monitor (some c)

abbrev output_prefix : Text
output_prefix = codes "output:"

abbrev output_choice : OutputInfo → SourceChoice
output_choice o = record {
  id = output_prefix ++ o.connector;
  label = o.connector;
  description =
      some (decimal o.w ++ (215 ∷ decimal o.h) ++ (if o.primary then codes ", primary" else []));
}

abbrev pub desktop_choice : SourceChoice
desktop_choice = record { id = codes "desktop"; label = codes "Entire desktop"; description = none }

abbrev window_choice : SourceChoice
window_choice = record { id = codes "window"; label = codes "Window…"; description = none }

unfoldable pub choices_for : ℕ → List OutputInfo → Bool → List SourceChoice
choices_for protocol outputs window_offered =
    desktop_choice
    ∷ (if leb per_source_protocol protocol
        then (if ltb 1 (length outputs) then map output_choice outputs else [])
          ++ (if window_offered then window_choice ∷ [] else [])
        else [])

-- The request that `choose_source` sends.
abbrev pub chooser_request : Text → List SourceChoice → Bool → ChooseSourceRequest
chooser_request app options remember_offered = record {
  app_id = app;
  title = codes "Share Your Screen";
  options = options;
  remember_offered = remember_offered;
  parent_window = none;
}

abbrev accept_response : ChooseSourceRequest → ChooseSourceResponse → Result Refusal (Text × Bool)
accept_response r cancelled = err code_cancelled
accept_response r (selected source remember) = elim (validate_for (selected source remember) r) [
  | ok _ ↦ ok (source, remember)
  | err e ↦ err code_refused
]

abbrev chooser_outcome : Bool → ChooseSourceRequest → ChooserReply → Result Refusal (Text × Bool)
chooser_outcome closed r (answered response) =
    if closed then err code_cancelled else accept_response r response
chooser_outcome closed r wrong_kind = err code_refused
chooser_outcome closed r invoke_cancelled = err code_cancelled
chooser_outcome closed r invoke_failed = err code_refused

unfoldable pub choose_source :
    Outside → Text → List SourceChoice → Bool → Result Refusal (Text × Bool)
choose_source out app options remember_offered =
    let r : ChooseSourceRequest = chooser_request app options remember_offered in
    elim (Source.validate r) [
      | err e ↦ err code_refused
      | ok _ ↦ chooser_outcome out.closed_in_chooser r out.chooser
    ]

unfoldable pub pick_window : WindowPick → Result Refusal ℕ
pick_window (picked id) = ok id
pick_window pick_cancelled = err code_cancelled
pick_window pick_other = err code_refused
pick_window pick_failed = err code_refused

unfoldable pub confirm_code : ConfirmPick → Result Refusal (Unit {0})
confirm_code confirmed = ok tt
confirm_code confirm_cancelled = err code_cancelled
confirm_code confirm_failed = err code_refused

-- `str::trim_start_matches("output:")`, which strips the prefix as often as it stands there.
unfoldable pub trim_output : ℕ → Text → Text
trim_output zero s = s
trim_output (suc fuel) s = elim (strip_prefix output_prefix s) [
  | none ↦ s
  | some rest ↦ trim_output fuel rest
]

-- The `match selected.as_str()`.
unfoldable pub resolve_source : Outside → ℕ → Bool → Text → Result Refusal CastSource
unfolding pick_window
resolve_source out protocol window_offered id =
    if text_eq id (codes "desktop")
    then ok (monitor none)
    else if text_eq id (codes "window") && window_offered
    then pick_window out.window_pick >>= (λ w. ok (window w))
    else if is_some (strip_prefix output_prefix id) && leb per_source_protocol protocol
    then ok (monitor (some (trim_output (length id) id)))
    else err code_refused

abbrev stored_of : CastSource → Option StoredSource
stored_of (monitor none) = some desktop
stored_of (monitor (some c)) = some (output c)
stored_of (window w) = none

-- The token for a remembered monitor selection, with the world after it.
abbrev pub grant_for :
    Outside
    → Text
    → SelectOptions
    → Option Text
    → CastSource
    → Bool
    → World
    → Option (ℕ × Text) × World
grant_for out app o sender source remember w =
    if remember && ltb 0 o.persist_mode
    then elim (stored_of source) [
      | none ↦ (none, w)
      | some s ↦
          let sel : StoredSelection = record {
            app_id = app;
            source = s;
            cursor_mode = o.cursor_mode;
          } in
          let i : Issued = issue out.token o.persist_mode (unwrap_or [] sender) sel w.store in
          (
            elim i.token [ none ↦ none | some t ↦ some (o.persist_mode, t) ],
            record w { store = i.store; writes = note_write i.written w.writes },
          )
    ]
    else (none, w)

-- `servable` of the restored half: the stored source is still there to capture.
unfoldable pub restorable : Outside → ℕ → StoredSource → Bool
restorable out protocol =
    servable_source protocol (enumerate_outputs protocol out.outputs_for_restore)

-- `validate`, then `prune`.
unfoldable pub restore_with :
    Text → Text → (StoredSource → Bool) → World → Option (ℕ × StoredSelection × Text) × World
restore_with t app servable w =
    let pruned = prune servable w.store in
    (
      elim (validate t app servable w.store) [
        | none ↦ none
        | some (mode, sel) ↦ some (mode, sel, t)
      ],
      record w { store = pruned.0; writes = note_write pruned.1 w.writes },
    )

-- From the restore token to the early return: the token's selection, and the world after pruning.
unfoldable pub try_restore :
    Outside → ℕ → Text → SelectOptions → World → Option (ℕ × StoredSelection × Text) × World
try_restore out protocol app o w = elim o.restore_token [
  | none ↦ (none, w)
  | some t ↦
      if ltb 0 o.persist_mode then restore_with t app (restorable out protocol) w else (none, w)
]

-- What follows the chooser's answer, up to the compositor's consent.
unfoldable pub settle_source : Outside → ℕ → Bool → Text × Bool → Result Refusal (CastSource × Bool)
settle_source out protocol window_offered (id, remember) = do
  refuse_if out.closed_after_choice code_cancelled
  source ← resolve_source out protocol window_offered id
  confirm_code out.confirm
  refuse_if out.closed_after_confirm code_cancelled
  ok (source, remember)

-- One option skips the chooser.
unfoldable pub choose_among :
    Outside → Text → List SourceChoice → Bool → Result Refusal (Text × Bool)
choose_among out app choices remember_offered =
    if length choices == 1
    then ok (codes "desktop", false)
    else choose_source out app choices remember_offered

abbrev pub offers_window : ℕ → SelectOptions → Bool
offers_window protocol o = leb per_source_protocol protocol && has_bit 1 o.source_types

-- From the chooser to the compositor's consent: the source, and the remember tick.
unfoldable pub ask_source : Outside → ℕ → Text → SelectOptions → Result Refusal (CastSource × Bool)
ask_source out protocol app o = do
  answer ←
      choose_among out app
        (choices_for protocol (enumerate_outputs protocol out.outputs_for_choice)
          (offers_window protocol o))
        (ltb 0 o.persist_mode)
  settle_source out protocol (offers_window protocol o) answer

-- The interactive half of `select_sources`.
unfoldable pub select_interactively :
    Outside → ℕ → Text → Text → SelectOptions → Option Text → World → ℕ × World
select_interactively out protocol path app o sender w = elim (ask_source out protocol app o) [
  | err e ↦ (code_of e, w)
  | ok (source, remember) ↦
      let g = grant_for out app o sender source remember w in
      mark_selected out path app source o.cursor_mode o.persist_mode g.0 g.1
]

abbrev after_restore :
    Outside
    → ℕ
    → Text
    → Text
    → SelectOptions
    → Option Text
    → Option (ℕ × StoredSelection × Text) × World
    → ℕ × World
after_restore out protocol path app o sender (some (mode, sel, t), w) =
    mark_selected out path app (cast_source_of sel.source) sel.cursor_mode mode (some (mode, t)) w
after_restore out protocol path app o sender (none, w) =
    select_interactively out protocol path app o sender w

abbrev pub protocol_of : Outside → ℕ
protocol_of out = unwrap_or min_protocol_version out.protocol_version

unfoldable pub select_sources :
    Outside → Text → Text → SelectOptions → Option Text → World → ℕ × World
select_sources out path app o sender w =
    if out.closed_at_entry
    then (code_of code_cancelled, w)
    else elim (validate_select o (protocol_of out)) [
      | err e ↦ (code_of code_refused, w)
      | ok _ ↦
          after_restore out (protocol_of out) path app o sender
            (try_restore out (protocol_of out) app o w)
    ]
