-- ===== src/Background/GrantLaws.antt =====
-- background.rs: what an answer tells of the consent and of the autostart folder.
use xdg_desktop_portal_aegis.Prelude.{
  ◌≡◌, ◌≢◌, refl, ap, inl, inr, ◌⊎◌, is_some, erase, erase-insert_same, ℕ, Bool, true, false,
  Option, none, some, Text, insert, arith,
}
use xdg_desktop_portal_aegis.Prompter.Dialogs.{confirmed}
use xdg_desktop_portal_aegis.Prompter.Envelope.{of_confirm}
use xdg_desktop_portal_aegis.FileChooser.Pick.{Invoked, answered_by}
use xdg_desktop_portal_aegis.Background.Request.{AutostartSpec, render_desktop_entry}
use xdg_desktop_portal_aegis.Background.Grant.{
  Entries, Granted, entry_name, temporary_name, WriteEnd, not_opened, cut_short, not_renamed,
  renamed, write_autostart, write_autostart_entry, run_request,
}

abbrev pub IsConsented : Bool → Bool → Invoked → Granted → Type 0
IsConsented closed_before closed_after i out =
    (out.code ≡ 0)
    × (closed_before ≡ false)
    × (closed_after ≡ false)
    × (i ≡ answered_by (of_confirm confirmed))

-- The answer by its result `autostart`.
abbrev pub Tells :
    Bool
    → Bool
    → ℕ
    → Text
    → Invoked
    → Option AutostartSpec
    → Entries
    → Option Bool
    → Granted
    → Type 0
Tells closed_before closed_after pid app_id i spec d none out = (out.code ≢ 0) × (out.entries ≡ d)
Tells closed_before closed_after pid app_id i spec d (some false) out =
    IsConsented closed_before closed_after i out
    × ((out.entries ≡ d)
        ⊎ ((left : Text) × (is_some spec ≡ true)
            × (out.entries ≡ insert (temporary_name pid app_id) left d)))
Tells closed_before closed_after pid app_id i spec d (some true) out =
    IsConsented closed_before closed_after i out
    × ((s : AutostartSpec) × (spec ≡ some s)
        × (out.entries
            ≡ insert (entry_name app_id) (render_desktop_entry app_id s)
                (erase (temporary_name pid app_id) d)))

granted_told :
    (pid : ℕ) (end : WriteEnd) (app_id : Text) (i : Invoked) (spec : Option AutostartSpec)
    (d : Entries)
    → i ≡ answered_by (of_confirm confirmed)
    → Tells false false pid app_id i spec d
        (write_autostart pid end app_id spec d).autostart
        (write_autostart pid end app_id spec d)
unfolding write_autostart write_autostart_entry
granted_told pid end app i none d y = ((refl, refl, refl, y), inl refl)
granted_told pid not_opened app i (some s) d y = ((refl, refl, refl, y), inl refl)
granted_told pid (cut_short left) app i (some s) d y =
    ((refl, refl, refl, y), inr (left, refl, refl))
granted_told pid not_renamed app i (some s) d y =
    ((refl, refl, refl, y), inr (render_desktop_entry app s, refl, refl))
granted_told pid renamed app i (some s) d y =
    let content = render_desktop_entry app s in
    (
      (refl, refl, refl, y),
      (
        s,
        refl,
        ap (insert (entry_name app) content) (erase-insert_same (temporary_name pid app) content d),
      ),
    )

-- A background request that is answered without results has a code other than 0 and leaves the
-- autostart folder as it was. One with results has code 0, was not closed before or after the
-- prompt, and was confirmed there. `autostart` is true only if the request has an autostart
-- specification, and the folder then holds the rendered entry under the application's name, no
-- longer holds the temporary file of that name and process, and is otherwise as before. When
-- `autostart` is false the folder is as it was, but that a write that failed may have left that
-- temporary file in it.
pub run_request_told :
    (closed_before closed_after : Bool) (pid : ℕ) (end : WriteEnd) (app_id : Text) (i : Invoked)
    (spec : Option AutostartSpec) (d : Entries)
    → Tells closed_before closed_after pid app_id i spec d
        (run_request closed_before closed_after pid end app_id i spec d).autostart
        (run_request closed_before closed_after pid end app_id i spec d)
unfolding run_request
run_request_told true a pid end app i spec d = (λ h. omega (arith, h), refl)
run_request_told false true pid end app (answered_by (of_confirm confirmed)) spec d =
    (λ h. omega (arith, h), refl)
run_request_told false false pid end app (answered_by (of_confirm confirmed)) spec d =
    granted_told pid end app (answered_by (of_confirm confirmed)) spec d refl
run_request_told false a pid end app i spec d = (λ h. omega (arith, h), refl)
