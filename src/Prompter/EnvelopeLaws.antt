-- ===== src/Prompter/EnvelopeLaws.antt =====
-- lib.rs: which envelopes are opened, and which launcher names are accepted.
use xdg_desktop_portal_aegis.Prelude.{
  ◌≡◌, ◌≢◌, ◌↔◌, ◌⊎◌, ◌≤◌, refl, ap, ◌∷◌, inl, inr, sym, subst, true, false, Option, none, some, [],
  Text, text_eq_iff, contains_char, trim, utf8_len, is_empty, ==_iff, Bool-cases, ok, arith,
}
use xdg_desktop_portal_aegis.Prompter.Dialogs.{
  LauncherEditRequest, max_launcher_name_bytes, saved, validate_launcher, validate_saved,
}
use xdg_desktop_portal_aegis.Prompter.Envelope.{
  process_contract_version, PromptAppearance, is_black, validate_appearance, PromptRequest,
  validate_prompt, PrompterRequest, validate_optional_appearance, validate_envelope, into_prompt,
}

-- No accent, or one that is not black.
abbrev pub IsTinted : Option PromptAppearance → Type 0
IsTinted none = Unit
IsTinted (some a) = is_black a.accent_color ≡ false

tinted : (o : Option PromptAppearance) → (validate_optional_appearance o ≡ ok tt) ↔ IsTinted o
unfolding validate_appearance
tinted none = (λ _. tt, λ _. refl)
tinted (some a) = (λ h. ground (arith, h), λ h. ground (arith, h))

-- A request's envelope is opened exactly if it has this contract's version, its accent colour, if
-- it has one, is not black, and its prompt is valid; the prompt that comes out is the one inside.
pub into_prompt_iff :
    (r : PrompterRequest) (p : PromptRequest)
    → (into_prompt r ≡ ok p) ↔ (
        (r.version ≡ process_contract_version)
        × IsTinted r.appearance
        × (validate_prompt p ≡ ok tt)
        × (r.prompt ≡ p))
unfolding into_prompt validate_envelope
into_prompt_iff r p =
    let version = ==_iff r.version process_contract_version in
    let tint = tinted r.appearance in
    (
      λ h.
          let same : r.prompt ≡ p = ground (arith, h) in
          (
            version.0 (ground (arith, h)),
            tint.0 (ground (arith, h)),
            subst (λ q. validate_prompt q ≡ ok tt) same (ground (arith, h)),
            same,
          ),
      λ (v, t, valid, same). ground (
        arith,
        version.1 v,
        tint.1 t,
        subst (λ q. validate_prompt q ≡ ok tt) (sym same) valid,
        same,
      ),
    )

-- The launcher name that a dialog returns is accepted exactly if it is not blank, has at most 1024
-- bytes and no zero byte, and is the proposed one where the request does not let the user edit it.
pub validate_saved_iff :
    (name : Text) (r : LauncherEditRequest)
    → (validate_saved (saved name) r ≡ ok tt) ↔ (
        (trim name ≢ [])
        × (utf8_len name ≤ max_launcher_name_bytes)
        × (contains_char 0 name ≡ false)
        × ((r.editable_name ≡ true) ⊎ (name ≡ r.name)))
unfolding validate_saved
validate_saved_iff name r =
    let same = text_eq_iff name r.name in
    (
      λ h. (
        λ blank. ground (arith, h, ap is_empty blank),
        ground (arith, h),
        ground (arith, h),
        elim (Bool-cases r.editable_name) [
          | inl e ↦ inl e
          | inr e ↦ inr (same.0 (ground (arith, h, e)))
        ],
      ),
      λ (filled, short, clean, kept).
          let named : is_empty (trim name) ≡ false = not_empty (trim name) filled in
          elim kept [
            | inl e ↦ ground (arith, named, short, clean, e)
            | inr e ↦ ground (arith, named, short, clean, same.1 e)
          ],
    )
  where
    not_empty : (t : Text) → t ≢ [] → is_empty t ≡ false
    not_empty [] h = absurd (h refl)
    not_empty (c ∷ t) h = refl

-- Where the dialog hands back the name that a valid request proposed, it is accepted unless the
-- user was to type one over a blank proposal.
pub validate_launcher-validate_saved :
    (r : LauncherEditRequest)
    → validate_launcher r ≡ ok tt
    → (r.editable_name ≡ false) ⊎ (trim r.name ≢ [])
    → validate_saved (saved r.name) r ≡ ok tt
unfolding validate_launcher
validate_launcher-validate_saved r valid given = (validate_saved_iff r.name r).1 (
  λ blank. elim given [
    | inl fixed ↦ ground (arith, valid, fixed, ap is_empty blank)
    | inr filled ↦ filled blank
  ],
  ground (arith, valid),
  ground (arith, valid),
  inr refl,
)
