-- ===== src/Background/EntryLaws.antt =====
-- background.rs and apps/exec.rs: the line that is written is read back as the command line.
use xdg_desktop_portal_aegis.Prelude.{
  ℕ, ◌≡◌, refl, sym, subst, ◌∙◌, inl, inr, Bool, true, false, ◌==◌, Option, List, [], ◌∷◌, ◌++◌,
  append-nil, append_assoc, map, Text, text_eq, is_empty, Bool-cases, All, ==_iff, arith,
}
use xdg_desktop_portal_aegis.Apps.Uri.{Bytes, value}
use xdg_desktop_portal_aegis.Apps.Exec.{
  Expansion, expand_token, expand_step, expand_tokens, expand_exec, expand_code,
}
use xdg_desktop_portal_aegis.Background.Request.{AutostartSpec, double_percent, exec_line}
use xdg_desktop_portal_aegis.Background.LineLaws.{split_exec-exec_line}

module _ (from_utf8 : Bytes → Option Text) (uris : List Text) where
  expand_percent :
      (expanded s : Text) (used : Bool)
      → expand_token from_utf8 uris expanded used (b'%' ∷ b'%' ∷ s)
        ≡ expand_token from_utf8 uris (expanded ++ b'%' ∷ []) used s
  unfolding expand_token expand_code
  expand_percent expanded s false = refl
  expand_percent expanded s true = refl

  expand_other :
      (c : ℕ) (expanded s : Text) (used : Bool)
      → (c == b'%') ≡ false
      → expand_token from_utf8 uris expanded used (c ∷ s)
        ≡ expand_token from_utf8 uris (expanded ++ c ∷ []) used s
  unfolding expand_token
  expand_other c expanded [] used h = ground (arith, h)
  expand_other c expanded (d ∷ s) used h = ground (arith, h)

  expand_doubled :
      (t expanded : Text) (used : Bool)
      → expand_token from_utf8 uris expanded used (double_percent t) ≡ value (expanded ++ t, used)
  expand_doubled [] expanded used = unfold expand_token in rw append-nil refl
  expand_doubled (c ∷ t) expanded used =
      let more = expand_doubled t (expanded ++ c ∷ []) used in
      let whole : (expanded ++ c ∷ []) ++ t ≡ expanded ++ c ∷ t = rw append_assoc in
      elim (Bool-cases (c == b'%')) [
        | inl e ↦
            let same : b'%' ≡ c = sym ((==_iff c b'%').0 e) in
            let first =
              subst
                (λ x.
                  expand_token from_utf8 uris expanded used (b'%' ∷ b'%' ∷ double_percent t)
                  ≡ expand_token from_utf8 uris (expanded ++ x ∷ []) used (double_percent t))
                same (expand_percent expanded (double_percent t) used) in
            rw (e, ← whole) (first ∙ more)
        | inr e ↦ rw (e, ← whole) (expand_other c expanded (double_percent t) used e ∙ more)
      ]

  expand_step_doubled :
      (t : Text) (e : Expansion)
      → is_empty t ≡ false
      → expand_step from_utf8 uris e (double_percent t)
        ≡ value (record { argv = e.argv ++ t ∷ []; used_uris = e.used_uris })
  unfolding expand_step text_eq
  expand_step_doubled [] e h = absurd (ground (arith, h))
  expand_step_doubled (c ∷ t) e h = ground (arith, expand_doubled (c ∷ t) [] e.used_uris)

  abbrev IsFilled : Text → Type 0
  IsFilled t = is_empty t ≡ false

  expand_every_doubled :
      (ts : List Text) (e : Expansion)
      → All IsFilled ts
      → expand_tokens from_utf8 uris e (map double_percent ts)
        ≡ value (record { argv = e.argv ++ ts; used_uris = e.used_uris })
  unfolding expand_tokens
  expand_every_doubled [] e h = rw append-nil
  expand_every_doubled (t ∷ ts) e h = ground (
    arith,
    expand_step_doubled t e h.0,
    expand_every_doubled ts (record { argv = e.argv ++ t ∷ []; used_uris = e.used_uris }) h.1,
    append_assoc e.argv (t ∷ []) ts,
  )

  -- The text that is rendered for the key `Exec`, when `expand_exec` expands that whole text for
  -- any URIs, is the command line of the request, argument by argument, followed by the URIs. The
  -- arguments are not empty and otherwise any, with quotes, backslashes and `%` included. Nothing
  -- is stated of the entry's lines: an argument with a line feed breaks the line of this text.
  pub expand_exec-exec_line :
      (spec : AutostartSpec)
      → All IsFilled spec.commandline
      → expand_exec from_utf8 uris (exec_line spec) ≡ value (spec.commandline ++ uris)
  unfolding expand_exec exec_line
  expand_exec-exec_line spec h = ground (
    arith,
    split_exec-exec_line spec.commandline,
    expand_every_doubled spec.commandline (record { argv = []; used_uris = false }) h,
  )
