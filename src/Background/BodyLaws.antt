-- ===== src/Background/BodyLaws.antt =====
-- background.rs: the body of the consent dialog fits the contract of the prompter.
use xdg_desktop_portal_aegis.Prelude.{
  ℕ, ◌+◌, ◌-◌, ◌≤◌, ◌≡◌, refl, inl, inr, Bool, [], ◌∷◌, ◌++◌, Text, ltb, leb, utf8_len, char_len,
  Bool-cases, arith,
}
use xdg_desktop_portal_aegis.Background.Request.{max_body_bytes, truncate_at, fitted, consent_body}

utf8_len-append : (a b : Text) → utf8_len (a ++ b) ≡ utf8_len a + utf8_len b
unfolding utf8_len
utf8_len-append [] b = omega arith
utf8_len-append (c ∷ a) b = let rest = utf8_len-append a b in omega (arith, rest)

truncate_at_fits : (n : ℕ) (s : Text) → utf8_len (truncate_at n s) ≤ n
unfolding truncate_at utf8_len
truncate_at_fits n [] = omega arith
truncate_at_fits n (c ∷ s) = elim (Bool-cases (leb (char_len c) n)) [
  | inl e ↦ let rest = truncate_at_fits (n - char_len c) s in ground (arith, e, rest)
  | inr e ↦ rw e (omega arith)
]

fitted_fits : (body : Text) → utf8_len (fitted body) ≤ max_body_bytes
fitted_fits body = elim (Bool-cases (ltb max_body_bytes (utf8_len body))) [
  | inl e ↦
      let short = truncate_at_fits (max_body_bytes - 3) body in
      let both = utf8_len-append (truncate_at (max_body_bytes - 3) body) (0x2026 ∷ []) in
      let dots : utf8_len (0x2026 ∷ []) ≡ 3 = unfold utf8_len in refl in
      rw (e, both, dots) (omega (arith, short))
  | inr e ↦ ground (arith, e)
]

-- The body of the dialog that asks for background activity takes at most the 16384 bytes of
-- UTF-8 that the prompter allows a text, whatever the application's name and reason are.
pub consent_body_fits :
    (app_id reason : Text) (autostart : Bool)
    → utf8_len (consent_body app_id reason autostart) ≤ max_body_bytes
unfolding consent_body
consent_body_fits app_id reason autostart = fitted_fits _
