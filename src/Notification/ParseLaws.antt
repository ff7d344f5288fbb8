-- ===== src/Notification/ParseLaws.antt =====
-- notification.rs, and notify.rs of the prompter: the portal's checks of a notification against the
-- daemon's.
use xdg_desktop_portal_aegis.Prelude.{
  ℕ, ◌*◌, ◌≤◌, suc, false, ◌&&◌, ◌||◌, Option, none, some, List, [], ◌∷◌, ◌≡◌, refl, ◌↔◌, Text,
  codes, contains_char, is_control, trim, utf8_len, ltb, is_empty, length, any_of, Bool-cases, inl,
  inr, subst, Map, lookup, Result, ok, err, Result-cases, ◌>>=◌, arith,
}
use xdg_desktop_portal_aegis.Notification.Parse.{
  Value, NotifyButton, Notification, NotificationError, valid_id, parse_buttons, keep_button,
  add_button, max_label_chars, read_buttons, parse_notification, non_empty, check_action, str, strs,
  dicts, other, max_buttons,
}
use xdg_desktop_portal_aegis.Notification.Wire.{
  bounded, validate_buttons, validate, max_action_bytes, max_label_bytes, bounded_action,
}

utf8_len-le : (s : Text) → utf8_len s ≤ 4 * length s
unfolding utf8_len
utf8_len-le [] = omega arith
utf8_len-le (c ∷ s) = ground (arith, utf8_len-le s)

no_nul : (s : Text) → any_of is_control s ≡ false → contains_char 0 s ≡ false
unfolding is_control
no_nul [] h = refl
no_nul (c ∷ s) h = ground (arith, h, no_nul s)

-- The daemon's check of an id is the weaker one.
valid_id-bounded : (t : Text) → valid_id t ≡ ok tt → bounded t max_action_bytes ≡ ok tt
unfolding valid_id bounded
valid_id-bounded t h = ground (arith, h, no_nul t)

-- What the portal's own check says of a button.
abbrev pub AreChecked : List NotifyButton → Type 0
AreChecked [] = Unit
AreChecked (b ∷ bs) =
    (bounded b.action max_action_bytes ≡ ok tt)
    × (is_empty b.label ≡ false)
    × (contains_char 0 b.label ≡ false)
    × AreChecked bs

-- Every label has at most 256 bytes.
abbrev pub LabelsFit : List NotifyButton → Type 0
LabelsFit [] = Unit
LabelsFit (b ∷ bs) = (utf8_len b.label ≤ max_label_bytes) × LabelsFit bs

non_empty-filled : (o : Option Text) (t : Text) → non_empty o ≡ some t → is_empty t ≡ false
non_empty-filled none t e = absurd (ground arith)
non_empty-filled (some []) t e = absurd (ground arith)
non_empty-filled (some (c ∷ s)) t e = ground (arith, e)

-- A list of buttons that is refused, or that has been checked and has at most so many.
abbrev pub Checks : ℕ → Result NotificationError (List NotifyButton) → Type 0
Checks k (ok bs) = AreChecked bs × (length bs ≤ k)
Checks k (err e) = Unit

pub Checks-eq_ok :
    (k : ℕ) (r : Result NotificationError (List NotifyButton)) (bs : List NotifyButton)
    → Checks k r
    → r ≡ ok bs
    → AreChecked bs × (length bs ≤ k)
Checks-eq_ok k r bs h e = subst (Checks k) e h

Checks-le :
    {k : ℕ} (j : ℕ) (r : Result NotificationError (List NotifyButton))
    → j ≤ k
    → Checks j r
    → Checks k r
Checks-le j (ok bs) le h = (h.0, omega (arith, h.1, le))
Checks-le j (err e) le h = tt

keep_button-Checks :
    (k : ℕ) (action : Text) (label : Option Text)
    (rest : Result NotificationError (List NotifyButton))
    → valid_id action ≡ ok tt
    → ((t : Text) → label ≡ some t → is_empty t ≡ false)
    → Checks k rest
    → Checks (suc k) (keep_button action label rest)
keep_button-Checks k action none (err e) v f h = tt
keep_button-Checks k action none (ok bs) v f h = (h.0, omega (arith, h.1))
keep_button-Checks k action (some label) rest v f h =
    elim (Bool-cases (ltb max_label_chars (length label) || contains_char 0 label)) [
      | inl q ↦ rw q tt
      | inr q ↦ rw q (
          elim rest
              as (λ r.
                Checks k r
                → Checks (suc k)
                    (r >>= λ more. ok (record { action = action; label = label } ∷ more))) [
                      | err e ↦ λ _. tt
                      | ok bs ↦ λ c. (
                        (valid_id-bounded action v, f label refl, ground (arith, q), c.0),
                        omega (arith, c.1),
                      )
                    ]
            h)
    ]

add_button-Checks :
    (k : ℕ) (action label : Option Text) (rest : Result NotificationError (List NotifyButton))
    → ((t : Text) → label ≡ some t → is_empty t ≡ false)
    → Checks k rest
    → Checks (suc k) (add_button action label rest)
add_button-Checks k none label (err e) f h = tt
add_button-Checks k none label (ok bs) f h = (h.0, omega (arith, h.1))
add_button-Checks k (some action) label rest f h = elim (Result-cases (valid_id action)) [
  | inl (a, q) ↦ rw q (keep_button-Checks k action label rest q f h)
  | inr (e, q) ↦ rw q tt
]

parse_buttons-Checks : (ds : List (Map Text)) → Checks (length ds) (parse_buttons ds)
unfolding parse_buttons
parse_buttons-Checks [] = (tt, omega arith)
parse_buttons-Checks (d ∷ ds) =
    add_button-Checks (length ds) (non_empty (lookup (codes "action") d))
      (non_empty (lookup (codes "label") d)) (parse_buttons ds)
      (non_empty-filled (lookup (codes "label") d)) (parse_buttons-Checks ds)

read_buttons-Checks : (v : Option Value) → Checks max_buttons (read_buttons v)
read_buttons-Checks none = (tt, omega arith)
read_buttons-Checks (some (str t)) = tt
read_buttons-Checks (some (strs t)) = tt
read_buttons-Checks (some other) = tt
read_buttons-Checks (some (dicts ds)) = elim (Bool-cases (ltb max_buttons (length ds))) [
  | inl q ↦ rw q tt
  | inr q ↦
      rw q (Checks-le (length ds) (parse_buttons ds) (ground (arith, q)) (parse_buttons-Checks ds))
]

validate_buttons-fit :
    (bs : List NotifyButton) → AreChecked bs → (validate_buttons bs ≡ ok tt) ↔ LabelsFit bs
unfolding validate_buttons bounded
validate_buttons-fit [] h = (λ _. tt, λ _. refl)
validate_buttons-fit (b ∷ bs) (a, e, c, h) =
    let rest = validate_buttons-fit bs h in
    (λ v. ground (arith, a, e, c, rest.0, v), λ (l, r). ground (arith, a, e, c, rest.1 r, l))

-- What an accepted notification has passed.
parse_notification-inverse :
    (app id : Text) (m : Map Value) (n : Notification)
    → parse_notification app id m ≡ ok n
    → (valid_id n.app_id ≡ ok tt)
      × (valid_id n.id ≡ ok tt)
      × (length n.title ≤ 256)
      × (contains_char 0 n.title ≡ false)
      × (utf8_len n.body ≤ 4096)
      × (contains_char 0 n.body ≡ false)
      × ((is_empty (trim n.title) && is_empty (trim n.body)) ≡ false)
      × (check_action n.default_action ≡ ok tt)
      × (read_buttons (lookup (codes "buttons") m) ≡ ok n.buttons)
unfolding parse_notification
parse_notification-inverse app id m n e = ground (arith, e)

default_action-bounded : (o : Option Text) → check_action o ≡ ok tt → bounded_action o ≡ ok tt
default_action-bounded none h = refl
default_action-bounded (some t) h = valid_id-bounded t h

-- The daemon accepts a notification that the portal has parsed exactly where each button's label has
-- at most 256 bytes: the portal itself bounds the labels by 256 characters.
pub parse_notification-validate :
    (app id : Text) (m : Map Value) (n : Notification)
    → parse_notification app id m ≡ ok n
    → (validate n ≡ ok tt) ↔ LabelsFit n.buttons
unfolding validate
parse_notification-validate app id m n e =
    let (a, i, t, tn, b, bn, shown, d, bs) = parse_notification-inverse app id m n e in
    let (checked, few) =
      Checks-eq_ok 8 (read_buttons (lookup (codes "buttons") m)) n.buttons
        (read_buttons-Checks (lookup (codes "buttons") m)) bs in
    let fit = validate_buttons-fit n.buttons checked in
    let app_ok = valid_id-bounded n.app_id a in
    let id_ok = valid_id-bounded n.id i in
    let action_ok = default_action-bounded n.default_action d in
    let short = utf8_len-le n.title in
    (
      λ v. ground (arith, app_ok, id_ok, action_ok, short, t, tn, b, bn, shown, few, fit.0, v),
      λ l. ground (arith, app_ok, id_ok, action_ok, short, t, tn, b, bn, shown, few, fit.1 l),
    )
