-- ===== src/Prompter/ChoiceLaws.antt =====
-- lib.rs: what `validate_choices` and `validate_choice_answers` accept.
use xdg_desktop_portal_aegis.Prelude.{
  suc, ap, sym, ◌≡◌, ◌≢◌, ◌↔◌, ◌⊎◌, inl, inr, refl, true, false, ◌||◌, List, [], ◌∷◌, map, Text,
  codes, text_eq_iff, has_text, has_text-Absent, Absent, Distinct, is_empty, any_of, All, length,
  Bool-cases, ok, arith,
}
use xdg_desktop_portal_aegis.Prompter.Choices.{
  Choice, option_ids, repeats, check_selected, check_choice, validate_choices_from,
  validate_choices, valid_answer, check_answers, validate_choice_answers,
}

-- An answer that a choice offers: one of its options, or a truth value where it has none.
pub data Offers (c : Choice) (t : Text) : Type 0 where
  a_truth : c.options ≡ [] → (t ≡ codes "true") ⊎ (t ≡ codes "false") → Offers c t
  an_option : c.options ≢ [] → ¬ Absent t (option_ids c.options) → Offers c t

pub record IsValidChoice (c : Choice) : Type 0 where
  pub has_id : c.id ≢ []
  pub has_label : c.label ≢ []
  pub options_named : All (λ o. (o.0 ≢ []) × (o.1 ≢ [])) c.options
  pub options_distinct : Distinct (option_ids c.options)
  pub preselects : (c.selected ≡ []) ⊎ Offers c c.selected

abbrev pub choice_ids : List Choice → List Text
choice_ids = map (λ c. c.id)

All-Absent_cons :
    (t : Text) (seen us : List Text)
    → All (λ u. Absent u (t ∷ seen)) us ↔ (Absent t us × All (λ u. Absent u seen) us)
All-Absent_cons t seen [] = (λ _. (tt, tt), λ _. tt)
All-Absent_cons t seen (u ∷ us) =
    let rest = All-Absent_cons t seen us in
    (
      λ ((ne, a), r). ((λ e. ne (sym e), (rest.0 r).0), (a, (rest.0 r).1)),
      λ ((ne, b), (a, r)). ((λ e. ne (sym e), a), rest.1 (b, r)),
    )

repeats-Distinct :
    (seen ts : List Text) → (repeats seen ts ≡ false) ↔ (All (λ t. Absent t seen) ts × Distinct ts)
unfolding repeats
repeats-Distinct seen [] = (λ _. (tt, tt), λ _. refl)
repeats-Distinct seen (t ∷ ts) =
    let rest = repeats-Distinct (t ∷ seen) ts in
    let parts = All-Absent_cons t seen ts in
    let here = has_text-Absent t seen in
    (
      λ h.
          let (a, d) = rest.0 (ground arith) in
          ((here.0 (ground arith), (parts.0 a).1), ((parts.0 a).0, d)),
      λ ((a, r), (b, d)). ground (arith, here.1 a, rest.1 (parts.1 (b, r), d)),
    )

All-no_seen : (ts : List Text) → All (λ t. Absent t []) ts
All-no_seen [] = tt
All-no_seen (t ∷ ts) = (tt, All-no_seen ts)

has_text-not_Absent : (t : Text) (us : List Text) → (has_text t us ≡ true) ↔ (¬ Absent t us)
has_text-not_Absent t us =
    let absent = has_text-Absent t us in
    (
      λ h a. ground (arith, absent.1 a),
      λ n. elim (Bool-cases (has_text t us)) [ inl e ↦ e | inr e ↦ absurd (n (absent.0 e)) ],
    )

valid_answer-Offers : (c : Choice) (t : Text) → (valid_answer c t ≡ true) ↔ Offers c t
unfolding valid_answer
valid_answer-Offers c t = (accepted c t, offered c t)
  where
    accepted : (c : Choice) (t : Text) → valid_answer c t ≡ true → Offers c t
    accepted c t h = elim (Bool-cases (is_empty c.options)) [
      | inl none_given ↦
          a_truth (ground arith)
            (ground (arith, text_eq_iff t (codes "true"), text_eq_iff t (codes "false")))
      | inr given ↦
          an_option (ground arith) ((has_text-not_Absent t (option_ids c.options)).0 (ground arith))
    ]

    offered : (c : Choice) (t : Text) → Offers c t → valid_answer c t ≡ true
    offered c t (a_truth e v) =
        ground (arith, text_eq_iff t (codes "true"), text_eq_iff t (codes "false"))
    offered c t (an_option e v) = ground (arith, (has_text-not_Absent t (option_ids c.options)).1 v)

check_selected_iff :
    (c : Choice) → (check_selected c ≡ ok tt) ↔ ((c.selected ≡ []) ⊎ Offers c c.selected)
unfolding check_selected valid_answer
check_selected_iff c =
    let offers = valid_answer-Offers c c.selected in
    (
      λ h. elim (Bool-cases (is_empty c.selected)) [
        | inl e ↦ inl (ground arith)
        | inr e ↦ inr (offers.0 (ground arith))
      ],
      λ h. elim h [ inl e ↦ ground arith | inr o ↦ ground (arith, offers.1 o) ],
    )

options_named_iff :
    (os : List (Text × Text))
    → (any_of (λ o. is_empty o.0 || is_empty o.1) os ≡ false)
      ↔ All (λ o. (o.0 ≢ []) × (o.1 ≢ [])) os
options_named_iff [] = (λ _. tt, λ _. refl)
options_named_iff (o ∷ os) =
    let rest = options_named_iff os in
    (
      λ h. ((λ e. ground arith, λ e. ground arith), rest.0 (ground arith)),
      λ ((a, b), r). ground (arith, rest.1 r),
    )

check_choice_iff :
    (seen : List Text) (c : Choice)
    → (check_choice seen c ≡ ok tt) ↔ (IsValidChoice c × Absent c.id seen)
unfolding check_choice
check_choice_iff seen c =
    let named = options_named_iff c.options in
    let distinct = repeats-Distinct [] (option_ids c.options) in
    let selected = check_selected_iff c in
    let absent = has_text-Absent c.id seen in
    (
      λ h. (
        record {
          has_id = λ e. ground arith;
          has_label = λ e. ground arith;
          options_named = named.0 (ground arith);
          options_distinct = (distinct.0 (ground arith)).1;
          preselects = selected.0 (unfold check_selected in ground arith);
        },
        absent.0 (ground arith),
      ),
      λ (v, a). ground (
        arith,
        named.1 v.options_named,
        distinct.1 (All-no_seen (option_ids c.options), v.options_distinct),
        selected.1 v.preselects,
        absent.1 a,
        v.has_id,
        v.has_label,
      ),
    )

validate_choices_from_iff :
    (seen : List Text) (cs : List Choice)
    → (validate_choices_from seen cs ≡ ok tt)
      ↔ (All IsValidChoice cs × All (λ t. Absent t seen) (choice_ids cs) × Distinct (choice_ids cs))
unfolding validate_choices_from
validate_choices_from_iff seen [] = (λ _. (tt, tt, tt), λ _. refl)
validate_choices_from_iff seen (c ∷ cs) =
    let rest = validate_choices_from_iff (c.id ∷ seen) cs in
    let this = check_choice_iff seen c in
    let parts = All-Absent_cons c.id seen (choice_ids cs) in
    (
      λ h.
          let (v, a) = this.0 (ground arith) in
          let (vs, given, d) = rest.0 (ground arith) in
          ((v, vs), (a, (parts.0 given).1), ((parts.0 given).0, d)),
      λ ((v, vs), (a, given), (b, d)).
          ground (arith, this.1 (v, a), rest.1 (vs, parts.1 (b, given), d)),
    )

-- `validate_choices` accepts a list of choices exactly if each choice has an id and a label, names
-- all its options, repeats no option id, and preselects nothing or an answer that it offers, and
-- no two choices have the same id.
pub validate_choices_iff :
    (cs : List Choice)
    → (validate_choices cs ≡ ok tt) ↔ (All IsValidChoice cs × Distinct (choice_ids cs))
validate_choices_iff cs =
    let e = validate_choices_from_iff [] cs in
    (λ h. ((e.0 h).0, (e.0 h).2), λ (v, d). e.1 (v, All-no_seen (choice_ids cs), d))

-- The answers fit the choices one by one, in order.
pub data Answers : List (Text × Text) → List Choice → Type 0 where
  none_left : Answers [] []
  answer :
      {id selected : Text} {c : Choice} {given : List (Text × Text)} {cs : List Choice}
      → id ≡ c.id
      → Offers c selected
      → Answers given cs
      → Answers ((id, selected) ∷ given) (c ∷ cs)

Answers-complete :
    {given : List (Text × Text)} {cs : List Choice}
    → Answers given cs
    → (length given ≡ length cs) × (check_answers given cs ≡ ok tt)
unfolding check_answers
Answers-complete none_left = (refl, refl)
Answers-complete (answer {id} {selected} {c} e o r) =
    let rest = Answers-complete r in
    (
      ap suc rest.0,
      ground (arith, text_eq_iff id c.id, (valid_answer-Offers c selected).1 o, rest.1),
    )

check_answers-Answers :
    (given : List (Text × Text)) (cs : List Choice)
    → length given ≡ length cs
    → check_answers given cs ≡ ok tt
    → Answers given cs
unfolding check_answers
check_answers-Answers [] [] e h = none_left
check_answers-Answers [] (c ∷ cs) e h = absurd (omega arith)
check_answers-Answers (a ∷ given) [] e h = absurd (omega arith)
check_answers-Answers ((id, selected) ∷ given) (c ∷ cs) e h =
    answer (ground (arith, text_eq_iff id c.id)) ((valid_answer-Offers c selected).0 (ground arith))
      (check_answers-Answers given cs (omega arith) (ground arith))

-- `validate_choice_answers` accepts a prompter's answers exactly if they answer the requested
-- choices one by one, in order, each with a value that its choice offers.
pub validate_choice_answers_iff :
    (given : List (Text × Text)) (cs : List Choice)
    → (validate_choice_answers given cs ≡ ok tt) ↔ Answers given cs
unfolding validate_choice_answers
validate_choice_answers_iff given cs = (
  λ h. check_answers-Answers given cs (ground arith) (ground arith),
  λ a. ground (arith, (Answers-complete a).0, (Answers-complete a).1),
)
