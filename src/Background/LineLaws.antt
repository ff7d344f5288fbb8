-- ===== src/Background/LineLaws.antt =====
-- background.rs and apps/exec.rs: how the rendered command line is split.
use xdg_desktop_portal_aegis.Prelude.{
  ℕ, ◌≡◌, ◌≢◌, refl, sym, ap, subst, ◌∙◌, inl, inr, Bool, true, false, not, ◌&&◌, ◌==◌, List, [],
  ◌∷◌, ◌++◌, append-nil, append_assoc, map, Text, codes, join, is_empty, is_whitespace, Bool-cases,
  All, arith,
}
use xdg_desktop_portal_aegis.Apps.Exec.{backslash, split_loop, split_exec}
use xdg_desktop_portal_aegis.Apps.ExecLaws.{
  escape, split_quoted, split_last_quote, split_quote, split_space,
}
use xdg_desktop_portal_aegis.Background.Request.{
  is_safe, quoted, double_percent, all_safe, quote_exec_arg,
}

double_percent-quoted :
    (t rest : Text) → double_percent (quoted t) ++ rest ≡ escape (double_percent t) (b'"' ∷ rest)
double_percent-quoted [] rest = refl
double_percent-quoted (c ∷ t) rest = ground (arith, double_percent-quoted t rest)

-- A character that the splitter keeps outside quotes.
abbrev is_word : ℕ → Bool
is_word c = not (c == b'"') && not (c == backslash) && not (is_whitespace c)

safe_word : (c : ℕ) → is_safe c ≡ true → is_word c ≡ true
unfolding is_safe is_whitespace
safe_word c h = ground (arith, h)

abbrev AreWords : Text → Type 0
AreWords = All (λ c. is_word c ≡ true)

double_percent_words : (t : Text) → all_safe t ≡ true → AreWords (double_percent t)
double_percent_words [] h = tt
double_percent_words (c ∷ t) h =
    let safe : is_safe c ≡ true = ground (arith, h) in
    let percent = safe_word b'%' (unfold is_safe in refl) in
    let rest = double_percent_words t (ground (arith, h)) in
    elim (Bool-cases (c == b'%')) [
      | inl e ↦ rw e (percent, (percent, rest))
      | inr e ↦ rw e (safe_word c safe, rest)
    ]

split_word :
    (c : ℕ) (s : Text) (has_token : Bool) (token : Text) (tokens : List Text)
    → is_word c ≡ true
    → split_loop false has_token token tokens (c ∷ s)
      ≡ split_loop false true (token ++ c ∷ []) tokens s
unfolding split_loop
split_word c [] has_token token tokens h = ground (arith, h)
split_word c (n ∷ s) has_token token tokens h = ground (arith, h)

-- What stands behind an argument: nothing, or a space and more.
abbrev IsEnd : Text → Type 0
IsEnd [] = Unit
IsEnd (c ∷ []) = ⊥
IsEnd (c ∷ n ∷ s) = b' ' ≡ c

-- The splitter behind a whole argument.
abbrev after : Text → List Text → Text → List Text
after token tokens [] = tokens ++ token ∷ []
after token tokens (c ∷ rest) = split_loop false false [] (tokens ++ token ∷ []) rest

split_end :
    (token : Text) (tokens : List Text) (rest : Text)
    → IsEnd rest
    → split_loop false true token tokens rest ≡ after token tokens rest
split_end token tokens [] h = unfold split_loop in refl
split_end token tokens (c ∷ []) h = absurd h
split_end token tokens (c ∷ n ∷ s) h =
    subst (λ x. split_loop false true token tokens (x ∷ n ∷ s) ≡ after token tokens (x ∷ n ∷ s)) h
      (split_space token tokens n s)

split_words :
    (w token : Text) (tokens : List Text) (rest : Text)
    → AreWords w
    → IsEnd rest
    → split_loop false true token tokens (w ++ rest) ≡ after (token ++ w) tokens rest
split_words [] token tokens rest w e = rw append-nil (split_end token tokens rest e)
split_words (c ∷ w) token tokens rest (h, hs) e =
    split_word c (w ++ rest) true token tokens h
    ∙ split_words w (token ++ c ∷ []) tokens rest hs e
    ∙ ap (λ t. after t tokens rest) (append_assoc token (c ∷ []) w)

split_bare :
    (w : Text) (tokens : List Text) (rest : Text)
    → w ≢ []
    → AreWords w
    → IsEnd rest
    → split_loop false false [] tokens (w ++ rest) ≡ after w tokens rest
split_bare [] tokens rest full w e = absurd (full refl)
split_bare (c ∷ w) tokens rest full (h, hs) e =
    split_word c (w ++ rest) false [] tokens h ∙ split_words w (c ∷ []) tokens rest hs e

split_closed :
    (token : Text) (tokens : List Text) (rest : Text)
    → IsEnd rest
    → split_loop true true token tokens (b'"' ∷ rest) ≡ after token tokens rest
split_closed token tokens [] e = split_last_quote true true token tokens
split_closed token tokens (c ∷ []) e = absurd e
split_closed token tokens (c ∷ n ∷ s) e =
    split_quote true true token tokens c (n ∷ s) ∙ split_end token tokens (c ∷ n ∷ s) e

double_percent_full : (t : Text) → is_empty t ≡ false → double_percent t ≢ []
double_percent_full [] h e = absurd (ground (arith, h))
double_percent_full (c ∷ t) h e = ground (arith, e)

split_rendered :
    (arg : Text) (tokens : List Text) (rest : Text)
    → IsEnd rest
    → split_loop false false [] tokens (quote_exec_arg arg ++ rest)
      ≡ after (double_percent arg) tokens rest
unfolding quote_exec_arg
split_rendered arg tokens rest e = elim (Bool-cases (not (is_empty arg) && all_safe arg)) [
  | inl h ↦
      let full = double_percent_full arg (ground (arith, h)) in
      let words = double_percent_words arg (ground (arith, h)) in
      rw h (split_bare (double_percent arg) tokens rest full words e)
  | inr h ↦
      let shut =
        ap (λ s. split_loop false false [] tokens (b'"' ∷ s)) (double_percent-quoted arg rest) in
      rw h (
        shut
        ∙ split_quoted (double_percent arg) tokens rest
        ∙ split_closed (double_percent arg) tokens rest e)
]

quote_exec_arg_cons :
    (arg rest : Text) → (n : ℕ) × (s : Text) × (quote_exec_arg arg ++ rest ≡ n ∷ s)
unfolding quote_exec_arg
quote_exec_arg_cons [] rest = (b'"', _, refl)
quote_exec_arg_cons (c ∷ t) rest = elim (Bool-cases (all_safe (c ∷ t))) [
  | inl h ↦ elim (Bool-cases (c == b'%')) [
    | inl e ↦ (b'%', b'%' ∷ double_percent t ++ rest, rw (h, e) refl)
    | inr e ↦ (c, double_percent t ++ rest, rw (h, e) refl)
  ]
  | inr h ↦ (b'"', double_percent (quoted (c ∷ t)) ++ rest, rw h refl)
]

join_cons :
    (arg : Text) (args : List Text)
    → (n : ℕ) × (s : Text) × (join (codes " ") (map quote_exec_arg (arg ∷ args)) ≡ n ∷ s)
unfolding join
join_cons arg [] =
    let (n, s, e) = quote_exec_arg_cons arg [] in (n, s, sym (append-nil (quote_exec_arg arg)) ∙ e)
join_cons arg (next ∷ args) =
    quote_exec_arg_cons arg (b' ' ∷ join (codes " ") (map quote_exec_arg (next ∷ args)))

split_line :
    (arg : Text) (args tokens : List Text)
    → split_loop false false [] tokens (join (codes " ") (map quote_exec_arg (arg ∷ args)))
      ≡ tokens ++ map double_percent (arg ∷ args)
unfolding join
split_line arg [] tokens =
    ap (split_loop false false [] tokens) (sym (append-nil (quote_exec_arg arg)))
    ∙ split_rendered arg tokens [] tt
split_line arg (next ∷ args) tokens =
    let line = join (codes " ") (map quote_exec_arg (next ∷ args)) in
    let (n, s, e) = join_cons next args in
    let end : IsEnd (b' ' ∷ line) = subst (λ t. IsEnd (b' ' ∷ t)) (sym e) refl in
    split_rendered arg tokens (b' ' ∷ line) end
    ∙ split_line next args (tokens ++ double_percent arg ∷ [])
    ∙ append_assoc tokens (double_percent arg ∷ []) (map double_percent (next ∷ args))

-- The words of a rendered command line are its arguments, with every `%` doubled.
pub split_exec-exec_line :
    (args : List Text)
    → split_exec (join (codes " ") (map quote_exec_arg args)) ≡ map double_percent args
unfolding split_exec
split_exec-exec_line [] = unfold join split_loop in refl
split_exec-exec_line (arg ∷ args) = split_line arg args []
