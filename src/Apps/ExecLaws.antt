-- ===== src/Apps/ExecLaws.antt =====
-- apps/exec.rs: quoting and splitting, and what becomes of the URIs.
use xdg_desktop_portal_aegis.Prelude.{
  ℕ, ◌≡◌, ◌≢◌, refl, ◌∙◌, inl, inr, Bool, true, false, not, Option, List, [], ◌∷◌, ◌++◌, append-nil,
  append_assoc, Text, text_eq, is_whitespace, if◌then◌else◌, Bool-cases, All, arith,
}
use xdg_desktop_portal_aegis.Apps.Uri.{Bytes, value}
use xdg_desktop_portal_aegis.Apps.Exec.{
  backslash, is_special, split_loop, split_exec, Expansion, expand_token, expand_step,
  expand_tokens, expand_exec,
}

-- How the Desktop Entry Specification quotes an argument: double quotes round it, and a backslash
-- before each character that stays special inside them.
abbrev pub quote_char : ℕ → Text
quote_char c = if is_special c then backslash ∷ c ∷ [] else c ∷ []

abbrev pub escape : Text → Text → Text
escape [] rest = rest
escape (c ∷ t) rest = quote_char c ++ escape t rest

abbrev pub quote : Text → Text → Text
quote t rest = b'"' ∷ escape t (b'"' ∷ rest)

-- The arguments quoted, with a space before all but the first.
abbrev pub quote_more : List Text → Text
quote_more [] = []
quote_more (t ∷ ts) = b' ' ∷ quote t (quote_more ts)

abbrev pub quote_all : List Text → Text
quote_all [] = []
quote_all (t ∷ ts) = quote t (quote_more ts)

-- What the loop does with one character when another one follows, in each mode.
split_push :
    (has_token : Bool) (token : Text) (tokens : List Text) (c n : ℕ) (s : Text)
    → is_special c ≡ false
    → split_loop true has_token token tokens (c ∷ n ∷ s)
      ≡ split_loop true true (token ++ c ∷ []) tokens (n ∷ s)
unfolding split_loop
split_push has_token token tokens c n s h = ground arith

split_escape :
    (has_token : Bool) (token : Text) (tokens : List Text) (c : ℕ) (s : Text)
    → is_special c ≡ true
    → split_loop true has_token token tokens (backslash ∷ c ∷ s)
      ≡ split_loop true true (token ++ c ∷ []) tokens s
unfolding split_loop
split_escape has_token token tokens c s h = ground arith

pub split_quote :
    (quoted has_token : Bool) (token : Text) (tokens : List Text) (n : ℕ) (s : Text)
    → split_loop quoted has_token token tokens (b'"' ∷ n ∷ s)
      ≡ split_loop (not quoted) true token tokens (n ∷ s)
unfolding split_loop
split_quote quoted has_token token tokens n s = refl

pub split_last_quote :
    (quoted has_token : Bool) (token : Text) (tokens : List Text)
    → split_loop quoted has_token token tokens (b'"' ∷ []) ≡ tokens ++ token ∷ []
unfolding split_loop
split_last_quote quoted has_token token tokens = refl

pub split_space :
    (token : Text) (tokens : List Text) (n : ℕ) (s : Text)
    → split_loop false true token tokens (b' ' ∷ n ∷ s)
      ≡ split_loop false false [] (tokens ++ token ∷ []) (n ∷ s)
unfolding split_loop is_whitespace
split_space token tokens n s = refl

-- A text that is not empty, whose head may be anything.
abbrev quoted_end : Text → Text
quoted_end rest = b'"' ∷ rest

escape_cons : (t rest : Text) → (n : ℕ) × (s : Text) × (escape t (b'"' ∷ rest) ≡ n ∷ s)
escape_cons [] rest = (b'"', rest, refl)
escape_cons (c ∷ t) rest = elim (Bool-cases (is_special c)) [
  | inl e ↦ (backslash, c ∷ escape t (b'"' ∷ rest), ground (arith, e))
  | inr e ↦ (c, escape t (b'"' ∷ rest), ground (arith, e))
]

-- The same two steps in front of an escaped text.
split_push_escape :
    (token : Text) (tokens : List Text) (c : ℕ) (t rest : Text)
    → is_special c ≡ false
    → split_loop true true token tokens (c ∷ escape t (b'"' ∷ rest))
      ≡ split_loop true true (token ++ c ∷ []) tokens (escape t (b'"' ∷ rest))
split_push_escape token tokens c t rest h =
    let (n, s, e) = escape_cons t rest in rw e (split_push true token tokens c n s h)

split_quote_escape :
    (tokens : List Text) (t rest : Text)
    → split_loop false false [] tokens (b'"' ∷ escape t (b'"' ∷ rest))
      ≡ split_loop true true [] tokens (escape t (b'"' ∷ rest))
split_quote_escape tokens t rest =
    let (n, s, e) = escape_cons t rest in rw e (split_quote false false [] tokens n s)

split_escaped :
    (t : Text) (token : Text) (tokens : List Text) (rest : Text)
    → split_loop true true token tokens (escape t (b'"' ∷ rest))
      ≡ split_loop true true (token ++ t) tokens (b'"' ∷ rest)
split_escaped [] token tokens rest = rw append-nil
split_escaped (c ∷ t) token tokens rest =
    let more = split_escaped t (token ++ c ∷ []) tokens rest in
    let whole : (token ++ c ∷ []) ++ t ≡ token ++ c ∷ t = rw append_assoc in
    elim (Bool-cases (is_special c)) [
      | inl h ↦ rw (h, ← whole) (split_escape true token tokens c (escape t (b'"' ∷ rest)) h ∙ more)
      | inr h ↦ rw (h, ← whole) (split_push_escape token tokens c t rest h ∙ more)
    ]

pub split_quoted :
    (t : Text) (tokens : List Text) (rest : Text)
    → split_loop false false [] tokens (quote t rest) ≡ split_loop true true t tokens (b'"' ∷ rest)
split_quoted t tokens rest = split_quote_escape tokens t rest ∙ split_escaped t [] tokens rest

split_quoted_all :
    (t : Text) (ts tokens : List Text)
    → split_loop false false [] tokens (quote t (quote_more ts)) ≡ tokens ++ t ∷ ts
split_quoted_all t [] tokens = split_quoted t tokens [] ∙ split_last_quote true true t tokens
split_quoted_all t (u ∷ us) tokens =
    split_quoted t tokens (quote_more (u ∷ us))
    ∙ split_quote true true t tokens b' ' (quote u (quote_more us))
    ∙ split_space t tokens b'"' (escape u (b'"' ∷ quote_more us))
    ∙ split_quoted_all u us (tokens ++ t ∷ [])
    ∙ rw append_assoc

-- Splitting an `Exec` line gives back any list of arguments that were quoted as the Desktop Entry
-- Specification says and set apart by a space, whatever characters they hold, empty ones included.
pub split_exec-quote_all : (ts : List Text) → split_exec (quote_all ts) ≡ ts
unfolding split_exec
split_exec-quote_all [] = refl
split_exec-quote_all (t ∷ ts) = split_quoted_all t ts []

-- An argument that is not empty and holds no `%`.
abbrev pub IsPlain : Text → Type 0
IsPlain t = (t ≢ []) × All (λ c. c ≢ b'%') t

module _ (from_utf8 : Bytes → Option Text) (uris : List Text) where
  expand_token_plain :
      (t expanded : Text) (used : Bool)
      → All (λ c. c ≢ b'%') t
      → expand_token from_utf8 uris expanded used t ≡ value (expanded ++ t, used)
  unfolding expand_token
  expand_token_plain [] expanded used h = rw append-nil
  expand_token_plain (c ∷ []) expanded used h = ground arith
  expand_token_plain (c ∷ d ∷ t) expanded used h = ground (
    arith,
    expand_token_plain (d ∷ t) (expanded ++ c ∷ []) used h.1,
    append_assoc expanded (c ∷ []) (d ∷ t),
  )

  expand_step_plain :
      (t : Text) (e : Expansion)
      → IsPlain t
      → expand_step from_utf8 uris e t
        ≡ value (record { argv = e.argv ++ t ∷ []; used_uris = e.used_uris })
  unfolding expand_step text_eq
  expand_step_plain [] e h = absurd (h.0 refl)
  expand_step_plain (c ∷ t) e h = ground (arith, expand_token_plain (c ∷ t) [] e.used_uris h.1)

  expand_tokens_plain :
      (ts : List Text) (e : Expansion)
      → All IsPlain ts
      → expand_tokens from_utf8 uris e ts
        ≡ value (record { argv = e.argv ++ ts; used_uris = e.used_uris })
  unfolding expand_tokens
  expand_tokens_plain [] e h = rw append-nil
  expand_tokens_plain (t ∷ ts) e h = ground (
    arith,
    expand_step_plain t e h.0,
    expand_tokens_plain ts (record { argv = e.argv ++ t ∷ []; used_uris = e.used_uris }) h.1,
    append_assoc e.argv (t ∷ []) ts,
  )

  -- An `Exec` line of quoted arguments, none of them empty and none with a `%` in it, expands to
  -- exactly those arguments, followed by the URIs.
  pub expand_exec_plain :
      (ts : List Text)
      → All IsPlain ts
      → expand_exec from_utf8 uris (quote_all ts) ≡ value (ts ++ uris)
  unfolding expand_exec
  expand_exec_plain ts h = ground (
    arith,
    split_exec-quote_all ts,
    expand_tokens_plain ts (record { argv = []; used_uris = false }) h,
  )
