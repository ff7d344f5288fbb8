-- ===== src/Apps/Exec.antt =====
-- apps/exec.rs: `split_exec`, `expand_exec` and the checks of `launch`. The conversion of a URI to
-- a path may panic, and an expansion with it.
use xdg_desktop_portal_aegis.Prelude.{
  ℕ, Bool, true, false, not, ◌&&◌, ◌||◌, Option, none, some, List, [], ◌∷◌, ◌++◌, Text, codes,
  text_eq, utf8_len, is_whitespace, join, ltb, ◌==◌, if◌then◌else◌, is_empty, length, Result, ok,
  err,
}
use xdg_desktop_portal_aegis.Apps.Uri.{Bytes, Decoded, value, panic, uri_to_path}

abbrev pub backslash : ℕ
backslash = 92

-- The characters that a backslash escapes inside double quotes.
abbrev pub is_special : ℕ → Bool
is_special c = c == b'"' || c == b'`' || c == b'$' || c == backslash

abbrev pub finish_tokens : Bool → Text → List Text → List Text
finish_tokens has_token token tokens = if has_token then tokens ++ token ∷ [] else tokens

-- The loop of `split_exec` over its variables.
unfoldable pub split_loop : Bool → Bool → Text → List Text → Text → List Text
split_loop quoted has_token token tokens [] = finish_tokens has_token token tokens
split_loop quoted has_token token tokens (c ∷ []) =
    if c == b'"'
    then finish_tokens true token tokens
    else if c == backslash
    then finish_tokens has_token token tokens
    else if is_whitespace c && not quoted
    then finish_tokens has_token token tokens
    else finish_tokens true (token ++ c ∷ []) tokens
split_loop quoted has_token token tokens (c ∷ n ∷ s) =
    let toggled = split_loop (not quoted) true token tokens (n ∷ s) in
    let escaped = split_loop quoted true (token ++ n ∷ []) tokens s in
    let literal = split_loop quoted true (token ++ backslash ∷ []) tokens (n ∷ s) in
    let broken = split_loop quoted false [] (tokens ++ token ∷ []) (n ∷ s) in
    let skipped = split_loop quoted has_token token tokens (n ∷ s) in
    let pushed = split_loop quoted true (token ++ c ∷ []) tokens (n ∷ s) in
    if c == b'"'
    then toggled
    else if c == backslash
    then (if not quoted || is_special n then escaped else literal)
    else if is_whitespace c && not quoted
    then (if has_token then broken else skipped)
    else pushed

unfoldable pub split_exec : Text → List Text
unfolding split_loop
split_exec = split_loop false false [] []

infixl 5 ◌>>=◌
abbrev pub ◌>>=◌ : {A B : Type 0} → Decoded A → (A → Decoded B) → Decoded B
value a >>= f = f a
panic >>= f = panic

abbrev option_list : Option Text → List Text
option_list none = []
option_list (some t) = t ∷ []

abbrev option_text : Option Text → Text
option_text none = []
option_text (some t) = t

-- What an expansion has built: the arguments so far, and whether the URIs were used.
pub record Expansion : Type 0 where
  pub argv : List Text
  pub used_uris : Bool

abbrev pub first_of_uris : List Text → Option Text
first_of_uris [] = none
first_of_uris (u ∷ us) = some u

abbrev is_uri_code : ℕ → Bool
is_uri_code c = c == b'u' || c == b'U' || c == b'f' || c == b'F'

abbrev pub max_exec_bytes : ℕ
max_exec_bytes = 8192

abbrev pub max_launch_uris : ℕ
max_launch_uris = 256

pub data LaunchError : Type 0 where
  oversized expanded_to_nothing : LaunchError

abbrev split_first : List Text → Result LaunchError (Text × List Text)
split_first [] = err expanded_to_nothing
split_first (program ∷ args) = ok (program, args)

-- `from_utf8` is `String::from_utf8(…).ok()`, and `uris` the URIs to launch.
module _ (from_utf8 : Bytes → Option Text) (uris : List Text) where
  -- `uris.iter().filter_map(uri_to_path)`.
  unfoldable pub all_paths : List Text → Decoded (List Text)
  all_paths [] = value []
  all_paths (u ∷ us) = do
    p ← uri_to_path from_utf8 u
    ps ← all_paths us
    value (option_list p ++ ps)

  -- `uris.first().and_then(uri_to_path)`.
  unfoldable pub first_path : List Text → Decoded (Option Text)
  first_path [] = value none
  first_path (u ∷ us) = uri_to_path from_utf8 u

  -- What one embedded code appends.
  unfoldable pub expand_code : ℕ → Decoded Text
  unfolding first_path all_paths
  expand_code code =
      if code == b'%'
      then value (b'%' ∷ [])
      else if code == b'u'
      then value (option_text (first_of_uris uris))
      else if code == b'U'
      then value (join (codes " ") uris)
      else if code == b'f'
      then (first_path uris >>= (λ p. value (option_text p)))
      else if code == b'F'
      then (all_paths uris >>= (λ ps. value (join (codes " ") ps)))
      else value []

  -- The inner loop: the expanded text, and whether a URI code was met.
  unfoldable pub expand_token : Text → Bool → Text → Decoded (Text × Bool)
  expand_token expanded used [] = value (expanded, used)
  expand_token expanded used (c ∷ []) =
      if c == b'%' then value (expanded, used) else value (expanded ++ c ∷ [], used)
  expand_token expanded used (c ∷ code ∷ s) =
      let kept = expand_token (expanded ++ c ∷ []) used (code ∷ s) in
      let coded =
        (expand_code code >>= (λ t. expand_token (expanded ++ t) (used || is_uri_code code) s)) in
      if c == b'%' then coded else kept

  abbrev add_args : Expansion → Bool → List Text → Expansion
  add_args e used args = record { argv = e.argv ++ args; used_uris = e.used_uris || used }

  -- The body of the loop over the tokens.
  unfoldable pub expand_step : Expansion → Text → Decoded Expansion
  unfolding expand_token first_path all_paths
  expand_step e token =
      if text_eq token (codes "%u")
      then value (add_args e true (option_list (first_of_uris uris)))
      else if text_eq token (codes "%U")
      then value (add_args e true uris)
      else if text_eq token (codes "%f")
      then (first_path uris >>= (λ p. value (add_args e true (option_list p))))
      else if text_eq token (codes "%F")
      then (all_paths uris >>= (λ ps. value (add_args e true ps)))
      else (expand_token [] e.used_uris token >>= (λ (t, used).
          value
            (record { argv = e.argv ++ (if is_empty t then [] else t ∷ []); used_uris = used })))

  unfoldable pub expand_tokens : Expansion → List Text → Decoded Expansion
  expand_tokens e [] = value e
  expand_tokens e (t ∷ ts) = do e' ← expand_step e t; expand_tokens e' ts

  unfoldable pub expand_exec : Text → Decoded (List Text)
  expand_exec exec = do
    e ← expand_tokens (record { argv = []; used_uris = false }) (split_exec exec)
    value (if e.used_uris then e.argv else e.argv ++ uris)

  -- `launch` up to the spawn: the program and its arguments.
  unfoldable pub launch : Text → Decoded (Result LaunchError (Text × List Text))
  launch exec =
      if ltb max_exec_bytes (utf8_len exec) || ltb max_launch_uris (length uris)
      then value (err oversized)
      else (expand_exec exec >>= (λ argv. value (split_first argv)))
