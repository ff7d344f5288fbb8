-- ===== src/Apps/Glob.antt =====
-- apps/desktop.rs: `glob_matches`. An index into the pattern or the text is the part from there
-- on, so `star` is the pattern behind the last `*` with the text from which that star was left.
use xdg_desktop_portal_aegis.Prelude.{
  ℕ, zero, suc, ◌+◌, ◌*◌, Bool, true, false, ◌||◌, Option, none, some, [], ◌∷◌, Text, ◌==◌,
  if◌then◌else◌, length, drop,
}

abbrev pub Star : Type 0
Star = Option (Text × Text)

-- The third and fourth branch of the loop: take one more character into the last star.
abbrev pub backtrack : Star → (Text → Text → Star → Option Bool) → Option Bool
backtrack none next = some false
backtrack (some (bp, bs)) next = next bp (drop 1 bs) (some (bp, drop 1 bs))

-- The loop behind the first: only stars may be left.
unfoldable pub only_stars : Text → Bool
only_stars [] = true
only_stars (q ∷ p) = if q == b'*' then only_stars p else false

unfoldable pub match_loop : ℕ → Text → Text → Star → Option Bool
match_loop zero p s star = none
match_loop (suc f) p [] star = some (only_stars p)
match_loop (suc f) [] (c ∷ s) star = backtrack star (match_loop f)
match_loop (suc f) (q ∷ p) (c ∷ s) star =
    let onward = match_loop f p s star in
    let starred = match_loop f p (c ∷ s) (some (p, c ∷ s)) in
    let back = backtrack star (match_loop f) in
    if q == b'?' || q == c then onward else if q == b'*' then starred else back

abbrev pub glob_fuel : Text → Text → ℕ
glob_fuel p s = length s * (length p + 1) + length p + 1

-- `none` is a loop that has run out of fuel. `lower` is `str::to_lowercase`.
unfoldable pub glob_matches : (Text → Text) → Text → Text → Bool → Option Bool
glob_matches lower glob name case_sensitive =
    let p = if case_sensitive then glob else lower glob in
    let s = if case_sensitive then name else lower name in match_loop (glob_fuel p s) p s none
