-- ===== src/Apps/Pieces.antt =====
-- apps/desktop.rs: texts of whole lines, split and put together.
use xdg_desktop_portal_aegis.Prelude.{
  ℕ, true, false, not, ◌&&◌, none, some, List, [], ◌∷◌, ◌++◌, ◌≡◌, ◌≢◌, refl, inl, inr, sym, ap,
  ◌∙◌, map, Text, contains_char, is_whitespace, trim_end, unless_blank, strip_suffix_char, ◌==◌,
  is_empty, unwrap_or, All, append_assoc, append-nil, arith, Bool-cases, Option-cases,
}
use xdg_desktop_portal_aegis.Apps.Desktop.{Reading, split_inclusive, lines, read_line, read_lines}
use xdg_desktop_portal_aegis.Apps.Lines.{strip_suffix_last}
use xdg_desktop_portal_aegis.Apps.MimeApps.{concat, body_of, ends_with_newline, end_last}

-- A line feed at the end, and no other.
pub record IsLine (l : Text) : Type 0 where
  pub body : Text
  pub ended : l ≡ body ++ 10 ∷ []
  pub one_line : contains_char 10 body ≡ false

-- A text whose lines are all ended.
abbrev pub IsTerminated : Text → Type 0
IsTerminated [] = Unit
IsTerminated (c ∷ []) = c ≡ 10
IsTerminated (c ∷ d ∷ s) = IsTerminated (d ∷ s)

split_inclusive-body :
    (b rest : Text)
    → contains_char 10 b ≡ false
    → split_inclusive (b ++ 10 ∷ rest) ≡ (b ++ 10 ∷ []) ∷ split_inclusive rest
unfolding split_inclusive
split_inclusive-body [] [] h = refl
split_inclusive-body [] (d ∷ s) h = refl
split_inclusive-body (c ∷ []) rest h = ground (arith, h, split_inclusive-body [] rest refl)
split_inclusive-body (c ∷ d ∷ b) rest h = ground (arith, h, split_inclusive-body (d ∷ b) rest)

pub split_inclusive-concat : (ls : List Text) → All IsLine ls → split_inclusive (concat ls) ≡ ls
unfolding split_inclusive
split_inclusive-concat [] a = refl
split_inclusive-concat (l ∷ ls) (h, a) = rw h.ended (
    ap split_inclusive (append_assoc h.body (10 ∷ []) (concat ls))
    ∙ split_inclusive-body h.body (concat ls) h.one_line
    ∙ ap (λ (m : List Text). (h.body ++ 10 ∷ []) ∷ m) (split_inclusive-concat ls a))

cons-IsLine : (c : ℕ) (l : Text) → (c == 10) ≡ false → IsLine l → IsLine (c ∷ l)
cons-IsLine c l h k = record {
  body = c ∷ k.body;
  ended = ap (λ (t : Text). c ∷ t) k.ended;
  one_line = ground (arith, h, k.one_line);
}

onto-AllLines :
    (c d : ℕ) (s : Text) (more : List Text)
    → (c == 10) ≡ false
    → more ≢ []
    → All IsLine more
    → All IsLine (elim more [ [] ↦ (c ∷ []) ∷ [] | l ∷ ls ↦ (c ∷ l) ∷ ls ])
onto-AllLines c d s [] h n a = absurd (n refl)
onto-AllLines c d s (l ∷ ls) h n (k, a) = (cons-IsLine c l h k, a)

split_inclusive-filled : (c : ℕ) (s : Text) → split_inclusive (c ∷ s) ≢ []
unfolding split_inclusive
split_inclusive-filled c [] e = ground (arith, e)
split_inclusive-filled c (d ∷ s) e = ground (arith, e)

pub split_inclusive-AllLines : (s : Text) → IsTerminated s → All IsLine (split_inclusive s)
unfolding split_inclusive
split_inclusive-AllLines [] h = tt
split_inclusive-AllLines (c ∷ []) h =
    (record { body = []; ended = ap (λ (x : ℕ). x ∷ []) h; one_line = refl }, tt)
split_inclusive-AllLines (c ∷ d ∷ s) h =
    let more = split_inclusive-AllLines (d ∷ s) h in
    elim (Bool-cases (c == 10)) [
      | inl q ↦ rw q (record { body = []; ended = refl; one_line = refl }, more)
      | inr q ↦
          rw q (onto-AllLines c d s (split_inclusive (d ∷ s)) q (split_inclusive-filled d s) more)
    ]

trim_end-return : (s : Text) → trim_end (s ++ 13 ∷ []) ≡ trim_end s
unfolding trim_end is_whitespace
trim_end-return [] = refl
trim_end-return (c ∷ s) = ap (unless_blank c) (trim_end-return s)

strip_suffix-inverse : (c : ℕ) (s b : Text) → strip_suffix_char c s ≡ some b → s ≡ b ++ c ∷ []
unfolding strip_suffix_char
strip_suffix-inverse c [] b e = absurd (ground (arith, e))
strip_suffix-inverse c (x ∷ []) b e = ground (arith, e)
strip_suffix-inverse c (x ∷ y ∷ s) b e = elim (Option-cases (strip_suffix_char c (y ∷ s))) [
  | inl q ↦ absurd (ground (arith, e, q))
  | inr (t, q) ↦ ground (arith, e, q, strip_suffix-inverse c (y ∷ s) t q)
]

-- A carriage return at the end of a line makes no difference.
abbrev less_return : Text → Text
less_return b = unwrap_or b (strip_suffix_char 13 b)

trim_end-less_return : (b : Text) → trim_end (less_return b) ≡ trim_end b
trim_end-less_return b = elim (Option-cases (strip_suffix_char 13 b)) [
  | inl q ↦ rw q refl
  | inr (t, q) ↦ rw q (sym (ap trim_end (strip_suffix-inverse 13 b t q) ∙ trim_end-return t))
]

read_line-less_return : (r : Reading) (b : Text) → read_line r (less_return b) ≡ read_line r b
unfolding read_line
read_line-less_return r b = rw (trim_end-less_return b) refl

abbrev less_ending : Text → Text
less_ending l = elim (strip_suffix_char 10 l) [ none ↦ l | some b ↦ less_return b ]

less_ending-ended : (b : Text) → less_ending (b ++ 10 ∷ []) ≡ less_return b
less_ending-ended b = ground (arith, strip_suffix_last 10 b)

body_of-ended : (b : Text) → body_of (b ++ 10 ∷ []) ≡ b
body_of-ended b = ground (arith, strip_suffix_last 10 b)

newline-ended : (b : Text) → ends_with_newline (b ++ 10 ∷ []) ≡ true
newline-ended b = ground (arith, strip_suffix_last 10 b)

newline-IsLine : (l : Text) → IsLine l → ends_with_newline l ≡ true
newline-IsLine l h = ap ends_with_newline h.ended ∙ newline-ended h.body

read_line-less_ending :
    (r : Reading) (l : Text) → IsLine l → read_line r (less_ending l) ≡ read_line r (body_of l)
read_line-less_ending r l h =
    ap (λ (t : Text). read_line r t) (ap less_ending h.ended ∙ less_ending-ended h.body)
    ∙ read_line-less_return r h.body
    ∙ ap (λ (t : Text). read_line r t) (sym (ap body_of h.ended ∙ body_of-ended h.body))

read_less_endings :
    (r : Reading) (ls : List Text)
    → All IsLine ls
    → read_lines r (map less_ending ls) ≡ read_lines r (map body_of ls)
unfolding read_lines
read_less_endings r [] a = refl
read_less_endings r (l ∷ ls) (h, a) =
    read_less_endings (read_line r (less_ending l)) ls a
    ∙ ap (λ (q : Reading). read_lines q (map body_of ls)) (read_line-less_ending r l h)

-- Reading a text of whole lines is reading the bodies of its lines.
pub read_lines-lines :
    (r : Reading) (ls : List Text)
    → All IsLine ls
    → read_lines r (lines (concat ls)) ≡ read_lines r (map body_of ls)
unfolding lines
read_lines-lines r ls a =
    ap (λ (ps : List Text). read_lines r (map less_ending ps)) (split_inclusive-concat ls a)
    ∙ read_less_endings r ls a

newline-cons : (c : ℕ) (s : Text) → ends_with_newline s ≡ true → ends_with_newline (c ∷ s) ≡ true
unfolding strip_suffix_char
newline-cons c [] h = absurd (ground (arith, h))
newline-cons c (d ∷ s) h = ground (arith, h)

newline-append : (s t : Text) → ends_with_newline t ≡ true → ends_with_newline (s ++ t) ≡ true
newline-append [] t h = h
newline-append (c ∷ s) t h = newline-cons c (s ++ t) (newline-append s t h)

newline-concat :
    (l : Text) (ls : List Text)
    → IsLine l
    → All IsLine ls
    → ends_with_newline (concat (l ∷ ls)) ≡ true
newline-concat l [] h a = ap ends_with_newline (append-nil l) ∙ newline-IsLine l h
newline-concat l (m ∷ ls) h (k, a) = newline-append l (concat (m ∷ ls)) (newline-concat m ls k a)

-- A text of whole lines is empty or ends in a line feed.
pub concat-newline :
    (ls : List Text)
    → All IsLine ls
    → (not (is_empty (concat ls)) && not (ends_with_newline (concat ls))) ≡ false
concat-newline [] a = refl
concat-newline (l ∷ ls) (h, a) = ground (arith, newline-concat l ls h a)

pub end_last-AllLines : (ls : List Text) → All IsLine ls → end_last ls ≡ ls
unfolding end_last
end_last-AllLines [] a = refl
end_last-AllLines (t ∷ []) (h, a) = ground (arith, newline-IsLine t h)
end_last-AllLines (t ∷ u ∷ ts) (h, a) = ap (λ (l : List Text). t ∷ l) (end_last-AllLines (u ∷ ts) a)

pub All-append : (xs ys : List Text) → All IsLine xs → All IsLine ys → All IsLine (xs ++ ys)
All-append [] ys a b = b
All-append (x ∷ xs) ys (h, a) b = (h, All-append xs ys a b)
