-- ===== src/Apps/Uri.antt =====
-- apps/exec.rs: `percent_decode` and `uri_to_path`, over the bytes of a `str`. The code slices the
-- text at byte positions, which panics inside a character; a result says so.
use xdg_desktop_portal_aegis.Prelude.{
  ℕ, ◌+◌, ◌-◌, ◌*◌, ◌/◌, ◌<◌, ◌≡◌, ◌≢◌, refl, Bool, true, not, ◌&&◌, ◌||◌, Option, none, some, List,
  [], ◌∷◌, ◌++◌, Text, codes, strip_prefix, unwrap_or, ◌%◌, ltb, leb, ◌==◌, if◌then◌else◌, All,
  arith,
}

abbrev pub Bytes : Type 0
Bytes = List ℕ

-- `panic` is a slice that does not lie on character boundaries.
pub data Decoded (A : Type 0) : Type 0 where
  value : A → Decoded A
  panic : Decoded A

-- The value of a hexadecimal digit.
unfoldable pub hex_value : ℕ → Option ℕ
hex_value c =
    if leb b'0' c && leb c b'9'
    then some (c - b'0')
    else if leb b'a' c && leb c b'f'
    then some (c - b'a' + 10)
    else if leb b'A' c && leb c b'F'
    then some (c - b'A' + 10)
    else none

-- `u8::from_str_radix(two bytes, 16)`, which also reads a plus sign in front of one digit.
unfoldable pub from_hex : ℕ → ℕ → Option ℕ
from_hex a b = if a == b'+' then hex_value b else elim (hex_value a) [
  | none ↦ none
  | some h ↦ elim (hex_value b) [ none ↦ none | some l ↦ some (16 * h + l) ]
]

-- A byte that continues a character: no boundary lies in front of it.
abbrev pub continues : ℕ → Bool
continues c = leb 0x80 c && ltb c 0xc0

abbrev pub boundary_before : Bytes → Bool
boundary_before [] = true
boundary_before (c ∷ s) = not (continues c)

abbrev pub push : ℕ → Decoded Bytes → Decoded Bytes
push c (value out) = value (c ∷ out)
push c panic = panic

-- The loop: what it appends to `out` from `index` on.
unfoldable pub percent_decode_bytes : Bytes → Decoded Bytes
percent_decode_bytes [] = value []
percent_decode_bytes (c ∷ []) = value (c ∷ [])
percent_decode_bytes (c ∷ a ∷ []) = value (c ∷ a ∷ [])
percent_decode_bytes (c ∷ a ∷ b ∷ s) =
    let kept = push c (percent_decode_bytes (a ∷ b ∷ s)) in
    let decoded = percent_decode_bytes s in
    if not (c == b'%')
    then kept
    else if not (boundary_before (a ∷ [])) || not (boundary_before s)
    then panic
    else elim (from_hex a b) [ none ↦ kept | some v ↦ push v decoded ]

-- `str::as_bytes`.
unfoldable pub utf8_encode : List ℕ → Bytes
utf8_encode [] = []
utf8_encode (c ∷ s) =
    let rest = utf8_encode s in
    if ltb c 0x80
    then c ∷ rest
    else if ltb c 0x800
    then (0xc0 + c / 64) ∷ (0x80 + c % 64) ∷ rest
    else if ltb c 0x10000
    then (0xe0 + c / 4096) ∷ (0x80 + c / 64 % 64) ∷ (0x80 + c % 64) ∷ rest
    else (0xf0 + c / 262144)
      ∷ (0x80 + c / 4096 % 64)
      ∷ (0x80 + c / 64 % 64)
      ∷ (0x80 + c % 64)
      ∷ rest

-- `percent_decode`; `from_utf8` is `String::from_utf8(…).ok()`.
unfoldable pub percent_decode : (Bytes → Option Text) → Text → Decoded (Option Text)
percent_decode from_utf8 text = elim (percent_decode_bytes (utf8_encode text)) [
  | value out ↦ value (from_utf8 out)
  | panic ↦ panic
]

-- `uri_to_path`.
unfoldable pub uri_to_path : (Bytes → Option Text) → Text → Decoded (Option Text)
uri_to_path from_utf8 uri = elim (strip_prefix (codes "file://") uri) [
  | none ↦ value none
  | some rest ↦
      elim (strip_prefix (codes "/") (unwrap_or rest (strip_prefix (codes "localhost") rest))) [
        | none ↦ value none
        | some tail ↦ percent_decode from_utf8 (b'/' ∷ tail)
      ]
]

-- The two digits of a byte, as a URI writes them.
abbrev upper_digit : ℕ → ℕ
upper_digit n = if ltb n 10 then b'0' + n else b'A' + (n - 10)

abbrev pub percent_encode : Bytes → Bytes
percent_encode [] = []
percent_encode (b ∷ bs) = b'%' ∷ upper_digit (b / 16) ∷ upper_digit (b % 16) ∷ percent_encode bs

hex_value-upper_digit : (n : ℕ) → n < 16 → hex_value (upper_digit n) ≡ some n
unfolding hex_value
hex_value-upper_digit n h = ground arith

upper_digit_ascii : (n : ℕ) → n < 16 → upper_digit n < 0x80
upper_digit_ascii n h = ground arith

from_hex-upper_digit :
    (b : ℕ) → b < 256 → from_hex (upper_digit (b / 16)) (upper_digit (b % 16)) ≡ some b
unfolding from_hex
from_hex-upper_digit b h =
    let hi : b / 16 < 16 = omega arith in
    let lo : b % 16 < 16 = omega arith in
    let high = hex_value-upper_digit (b / 16) hi in
    let low = hex_value-upper_digit (b % 16) lo in
    let plain : upper_digit (b / 16) ≢ b'+' = ground arith in ground (arith, high, low)

boundary-percent_encode : (bs : Bytes) → boundary_before (percent_encode bs) ≡ true
boundary-percent_encode [] = refl
boundary-percent_encode (b ∷ bs) = refl

-- Decoding gives back any bytes that were percent-encoded, each as `%` and two digits.
pub percent_decode-encode :
    (bs : Bytes) → All (λ b. b < 256) bs → percent_decode_bytes (percent_encode bs) ≡ value bs
unfolding percent_decode_bytes
percent_decode-encode [] h = refl
percent_decode-encode (b ∷ bs) h = ground (
  arith,
  from_hex-upper_digit b h.0,
  upper_digit_ascii (b / 16) (omega arith),
  boundary-percent_encode bs,
  percent_decode-encode bs h.1,
)

ascii_boundary : (s : Bytes) → All (λ c. c < 0x80) s → boundary_before s ≡ true
ascii_boundary [] h = refl
ascii_boundary (c ∷ s) h = ground arith

-- On ASCII text the decoding never panics.
pub percent_decode_ascii : (s : Bytes) → All (λ c. c < 0x80) s → percent_decode_bytes s ≢ panic
unfolding percent_decode_bytes
percent_decode_ascii [] h e = cc
percent_decode_ascii (c ∷ []) h e = cc
percent_decode_ascii (c ∷ a ∷ []) h e = cc
percent_decode_ascii (c ∷ a ∷ b ∷ s) h e =
    let later = percent_decode_ascii (a ∷ b ∷ s) h.1 in
    let rest = percent_decode_ascii s h.1.1.1 in
    ground (arith, later, rest, ascii_boundary s h.1.1.1)

-- A `%`, an ASCII character and a character of two bytes or more, behind text with no `%`, make
-- the decoding panic: the slice of two bytes ends inside that character.
pub percent_decode_panics :
    (t s : Bytes) (a b c : ℕ)
    → All (λ x. x ≢ b'%') t
    → a < 0x80
    → continues c ≡ true
    → percent_decode_bytes (t ++ b'%' ∷ a ∷ b ∷ c ∷ s) ≡ panic
unfolding percent_decode_bytes
percent_decode_panics [] s a b c h ascii cont = ground arith
percent_decode_panics (x ∷ []) s a b c h ascii cont =
    ground (arith, percent_decode_panics [] s a b c tt ascii cont)
percent_decode_panics (x ∷ y ∷ []) s a b c h ascii cont =
    ground (arith, percent_decode_panics (y ∷ []) s a b c h.1 ascii cont)
percent_decode_panics (x ∷ y ∷ z ∷ t) s a b c h ascii cont =
    ground (arith, percent_decode_panics (y ∷ z ∷ t) s a b c h.1 ascii cont)
