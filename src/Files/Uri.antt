-- ===== src/Files/Uri.antt =====
-- files.rs: `file_uri` and `path_from_file_uri`, on the bytes of paths and of URIs.
use xdg_desktop_portal_aegis.Prelude.{
  ℕ, ◌+◌, ◌-◌, ◌*◌, ◌/◌, ◌%◌, Bool, ◌&&◌, ◌||◌, Option, none, some, [], ◌∷◌, ◌++◌, codes,
  contains_char, strip_prefix, ltb, leb, ◌==◌, if◌then◌else◌,
}
use xdg_desktop_portal_aegis.Prompter.Paths.{Bytes, is_absolute}

-- The bytes that stand for themselves.
unfoldable pub is_plain : ℕ → Bool
is_plain b =
    (leb b'A' b && leb b b'Z')
    || (leb b'a' b && leb b b'z')
    || (leb b'0' b && leb b b'9')
    || b == b'/'
    || b == b'-'
    || b == b'.'
    || b == b'_'
    || b == b'~'

-- A digit of `{:02X}`.
abbrev pub upper_hex : ℕ → ℕ
upper_hex n = if ltb n 10 then b'0' + n else b'A' + (n - 10)

abbrev pub uri_byte : ℕ → Bytes → Bytes
uri_byte b rest =
    if is_plain b then b ∷ rest else b'%' ∷ upper_hex (b / 16) ∷ upper_hex (b % 16) ∷ rest

unfoldable pub uri_bytes : Bytes → Bytes
uri_bytes [] = []
uri_bytes (b ∷ bs) = uri_byte b (uri_bytes bs)

unfoldable pub file_uri : Bytes → Bytes
file_uri path = codes "file://" ++ uri_bytes path

-- The closure `hex`.
unfoldable pub hex : ℕ → Option ℕ
hex v =
    if leb b'0' v && leb v b'9'
    then some (v - b'0')
    else if leb b'a' v && leb v b'f'
    then some (v - b'a' + 10)
    else if leb b'A' v && leb v b'F'
    then some (v - b'A' + 10)
    else none

abbrev pub push_byte : ℕ → Option Bytes → Option Bytes
push_byte b none = none
push_byte b (some bs) = some (b ∷ bs)

abbrev pub push_coded : Option ℕ → Option ℕ → Option Bytes → Option Bytes
push_coded (some hi) (some lo) rest = push_byte (hi * 16 + lo) rest
push_coded _ _ rest = none

-- The loop over the bytes.
unfoldable pub decode_bytes : Bytes → Option Bytes
decode_bytes [] = some []
decode_bytes (c ∷ []) = if c == b'%' then none else some (c ∷ [])
decode_bytes (c ∷ a ∷ []) =
    let rest = decode_bytes (a ∷ []) in if c == b'%' then none else push_byte c rest
decode_bytes (c ∷ a ∷ b ∷ s) =
    let coded = decode_bytes s in
    let plain = decode_bytes (a ∷ b ∷ s) in
    if c == b'%' then push_coded (hex a) (hex b) coded else push_byte c plain

-- `strip_prefix` of the local host's name, which keeps the slash, or of the scheme.
abbrev pub or_scheme : Option Bytes → Option Bytes → Option Bytes
or_scheme (some path) rest = some (b'/' ∷ path)
or_scheme none rest = rest

abbrev pub nul_free : Option Bytes → Option Bytes
nul_free none = none
nul_free (some bytes) = if contains_char 0 bytes then none else some bytes

abbrev pub decode_absolute : Option Bytes → Option Bytes
decode_absolute none = none
decode_absolute (some rest) = if is_absolute rest then nul_free (decode_bytes rest) else none

unfoldable pub path_from_file_uri : Bytes → Option Bytes
path_from_file_uri uri =
    decode_absolute (
      or_scheme (strip_prefix (codes "file://localhost/") uri) (strip_prefix (codes "file://") uri))
