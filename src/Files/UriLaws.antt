-- ===== src/Files/UriLaws.antt =====
-- files.rs: a path survives its way through a URI.
use xdg_desktop_portal_aegis.Prelude.{
  ℕ, ◌+◌, ◌*◌, ◌/◌, ◌%◌, ◌<◌, ◌≡◌, refl, sym, ap, ◌∙◌, inl, inr, true, false, some, [], ◌∷◌, All,
  contains_char, strip_prefix, ◌==◌, ==_iff, subst, Bool-cases, arith,
}
use xdg_desktop_portal_aegis.Prompter.Paths.{Bytes, is_absolute}
use xdg_desktop_portal_aegis.Files.Uri.{
  is_plain, upper_hex, uri_byte, uri_bytes, file_uri, hex, push_byte, decode_bytes, nul_free,
  path_from_file_uri,
}

hex-upper_hex : (n : ℕ) → n < 16 → hex (upper_hex n) ≡ some n
unfolding hex
hex-upper_hex n h = ground (arith, h)

decode_plain :
    (c : ℕ) (s : Bytes) → (c == b'%') ≡ false → decode_bytes (c ∷ s) ≡ push_byte c (decode_bytes s)
unfolding decode_bytes
decode_plain c [] h = ground (arith, h)
decode_plain c (a ∷ []) h = ground (arith, h)
decode_plain c (a ∷ b ∷ s) h = ground (arith, h)

decode_bytes-uri_byte :
    (b : ℕ) (rest : Bytes)
    → b < 256
    → decode_bytes (uri_byte b rest) ≡ push_byte b (decode_bytes rest)
decode_bytes-uri_byte b rest small = elim (Bool-cases (is_plain b)) [
  | inl e ↦
      let other : (b == b'%') ≡ false = unfold is_plain in ground (arith, e) in
      rw e (decode_plain b rest other)
  | inr e ↦
      let high = hex-upper_hex (b / 16) (omega (arith, small)) in
      let low = hex-upper_hex (b % 16) (omega arith) in
      let whole : b / 16 * 16 + b % 16 ≡ b = omega arith in
      rw e (unfold decode_bytes in rw (high, low, whole) refl)
]

decode_bytes-uri_bytes : (p : Bytes) → All (λ b. b < 256) p → decode_bytes (uri_bytes p) ≡ some p
unfolding uri_bytes
decode_bytes-uri_bytes [] h = unfold decode_bytes in refl
decode_bytes-uri_bytes (b ∷ bs) (small, rest) =
    decode_bytes-uri_byte b (uri_bytes bs) small ∙ ap (push_byte b) (decode_bytes-uri_bytes bs rest)

rooted :
    (bs : Bytes)
    → All (λ b. b < 256) (b'/' ∷ bs)
    → contains_char 0 (b'/' ∷ bs) ≡ false
    → path_from_file_uri (file_uri (b'/' ∷ bs)) ≡ some (b'/' ∷ bs)
unfolding path_from_file_uri file_uri strip_prefix uri_bytes is_plain
rooted bs small clean = ap nul_free (decode_bytes-uri_bytes (b'/' ∷ bs) small) ∙ rw clean refl

-- The path of a file's URI is the file's path, for every absolute path of bytes without a zero.
pub path_from_file_uri-file_uri :
    (p : Bytes)
    → All (λ b. b < 256) p
    → is_absolute p ≡ true
    → contains_char 0 p ≡ false
    → path_from_file_uri (file_uri p) ≡ some p
path_from_file_uri-file_uri [] small root clean = absurd (ground (arith, root))
path_from_file_uri-file_uri (b ∷ bs) small root clean =
    let slash : b'/' ≡ b = sym ((==_iff b b'/').0 root) in
    let at : (c : ℕ) → Type 0 = λ c.
      All (λ x. x < 256) (c ∷ bs)
      → contains_char 0 (c ∷ bs) ≡ false
      → path_from_file_uri (file_uri (c ∷ bs)) ≡ some (c ∷ bs) in
    subst at slash (rooted bs) small clean
