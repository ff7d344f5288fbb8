-- ===== src/Ipc/CodecLaws.antt =====
-- codec.rs: what `read_msg` makes of the frames of `write_msg`.
use xdg_desktop_portal_aegis.Prelude.{
  ℕ, zero, suc, ◌<◌, ◌≤◌, ◌≡◌, ◌≢◌, refl, some, [], ◌∷◌, ◌++◌, length, length-append, ok, err,
  arith, inl, inr, Option-cases, append_assoc, sym, ap,
}
use xdg_desktop_portal_aegis.Ipc.Codec.{
  Bytes, Json, max_frame, unexpected_eof, to_le_bytes, read_exact, read_length, write_msg, read_msg,
}

read_exact-append : (bs rest : Bytes) → read_exact (length bs) (bs ++ rest) ≡ ok (bs, rest)
unfolding read_exact
read_exact-append [] rest = refl
read_exact-append (b ∷ bs) rest = ground (arith, read_exact-append bs rest)

read_exact_short : (n : ℕ) (s : Bytes) → length s < n → read_exact n s ≡ err unexpected_eof
unfolding read_exact
read_exact_short zero s h = absurd (omega (arith, h))
read_exact_short (suc n) [] h = refl
read_exact_short (suc n) (b ∷ s) h = ground (arith, read_exact_short n s (omega (arith, h)))

read_length-to_le_bytes :
    (n : ℕ) (s : Bytes) → n ≤ max_frame → read_length (to_le_bytes n ++ s) ≡ ok (n, s)
unfolding read_length to_le_bytes
read_length-to_le_bytes n s h = ground (arith, h)

-- What the length of a cut frame reads as.
cut_length :
    (n : ℕ) (bytes : Bytes) (a b c d : ℕ) (s q : Bytes)
    → n ≤ max_frame
    → to_le_bytes n ++ bytes ≡ (a ∷ b ∷ c ∷ d ∷ s) ++ q
    → (read_length (a ∷ b ∷ c ∷ d ∷ s) ≡ ok (n, s)) × (bytes ≡ s ++ q)
unfolding to_le_bytes read_length
cut_length n bytes a b c d s q le e = (ground (arith, le, e), ground (arith, e))

filled : (q : Bytes) → q ≢ [] → 0 < length q
filled [] n = absurd (n refl)
filled (b ∷ q) n = omega arith

module _ {A : Type 0} (json : Json A) where
  write_msg-inverse :
      (message : A) (frame : Bytes)
      → write_msg json message ≡ ok frame
      → (bytes : Bytes) × (json.to_vec message ≡ some bytes)
        × (length bytes ≤ max_frame)
        × (frame ≡ to_le_bytes (length bytes) ++ bytes)
  unfolding write_msg
  write_msg-inverse message frame e = elim (Option-cases (json.to_vec message)) [
    | inl n ↦ absurd (ground (arith, e, n))
    | inr (bytes, n) ↦ (bytes, n, ground (arith, e, n), ground (arith, e, n))
  ]

  -- A reader takes from a stream exactly the frame of the message that was written, and leaves what
  -- follows it.
  pub read_msg-write_msg :
      (message : A) (frame rest : Bytes)
      → write_msg json message ≡ ok frame
      → read_msg json (frame ++ rest) ≡ ok (message, rest)
  unfolding read_msg
  read_msg-write_msg message frame rest e =
      let (bytes, n, le, f) = write_msg-inverse message frame e in
      rw f (
        rw (append_assoc (to_le_bytes (length bytes)) bytes rest) (
          rw (read_length-to_le_bytes (length bytes) (bytes ++ rest) le) (
            ground
              (arith, le, read_exact-append bytes rest, json.from_slice-to_vec message bytes n))))

  read_msg_cut :
      (bytes cut missing : Bytes)
      → length bytes ≤ max_frame
      → missing ≢ []
      → to_le_bytes (length bytes) ++ bytes ≡ cut ++ missing
      → read_msg json cut ≡ err unexpected_eof
  unfolding read_msg read_length
  read_msg_cut bytes [] q le n e = refl
  read_msg_cut bytes (a ∷ []) q le n e = refl
  read_msg_cut bytes (a ∷ b ∷ []) q le n e = refl
  read_msg_cut bytes (a ∷ b ∷ c ∷ []) q le n e = refl
  read_msg_cut bytes (a ∷ b ∷ c ∷ d ∷ s) q le n e =
      let (size, split) = cut_length (length bytes) bytes a b c d s q le e in
      let short : length s < length bytes =
        omega (arith, ap (λ (l : Bytes). length l) split, length-append s q, filled q n) in
      ground (arith, le, size, read_exact_short (length bytes) s short)

  -- A frame that breaks off before its end is refused as an unexpected end, wherever it breaks off.
  pub read_msg_truncated :
      (message : A) (cut missing : Bytes)
      → missing ≢ []
      → write_msg json message ≡ ok (cut ++ missing)
      → read_msg json cut ≡ err unexpected_eof
  read_msg_truncated message cut missing n e =
      let (bytes, _, le, f) = write_msg-inverse message (cut ++ missing) e in
      read_msg_cut bytes cut missing le n (sym f)
