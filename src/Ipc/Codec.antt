-- ===== src/Ipc/Codec.antt =====
-- codec.rs: `write_msg` and `read_msg`. A writer is what it has been given, a reader the bytes that
-- are left. The JSON text of a message is the business of a codec.
use xdg_desktop_portal_aegis.Prelude.{
  ℕ, zero, suc, ◌+◌, ◌*◌, ◌/◌, ◌%◌, ◌^◌, ◌≡◌, Option, some, List, [], ◌∷◌, ◌++◌, ltb, length,
  Result, ok, err, refuse_if, ok_or, ◌>>=◌, ◌>>◌,
}

abbrev pub Bytes : Type 0
Bytes = List ℕ

-- `serde_json`: a message that is written is read back.
pub record Json (A : Type 0) : Type 0 where
  pub to_vec : A → Option Bytes
  pub from_slice : Bytes → Option A
  pub from_slice-to_vec : (a : A) (bs : Bytes) → to_vec a ≡ some bs → from_slice bs ≡ some a

abbrev pub max_frame : ℕ
max_frame = 16777216

pub data IoError : Type 0 where
  invalid_data unexpected_eof : IoError

-- `u32::to_le_bytes` after `as u32`.
unfoldable pub to_le_bytes : ℕ → Bytes
to_le_bytes n =
    let m = n % 2 ^ 32 in m % 256 ∷ m / 256 % 256 ∷ m / 65536 % 256 ∷ m / 16777216 % 256 ∷ []

-- `Read::read_exact`: the bytes read, and those left.
unfoldable pub read_exact : ℕ → Bytes → Result IoError (Bytes × Bytes)
read_exact zero s = ok ([], s)
read_exact (suc n) [] = err unexpected_eof
read_exact (suc n) (b ∷ s) = do (bs, rest) ← read_exact n s; ok (b ∷ bs, rest)

-- `read_exact` of four bytes, and `u32::from_le_bytes`.
unfoldable pub read_length : Bytes → Result IoError (ℕ × Bytes)
read_length (a ∷ b ∷ c ∷ d ∷ s) = ok (a + b * 256 + c * 65536 + d * 16777216, s)
read_length _ = err unexpected_eof

module _ {A : Type 0} (json : Json A) where
  -- The bytes that the writer is given.
  unfoldable pub write_msg : A → Result IoError Bytes
  write_msg message = do
    bytes ← ok_or (json.to_vec message) invalid_data
    refuse_if (ltb max_frame (length bytes)) invalid_data
    ok (to_le_bytes (length bytes) ++ bytes)

  -- The message, and the bytes that are left.
  unfoldable pub read_msg : Bytes → Result IoError (A × Bytes)
  read_msg stream = do
    (n, s) ← read_length stream
    refuse_if (ltb max_frame n) invalid_data
    (bytes, rest) ← read_exact n s
    message ← ok_or (json.from_slice bytes) invalid_data
    ok (message, rest)
