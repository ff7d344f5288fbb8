-- ===== src/Persist/Token.antt =====
-- persist.rs: `random_token`, two lowercase hexadecimal digits for each byte.
use xdg_desktop_portal_aegis.Prelude.{
  ℕ, ◌+◌, ◌-◌, ◌*◌, ◌/◌, ◌%◌, ◌<◌, ◌≡◌, refl, List, [], ◌∷◌, Text, length, All, ltb, if◌then◌else◌,
  arith,
}

-- One digit of the format `{:x}`.
unfoldable pub hex_digit : ℕ → ℕ
hex_digit n = if ltb n 10 then b'0' + n else b'a' + (n - 10)

unfoldable pub random_token : List ℕ → Text
random_token [] = []
random_token (b ∷ bytes) = hex_digit (b / 16) ∷ hex_digit (b % 16) ∷ random_token bytes

abbrev pub IsByte : ℕ → Type 0
IsByte b = b < 256

hex_digit-injective : (m n : ℕ) → hex_digit m ≡ hex_digit n → m < 16 → n < 16 → m ≡ n
unfolding hex_digit
hex_digit-injective m n e hm hn = ground arith

-- A token has twice as many characters as the random source gave bytes.
pub length-random_token : (bytes : List ℕ) → length (random_token bytes) ≡ 2 * length bytes
unfolding random_token
length-random_token [] = omega arith
length-random_token (b ∷ bytes) = omega (arith, length-random_token bytes)

hex_pair :
    (a b : ℕ)
    → IsByte a
    → IsByte b
    → hex_digit (a / 16) ≡ hex_digit (b / 16)
    → hex_digit (a % 16) ≡ hex_digit (b % 16)
    → a ≡ b
hex_pair a b ha hb hi lo =
    let high = hex_digit-injective (a / 16) (b / 16) hi (omega arith) (omega arith) in
    let low = hex_digit-injective (a % 16) (b % 16) lo (omega arith) (omega arith) in omega arith

-- Different random bytes give different tokens.
pub random_token-injective :
    (xs ys : List ℕ) → All IsByte xs → All IsByte ys → random_token xs ≡ random_token ys → xs ≡ ys
unfolding random_token
random_token-injective [] [] hx hy e = refl
random_token-injective [] (y ∷ ys) hx hy e = cc
random_token-injective (x ∷ xs) [] hx hy e = cc
random_token-injective (x ∷ xs) (y ∷ ys) hx hy e =
    ground (arith, hex_pair x y hx.0 hy.0, random_token-injective xs ys hx.1 hy.1)
