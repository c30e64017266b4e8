-- ===== src/Web/Token/Hex.antt =====
-- The hexadecimal text of bytes.
use avax_build_games.Prelude.{
  ℕ, zero, suc, ◌+◌, ◌-◌, ◌*◌, ◌/◌, ◌%◌, ◌^◌, ◌<◌, ◌≡◌, refl, ap, ap₂, false, List, [], ◌∷◌, ◌++◌,
  All, length, ltb, Bool-cases, inl, inr, ◌≤◌, arith, if◌then◌else◌,
}
use avax_build_games.Web.Text.{Text, is_white}
use avax_build_games.Web.Token.{hex_digit, hex_before, to_hex, pad_two, hex_bytes}

-- What parseInt(c, 16) makes of a digit that `toString(16)` writes.
digit_value : ℕ → ℕ
digit_value c = if ltb c b'a' then c - b'0' else c - 87

-- The bytes of a text of hexadecimal digits.
unfoldable pub read_hex : Text → List ℕ
unfolding digit_value
read_hex [] = []
read_hex (x ∷ []) = []
read_hex (x ∷ y ∷ s) = (digit_value x * 16 + digit_value y) ∷ read_hex s

digit_value-hex_digit : (d : ℕ) → d < 16 → digit_value (hex_digit d) ≡ d
unfolding digit_value hex_digit
digit_value-hex_digit d h = ground arith

hex_before-digit :
    (fuel n : ℕ) (rest : Text) → n < 16 → hex_before (suc fuel) n rest ≡ hex_digit n ∷ rest
unfolding hex_before
hex_before-digit fuel n rest h = ground arith

hex_before-two_digits :
    (fuel n : ℕ)
    → 16 ≤ n
    → n < 256
    → hex_before (suc (suc fuel)) n [] ≡ hex_digit (n / 16) ∷ hex_digit (n % 16) ∷ []
unfolding hex_before
hex_before-two_digits fuel n lo hi =
    let high : ltb n 16 ≡ false = ground (arith, lo) in
    rw high (hex_before-digit fuel (n / 16) (hex_digit (n % 16) ∷ []) (omega arith))

pad_two-to_hex :
    (b : ℕ) → b < 256 → pad_two (to_hex b) ≡ hex_digit (b / 16) ∷ hex_digit (b % 16) ∷ []
unfolding to_hex hex_digit
pad_two-to_hex zero h = refl
pad_two-to_hex (suc b) h = elim (Bool-cases (ltb (suc b) 16)) [
  | inl lo ↦ rw (hex_before-digit (suc b) (suc b) [] (ground (arith, lo))) (
      ap₂ (λ (x y : ℕ). x ∷ y ∷ []) (let low : suc b / 16 ≡ 0 = ground (arith, lo) in rw low refl)
        (let low : suc b ≡ suc b % 16 = ground (arith, lo) in ap hex_digit low))
  | inr hi ↦ rw (hex_before-two_digits b (suc b) (ground (arith, hi)) h) refl
]

hex_bytes_cons :
    (b : ℕ) (bytes : List ℕ)
    → b < 256
    → hex_bytes (b ∷ bytes) ≡ hex_digit (b / 16) ∷ hex_digit (b % 16) ∷ hex_bytes bytes
unfolding hex_bytes
hex_bytes_cons b bytes h = ap (λ (s : Text). s ++ hex_bytes bytes) (pad_two-to_hex b h)

-- Reading the hexadecimal text of bytes gives the bytes back, so that two lists of bytes with the same
-- text are the same.
pub read_hex-hex_bytes :
    (bytes : List ℕ) → All (λ b. b < 256) bytes → read_hex (hex_bytes bytes) ≡ bytes
unfolding read_hex hex_bytes
read_hex-hex_bytes [] h = refl
read_hex-hex_bytes (b ∷ bytes) (hb, h) =
    rw
      (
        pad_two-to_hex b hb,
        digit_value-hex_digit (b / 16) (omega arith),
        digit_value-hex_digit (b % 16) (omega arith),
      )
      (ap₂ ◌∷◌ (omega arith) (read_hex-hex_bytes bytes h))

pub length-hex_bytes :
    (bytes : List ℕ) → All (λ b. b < 256) bytes → length (hex_bytes bytes) ≡ 2 * length bytes
unfolding hex_bytes
length-hex_bytes [] h = refl
length-hex_bytes (b ∷ bytes) (hb, h) =
    rw (hex_bytes_cons b bytes hb) (omega (arith, length-hex_bytes bytes h))

-- A digit is an ASCII character that is no white space.
hex_digit-plain : (d : ℕ) → d < 16 → (hex_digit d < 2 ^ 16) × (is_white (hex_digit d) ≡ false)
unfolding hex_digit is_white
hex_digit-plain d h = (ground arith, ground arith)

pub hex_bytes-plain :
    (bytes : List ℕ)
    → All (λ b. b < 256) bytes
    → All (λ c. (c < 2 ^ 16) × (is_white c ≡ false)) (hex_bytes bytes)
unfolding hex_bytes
hex_bytes-plain [] h = tt
hex_bytes-plain (b ∷ bytes) (hb, h) = rw (hex_bytes_cons b bytes hb) (
  hex_digit-plain (b / 16) (omega arith),
  (hex_digit-plain (b % 16) (omega arith), hex_bytes-plain bytes h),
)
