-- ===== src/Web/Token.antt =====
-- generateManageToken of web/src/lib/auth.ts. The bytes that crypto.getRandomValues writes are an
-- argument.
pub mod Hex
use avax_build_games.Prelude.{
  ℕ, zero, suc, ◌+◌, ◌-◌, ◌/◌, ◌%◌, List, [], ◌∷◌, ◌++◌, length, replicate, ltb, if◌then◌else◌,
  concat_map,
}
use avax_build_games.Web.Text.{Text}

unfoldable pub hex_digit : ℕ → ℕ
hex_digit d = if ltb d 10 then b'0' + d else 87 + d

-- The hexadecimal digits of `n` in front of `rest`.
unfoldable pub hex_before : ℕ → ℕ → Text → Text
unfolding hex_digit
hex_before zero n rest = rest
hex_before (suc fuel) n rest =
    let more = hex_before fuel (n / 16) (hex_digit (n % 16) ∷ rest) in
    if ltb n 16 then hex_digit n ∷ rest else more

-- n.toString(16)
unfoldable pub to_hex : ℕ → Text
unfolding hex_before
to_hex n = hex_before (suc n) n []

-- s.padStart(2, "0")
abbrev pub pad_two : Text → Text
pad_two s = replicate (2 - length s) b'0' ++ s

unfoldable pub hex_bytes : List ℕ → Text
unfolding to_hex
hex_bytes bytes = concat_map (λ b. pad_two (to_hex b)) bytes

unfoldable pub generate_manage_token : List ℕ → Text
unfolding hex_bytes
generate_manage_token buf = hex_bytes buf
