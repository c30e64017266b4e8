-- ===== src/Web/Decimal.antt =====
-- The numbers of the payments, which are decimals: `digits` over ten to the power of `scale`.
-- Rounding to a double, signs and exponents are not modelled: what is no such decimal is NaN, which
-- the routes treat as they treat a negative number.
use avax_build_games.Prelude.{
  ℕ, suc, ◌+◌, ◌-◌, ◌*◌, ◌/◌, ◌%◌, ◌^◌, Bool, false, ◌&&◌, Option, none, some, [], ◌∷◌, ◌++◌, ltb,
  leb, ◌==◌, if◌then◌else◌,
}
use avax_build_games.Web.Text.{Text, show, trim_start}
use avax_build_games.Web.Token.{pad_two}

pub record Decimal : Type 0 where
  pub digits : ℕ
  pub scale : ℕ

-- A JavaScript number that is not negative; `none` is NaN.
abbrev pub Amount : Type 0
Amount = Option Decimal

abbrev pub is_digit : ℕ → Bool
is_digit c = leb b'0' c && leb c b'9'

-- The digits at the start of a text, after `n` has been read; with the rest and how many they are.
unfoldable pub read_digits : ℕ → Text → ℕ × ℕ × Text
read_digits n [] = (n, 0, [])
read_digits n (c ∷ s) =
    let more = read_digits (n * 10 + (c - b'0')) s in
    if is_digit c then (more.0, suc more.1, more.2) else (n, 0, c ∷ s)

-- After the integer part, of which there are `count` digits.
unfoldable pub read_fraction : ℕ → ℕ → Text → Amount
unfolding read_digits
read_fraction n count [] = if count == 0 then none else some (record { digits = n; scale = 0 })
read_fraction n count (c ∷ s) =
    if c == b'.'
    then (let more = read_digits n s in
        if count == 0 && more.1 == 0
        then none
        else some (record { digits = more.0; scale = more.1 }))
    else if count == 0
    then none
    else some (record { digits = n; scale = 0 })

unfoldable pub parse_float : Text → Amount
unfolding read_digits read_fraction trim_start
parse_float s = let int = read_digits 0 (trim_start s) in read_fraction int.0 int.1 int.2

-- amount > 0
unfoldable pub is_positive : Amount → Bool
is_positive none = false
is_positive (some d) = ltb 0 d.digits

-- amount < bound and amount > bound
abbrev pub below : Decimal → ℕ → Bool
below d bound = ltb d.digits (bound * 10 ^ d.scale)

abbrev pub above : Decimal → ℕ → Bool
above d bound = ltb (bound * 10 ^ d.scale) d.digits

-- The hundredths that are nearest, upwards from the middle.
unfoldable pub hundredths : Decimal → ℕ
hundredths d = (d.digits * 200 + 10 ^ d.scale) / (2 * 10 ^ d.scale)

-- amount.toFixed(2)
unfoldable pub to_fixed_two : Decimal → Text
unfolding hundredths show
to_fixed_two d = show (hundredths d / 100) ++ b'.' ∷ pad_two (show (hundredths d % 100))
