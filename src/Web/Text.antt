-- ===== src/Web/Text.antt =====
-- The texts of the web application: lists of code points, with what the code does to them.
pub mod Trim
use Prim.Native.Char.{code}
use Prim.Native.String.{String}
use avax_build_games.Prelude.{
  Option, none, some, ◌||◌, ℕ, zero, suc, ◌+◌, ◌/◌, ◌%◌, ◌≡◌, refl, ap₂, Bool, true, false, ◌&&◌,
  List, [], ◌∷◌, map, arith, leb, ltb, ◌==◌, if◌then◌else◌,
}

abbrev pub Text : Type 0
Text = List ℕ

-- The code points of a literal.
abbrev pub codes : String → Text
codes String.[] = []
codes (String.◌∷◌ c s) = code c ∷ codes s

-- `===` on strings
infix 50 ◌===◌
abbrev pub ◌===◌ : Text → Text → Bool
[] === [] = true
[] === (d ∷ t) = false
(c ∷ s) === [] = false
(c ∷ s) === (d ∷ t) = c == d && s === t

pub ===→eq : (s t : Text) → (s === t) ≡ true → s ≡ t
===→eq [] [] h = refl
===→eq [] (d ∷ t) h = cc
===→eq (c ∷ s) [] h = cc
===→eq (c ∷ s) (d ∷ t) h = ap₂ ◌∷◌ (ground arith) (===→eq s t (ground arith))

pub ===_refl : (s : Text) → (s === s) ≡ true
===_refl [] = refl
===_refl (c ∷ s) = ground (arith, ===_refl s)

-- An empty string is falsy.
abbrev pub is_empty_text : Text → Bool
is_empty_text [] = true
is_empty_text (c ∷ s) = false

to_lower : ℕ → ℕ
to_lower c = if leb b'A' c && leb c b'Z' then c + 32 else c

-- toLowerCase() on ASCII letters, of which addresses are made.
unfoldable pub lower : Text → Text
unfolding to_lower
lower s = map to_lower s

-- The decimal digits of `n` in front of `rest`. A number has fewer digits than its value plus one.
digits_before : ℕ → ℕ → Text → Text
digits_before zero n rest = rest
digits_before (suc fuel) n rest =
    let more = digits_before fuel (n / 10) ((b'0' + n % 10) ∷ rest) in
    if ltb n 10 then (b'0' + n) ∷ rest else more

-- A number in a template string.
unfoldable pub show : ℕ → Text
unfolding digits_before
show n = digits_before (suc n) n []

-- The rest of a string that starts with `prefix`.
unfoldable pub drop_prefix : Text → Text → Option Text
drop_prefix [] s = some s
drop_prefix (c ∷ prefix) [] = none
drop_prefix (c ∷ prefix) (d ∷ s) = if c == d then drop_prefix prefix s else none

-- s.startsWith(prefix)
abbrev pub starts_with : Text → Text → Bool
starts_with [] s = true
starts_with (c ∷ prefix) [] = false
starts_with (c ∷ prefix) (d ∷ s) = c == d && starts_with prefix s

-- s.includes(part)
abbrev pub includes : Text → Text → Bool
includes part [] = starts_with part []
includes part (c ∷ s) = starts_with part (c ∷ s) || includes part s

-- s.endsWith(suffix)
abbrev pub ends_with : Text → Text → Bool
ends_with suffix [] = is_empty_text suffix
ends_with suffix (c ∷ s) = suffix === (c ∷ s) || ends_with suffix s

-- What `trim` and `\s` take for white space.
unfoldable pub is_white : ℕ → Bool
is_white c =
    (leb 9 c && leb c 13)
    || c == 32
    || c == 160
    || c == 5760
    || (leb 8192 c && leb c 8202)
    || c == 8232
    || c == 8233
    || c == 8239
    || c == 8287
    || c == 12288
    || c == 65279

unfoldable pub trim_start : Text → Text
unfolding is_white
trim_start [] = []
trim_start (c ∷ s) = let rest = trim_start s in if is_white c then rest else c ∷ s

unfoldable pub trim_end : Text → Text
unfolding is_white
trim_end [] = []
trim_end (c ∷ s) =
    let rest = trim_end s in if is_white c && is_empty_text rest then [] else c ∷ rest

unfoldable pub trim : Text → Text
unfolding trim_start trim_end
trim s = trim_end (trim_start s)
