-- ===== src/Client/Wallet.antt =====
-- wallet.ts of web/src/lib. ethers.Wallet.createRandom and ethers.isAddress are arguments.
pub mod Parse
use avax_build_games.Prelude.{
  ℕ, Bool, false, not, ◌&&◌, ◌||◌, List, [], ◌∷◌, map, filter, range, ◌==◌, if◌then◌else◌,
}
use avax_build_games.Web.Text.{Text, is_empty_text, is_white, trim}

pub record GeneratedWallet : Type 0 where
  pub address : Text
  pub private_key : Text

-- `create_random i` is the wallet of the call numbered `i`.
unfoldable pub generate_wallets : (ℕ → GeneratedWallet) → ℕ → List GeneratedWallet
generate_wallets create_random n = map create_random (range 0 n)

-- [\s,]
unfoldable pub is_separator : ℕ → Bool
unfolding is_white
is_separator c = is_white c || c == b','

abbrev pub starts_separator : Text → Bool
starts_separator [] = false
starts_separator (c ∷ s) = is_separator c

-- A character in front of the first part.
abbrev pub prepend : ℕ → List Text → List Text
prepend c [] = (c ∷ []) ∷ []
prepend c (part ∷ parts) = (c ∷ part) ∷ parts

-- raw.split(/[\s,]+/): a run of separators counts once, at its last character.
unfoldable pub split_separators : Text → List Text
unfolding is_separator
split_separators [] = [] ∷ []
split_separators (c ∷ s) =
    let rest = split_separators s in
    if not (is_separator c) then prepend c rest else if starts_separator s then rest else [] ∷ rest

unfoldable pub parse_address_list : (Text → Bool) → Text → List Text
unfolding split_separators trim
parse_address_list is_address raw =
    filter (λ s. not (is_empty_text s) && is_address s) (map trim (split_separators raw))
