-- ===== src/Web/Auth/Bearer.antt =====
-- The header that carries a token.
use avax_build_games.Prelude.{◌≡◌, ◌<◌, ◌^◌, false, Option, some, [], ◌∷◌, ◌++◌, All}
use avax_build_games.Web.Text.{Text, codes, is_white}
use avax_build_games.Web.Text.Trim.{trim-dark}
use avax_build_games.Web.Auth.{bearer_token}
use avax_build_games.Web.Auth.Compare.{CodeUnits}

-- Code units that are no white space.
abbrev pub Plain : Text → Type 0
Plain s = All (λ c. (c < 2 ^ 16) × (is_white c ≡ false)) s

pub Plain-CodeUnits : (s : Text) → Plain s → CodeUnits s
Plain-CodeUnits [] h = tt
Plain-CodeUnits (c ∷ s) (hc, h) = (hc.0, Plain-CodeUnits s h)

Plain-dark : (s : Text) → Plain s → All (λ c. is_white c ≡ false) s
Plain-dark [] h = tt
Plain-dark (c ∷ s) (hc, h) = (hc.1, Plain-dark s h)

-- The authorization header with a token.
abbrev pub bearer : Text → Option Text
bearer token = some (codes "Bearer " ++ token)

pub bearer_token-bearer : (token : Text) → Plain token → bearer_token (bearer token) ≡ token
unfolding bearer_token
bearer_token-bearer token h = trim-dark token (Plain-dark token h)
