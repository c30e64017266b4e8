-- ===== src/Web/Http.antt =====
-- What the routes of web/src/app/api share: responses, the size check of store.ts, and the tests on
-- the fields of a body.
use Prim.Native.String.{String}
use avax_build_games.Prelude.{
  ℕ, ◌+◌, Bool, true, false, ◌||◌, Option, none, some, ltb, ◌==◌, if◌then◌else◌, ◌≡◌, ap,
}
use avax_build_games.Engine.Types.{TournamentError}
use avax_build_games.Web.Text.{Text, is_empty_text}

-- NextResponse.json: `json_error` has `{ error }`, or `text_error` where the message is computed,
-- and `json` what a route answers with status 200. The handler does not catch a TournamentError
-- (`threw`), or an exception of the language or of a library (`crashed`).
pub data Response {ℓ} (A : Type ℓ) : Type ℓ where
  json_error : ℕ → String → Response A
  text_error : ℕ → Text → Response A
  json : A → Response A
  threw : TournamentError → Response A
  crashed : Response A

-- Whether a route answers with status 200.
abbrev pub accepted {ℓ} : {A : Type ℓ} → Response A → Bool
accepted (json_error status message) = false
accepted (text_error status message) = false
accepted (json x) = true
accepted (threw e) = false
accepted crashed = false

infixl 5 ◌>>=◌
abbrev pub ◌>>=◌ {ℓ κ} : {A : Type ℓ} {B : Type κ} → Option A → (A → Option B) → Option B
none >>= f = none
some x >>= f = f x

-- validateBodySize, by the number in the header content-length
unfoldable pub body_too_large : ℕ → Bool
body_too_large content_length = ltb 65536 content_length

-- An empty string and 0 are falsy.
abbrev pub truthy_text : Option Text → Option Text
truthy_text none = none
truthy_text (some s) = if is_empty_text s then none else some s

abbrev pub truthy_number : Option ℕ → Option ℕ
truthy_number none = none
truthy_number (some n) = if n == 0 then none else some n

-- Math.abs(now - ts) > window
unfoldable pub expired : ℕ → ℕ → ℕ → Bool
expired window now ts = ltb (ts + window) now || ltb (now + window) ts

-- A call that may throw an Error with a message.
pub data Attempt {ℓ} (A : Type ℓ) : Type ℓ where
  returned : A → Attempt A
  thrown : Text → Attempt A

-- A request to a route of one tournament: `tid` is Number(id), and `none` if that is not finite.
pub record RouteRequest : Type 0 where
  pub content_length : ℕ
  pub tid : Option ℕ
  pub authorization : Option Text

pub returned-injective {ℓ} : {A : Type ℓ} (x y : A) → returned x ≡ returned y → x ≡ y
returned-injective {A} x y h = ap value h
  where
    value : Attempt A → A
    value (returned z) = z
    value (thrown e) = x
