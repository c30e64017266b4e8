-- ===== src/Web/Paypal.antt =====
-- paypal.ts of web/src/lib. The environment, the time and what PayPal answers are arguments.
use avax_build_games.Prelude.{
  ℕ, ◌+◌, ◌-◌, ◌*◌, ◌/◌, ◌%◌, Bool, not, ◌&&◌, Option, none, some, List, [], ◌∷◌, ◌++◌, ltb, ◌==◌,
  if◌then◌else◌,
}
use avax_build_games.Web.Http.{Attempt, returned, thrown}
use avax_build_games.Web.Text.{Text, codes, ◌===◌, is_empty_text, show}
use avax_build_games.Web.Decimal.{Amount, parse_float}

-- What a fetch and the reading of its JSON give: `unread` where either throws, `refused` where the
-- status is not in the 200s.
pub data Reply {ℓ} (A : Type ℓ) : Type ℓ where
  unread : Text → Reply A
  refused : ℕ → Reply A
  answered : A → Reply A

-- The environment variables.
pub record PaypalEnv : Type 0 where
  pub paypal_client_id : Option Text
  pub paypal_id : Option Text
  pub paypal_secret : Option Text
  pub paypal_client_secret : Option Text
  pub paypal_api_base : Option Text

-- x || y
abbrev or_else : Option Text → Text → Text
or_else none y = y
or_else (some x) y = if is_empty_text x then y else x

unfoldable pub paypal_base : PaypalEnv → Text
paypal_base env = or_else env.paypal_api_base (codes "https://api-m.paypal.com")

unfoldable pub client_id : PaypalEnv → Text
client_id env = or_else env.paypal_client_id (or_else env.paypal_id [])

unfoldable pub secret : PaypalEnv → Text
secret env = or_else env.paypal_secret (or_else env.paypal_client_secret [])

unfoldable pub paypal_configured : PaypalEnv → Bool
unfolding client_id secret
paypal_configured env = not (is_empty_text (client_id env)) && not (is_empty_text (secret env))

pub record CachedToken : Type 0 where
  pub token : Text
  pub expires : ℕ

-- The answer of `/v1/oauth2/token`.
pub record TokenJson : Type 0 where
  pub access_token : Text
  pub expires_in : ℕ

sextet : ℕ → ℕ
sextet d =
    if ltb d 26
    then b'A' + d
    else if ltb d 52
    then 71 + d
    else if ltb d 62
    then b'0' + (d - 52)
    else if d == 62
    then b'+'
    else b'/'

-- Buffer.from(s).toString("base64"), on ASCII.
base64 : Text → Text
unfolding sextet
base64 [] = []
base64 (x ∷ []) = sextet (x / 4) ∷ sextet (x % 4 * 16) ∷ b'=' ∷ b'=' ∷ []
base64 (x ∷ y ∷ []) =
    sextet (x / 4) ∷ sextet (x % 4 * 16 + y / 16) ∷ sextet (y % 16 * 4) ∷ b'=' ∷ []
base64 (x ∷ y ∷ z ∷ s) =
    sextet (x / 4)
    ∷ sextet (x % 4 * 16 + y / 16)
    ∷ sextet (y % 16 * 4 + z / 64)
    ∷ sextet (z % 64)
    ∷ base64 s

-- `Basic ${auth}`
unfoldable pub basic_authorization : PaypalEnv → Text
unfolding base64 client_id secret
basic_authorization env = codes "Basic " ++ base64 (client_id env ++ codes ":" ++ secret env)

-- The answer of `/v2/checkout/orders/{id}`, as far as it is read.
pub record Money : Type 0 where
  pub value : Text
  pub currency_code : Text

pub record PurchaseUnit : Type 0 where
  pub captures : Option (List Money)
  pub custom_id : Option Text
  pub amount : Option Money

pub record OrderJson : Type 0 where
  pub status : Text
  pub purchase_units : Option (List PurchaseUnit)

pub record VerifiedOrder : Type 0 where
  pub id : Text
  pub status : Text
  pub amount_usd : Amount
  pub custom_id : Option Text

-- PayPal, by URL and authorization header.
pub record Paypal : Type 0 where
  pub post_token : Text → Text → Reply TokenJson
  pub get_order : Text → Text → Reply OrderJson

-- With the token that is kept afterwards.
abbrev unless_cached :
    ℕ → Option CachedToken → Attempt Text × Option CachedToken → Attempt Text × Option CachedToken
unless_cached now none fetched = fetched
unless_cached now (some c) fetched =
    if ltb (now + 30000) c.expires then (Attempt.returned c.token, some c) else fetched

fetch_token :
    PaypalEnv → ℕ → Option CachedToken → Reply TokenJson → Attempt Text × Option CachedToken
unfolding show
fetch_token env now cached (unread e) = (thrown e, cached)
fetch_token env now cached (refused status) =
    (thrown (codes "PayPal auth failed (" ++ show status ++ codes ")"), cached)
fetch_token env now cached (answered json) = (
  returned json.access_token,
  some (record { token = json.access_token; expires = now + json.expires_in * 1000 }),
)

unfoldable pub paypal_access_token :
    PaypalEnv → Paypal → ℕ → Option CachedToken → Attempt Text × Option CachedToken
unfolding paypal_configured fetch_token basic_authorization paypal_base
paypal_access_token env paypal now cached =
    if not (paypal_configured env)
    then (
      thrown (codes "PayPal credentials not configured (PAYPAL_CLIENT_ID / PAYPAL_SECRET)."),
      cached,
    )
    else unless_cached now cached (
        fetch_token env now cached (
          paypal.post_token (paypal_base env ++ codes "/v1/oauth2/token")
            (basic_authorization env)))

-- xs?.[0]
abbrev pub first_of {ℓ} : {A : Type ℓ} → Option (List A) → Option A
first_of none = none
first_of (some []) = none
first_of (some (x ∷ xs)) = some x

-- order.purchase_units?.[0]?.payments?.captures?.[0], and where there is none the unit's amount
amount_source : Option PurchaseUnit → Option Money
amount_source none = none
amount_source (some u) = elim (first_of u.captures) [ none ↦ u.amount | some m ↦ some m ]

custom_id_of : Option PurchaseUnit → Option Text
custom_id_of none = none
custom_id_of (some u) = u.custom_id

unfoldable pub read_order : Text → OrderJson → Attempt VerifiedOrder
unfolding amount_source custom_id_of parse_float
read_order order_id order = elim (amount_source (first_of order.purchase_units)) [
  | none ↦ thrown (codes "No amount on PayPal order")
  | some m ↦
      if not (m.currency_code === codes "USD")
      then thrown (codes "Non-USD order rejected")
      else returned (record {
        id = order_id;
        status = order.status;
        amount_usd = parse_float m.value;
        custom_id = custom_id_of (first_of order.purchase_units);
      })
]

unfoldable pub order_reply : Text → Reply OrderJson → Attempt VerifiedOrder
unfolding read_order show
order_reply order_id (unread e) = thrown e
order_reply order_id (refused status) =
    thrown (codes "PayPal order fetch failed (" ++ show status ++ codes ")")
order_reply order_id (answered order) = read_order order_id order

-- What is done with the token.
unfoldable pub fetch_order : PaypalEnv → Paypal → Text → Attempt Text → Attempt VerifiedOrder
unfolding order_reply paypal_base
fetch_order env paypal order_id (thrown e) = thrown e
fetch_order env paypal order_id (returned token) = order_reply order_id (
    paypal.get_order (paypal_base env ++ codes "/v2/checkout/orders/" ++ order_id)
      (codes "Bearer " ++ token))

unfoldable pub verify_order :
    PaypalEnv → Paypal → ℕ → Text → Option CachedToken → Attempt VerifiedOrder × Option CachedToken
unfolding paypal_access_token fetch_order
verify_order env paypal now order_id cached =
    let token = paypal_access_token env paypal now cached in
    (fetch_order env paypal order_id token.0, token.1)
