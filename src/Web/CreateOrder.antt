-- ===== src/Web/CreateOrder.antt =====
-- POST of web/src/app/api/paypal/create-order/route.ts. PayPal's answer to the order is an argument.
use avax_build_games.Prelude.{ℕ, not, ◌||◌, Option, none, some, ◌++◌, if◌then◌else◌}
use mathlib.Core.Option.{get_or}
use avax_build_games.Web.Text.{Text, codes, show}
use avax_build_games.Web.Http.{
  Attempt, returned, thrown, Response, json_error, text_error, json, truthy_text, body_too_large,
}
use avax_build_games.Web.Decimal.{Decimal, Amount, below, above, to_fixed_two}
use avax_build_games.Web.Paypal.{
  Reply, unread, refused, answered, PaypalEnv, Paypal, CachedToken, paypal_configured,
  paypal_access_token, paypal_base,
}

-- `amount_usd` is Number(body.amountUsd), `none` if that is not finite or negative.
pub record OrderBody : Type 0 where
  pub amount_usd : Amount
  pub tournament_name : Option Text

-- The order that is sent to PayPal, with intent "CAPTURE" and currency "USD".
pub record OrderRequest : Type 0 where
  pub url : Text
  pub authorization : Text
  pub value : Text
  pub description : Text
  pub custom_id : Text

unfoldable pub order_request : PaypalEnv → ℕ → OrderBody → Decimal → Text → OrderRequest
unfolding paypal_base to_fixed_two show
order_request env now body amount token = record {
  url = paypal_base env ++ codes "/v2/checkout/orders";
  authorization = codes "Bearer " ++ token;
  value = to_fixed_two amount;
  description =
      codes "AMP Tournament — "
      ++ get_or (truthy_text body.tournament_name) (codes "Community Cup");
  custom_id = codes "amp-cup-" ++ show now;
}

-- The answer is the id of the order.
unfoldable pub created : Reply Text → Response Text
unfolding show
created (unread e) = text_error 500 e
created (refused status) =
    text_error 502 (codes "PayPal create failed (" ++ show status ++ codes ")")
created (answered id) = json id

send_order : (Text → Reply Text) → Attempt Text → Response Text
unfolding created
send_order send (thrown e) = text_error 500 e
send_order send (returned token) = created (send token)

module _ (env : PaypalEnv) (paypal : Paypal) (now : ℕ)
    (post_order : OrderRequest → Reply Text) where
  unfoldable pub create_amount :
      OrderBody → Amount → Option CachedToken → Response Text × Option CachedToken
  unfolding paypal_access_token order_request send_order
  create_amount body none cached = (json_error 400 "amountUsd must be between 1 and 10000", cached)
  create_amount body (some amount) cached =
      if below amount 1 || above amount 10000
      then (json_error 400 "amountUsd must be between 1 and 10000", cached)
      else let token = paypal_access_token env paypal now cached in
        (send_order (λ t. post_order (order_request env now body amount t)) token.0, token.1)

  unfoldable pub create_order :
      ℕ → OrderBody → Option CachedToken → Response Text × Option CachedToken
  unfolding body_too_large paypal_configured create_amount
  create_order content_length body cached =
      if body_too_large content_length
      then (json_error 413 "payload too large", cached)
      else if not (paypal_configured env)
      then (json_error 503 "PayPal not configured. Set PAYPAL_CLIENT_ID / PAYPAL_SECRET.", cached)
      else create_amount body body.amount_usd cached
