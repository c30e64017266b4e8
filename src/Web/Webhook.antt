-- ===== src/Web/Webhook.antt =====
-- POST of web/src/app/api/webhooks/paypal/route.ts. The event is what JSON.parse makes of the body,
-- `none` where it throws; the answer of PayPal's verification is an argument.
use avax_build_games.Prelude.{ℕ, Bool, false, not, ◌&&◌, Option, none, some, [], ◌∷◌, if◌then◌else◌}
use mathlib.Core.Option.{get_or}
use avax_build_games.Web.Text.{Text, codes, ◌===◌, is_empty_text}
use avax_build_games.Web.Http.{
  Attempt, returned, thrown, Response, json_error, json, truthy_text, body_too_large,
}
use avax_build_games.Web.Decimal.{Amount, parse_float, is_positive}
use avax_build_games.Web.Store.{Db, instant, FundJob, JobPayload, enqueue_job, claim_funding_intent}
use avax_build_games.Web.Paypal.{
  PaypalEnv, Paypal, CachedToken, paypal_configured, paypal_access_token,
}

-- The fields of an event that are read: `related_order_id` is
-- resource.supplementary_data.related_ids.order_id, `amount` is resource.amount.value.
pub record PaypalEvent : Type 0 where
  pub event_type : Text
  pub related_order_id : Option Text
  pub resource_id : Option Text
  pub amount : Option Text

-- x ?? y ?? ""
unfoldable pub order_id_of : PaypalEvent → Text
order_id_of event = get_or event.related_order_id (get_or event.resource_id [])

unfoldable pub fallback_job : Text → Amount → FundJob
fallback_job order_id amount = record {
  payout_bps = 10000 ∷ [];
  winner_wallets = [];
  funded_avax = amount;
  mode = instant;
  finalize_days = 7;
  format = none;
  swiss_rounds = none;
  players = none;
  paypal_order_id = order_id;
  manage_token = none;
}

unfoldable pub fulfil_order : Text → Amount → Db → Db
fulfil_order order_id amount db =
    let intent = claim_funding_intent order_id amount db in
    if intent.0.first
    then (enqueue_job (JobPayload.fund (fallback_job order_id amount)) intent.1).1
    else intent.1

-- Once the event is verified.
unfoldable pub fulfil : PaypalEvent → Db → Db
unfolding fulfil_order
fulfil event db =
    let amount = parse_float (get_or event.amount (codes "0")) in
    if not (event.event_type === codes "PAYMENT.CAPTURE.COMPLETED")
    then db
    else if not (is_empty_text (order_id_of event)) && is_positive amount
    then fulfil_order (order_id_of event) amount db
    else db

-- verification_status is "SUCCESS". The status of the answer is not looked at.
unfoldable pub is_verified : Attempt (Option Text) → Bool
is_verified (thrown e) = false
is_verified (returned none) = false
is_verified (returned (some status)) = status === codes "SUCCESS"

unfoldable pub verify_event : (Text → Attempt (Option Text)) → Attempt Text → Attempt (Option Text)
verify_event verify (thrown e) = thrown e
verify_event verify (returned token) = verify token

module _ (env : PaypalEnv) (webhook_id : Option Text) (paypal : Paypal) (now : ℕ)
    (verify : Text → Text → PaypalEvent → Attempt (Option Text)) where
  -- `verify` is the call of verify-webhook-signature, by token, webhook id and event.
  unfoldable pub webhook_event :
      Text → PaypalEvent → Option CachedToken → Db → Db × Option CachedToken
  unfolding verify_event fulfil
  webhook_event hook event cached db =
      let token = paypal_access_token env paypal now cached in
      if is_verified (verify_event (λ t. verify t hook event) token.0)
      then (fulfil event db, token.1)
      else (db, token.1)

  -- The response is "ok" with status 200, save where the body is too large.
  unfoldable pub webhook :
      ℕ → Option PaypalEvent → Option CachedToken → Db → (Response Text × Db) × Option CachedToken
  unfolding webhook_event
  webhook content_length event cached db =
      if body_too_large content_length
      then ((json_error 413 "payload too large", db), cached)
      else if not (paypal_configured env)
      then ((json (codes "ok"), db), cached)
      else elim (truthy_text webhook_id) [
        | none ↦ ((json (codes "ok"), db), cached)
        | some hook ↦ elim event [
          | none ↦ ((json (codes "ok"), db), cached)
          | some ev ↦
              let done = webhook_event hook ev cached db in ((json (codes "ok"), done.0), done.1)
        ]
      ]
