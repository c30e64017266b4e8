-- ===== src/Examples/Payments.antt =====
-- Runs of the payment routes, and instances of their theorems.
use avax_build_games.Prelude.{◌≡◌, refl, none, some, List, [], ◌∷◌}
use avax_build_games.Web.Text.{Text, codes}
use avax_build_games.Web.Http.{body_too_large}
use avax_build_games.Web.Decimal.{parse_float, to_fixed_two}
use avax_build_games.Web.Store.{claim_funding_intent, update_funding_intent, enqueue_job}
use avax_build_games.Web.Paypal.{PaypalEnv, Paypal, answered, paypal_access_token, verify_order}
use avax_build_games.Web.Capture.{
  CaptureBody, capture, capture_refused, read_capture, is_completable, fund_job,
}
use avax_build_games.Web.Webhook.{webhook}
use avax_build_games.Web.Payments.{PaymentRequest, to_capture, serve_all}
use avax_build_games.Web.Payments.Jobs.{funded_times}
use avax_build_games.Examples.Web.{empty_db}

unfoldable pub payments : Unit {0}
unfolding serve_all capture webhook read_capture capture_refused verify_order is_completable
    fund_job paypal_access_token claim_funding_intent update_funding_intent enqueue_job
    body_too_large funded_times parse_float to_fixed_two
payments = tt

abbrev pub env : PaypalEnv
env = record {
  paypal_client_id = some (codes "id");
  paypal_id = none;
  paypal_secret = none;
  paypal_client_secret = some (codes "secret");
  paypal_api_base = none;
}

-- PayPal, once an order has the status.
abbrev paypal_with : Text → Paypal
paypal_with status = record {
  post_token =
      λ url authorization. answered (record { access_token = codes "t"; expires_in = 600 });
  get_order = λ url authorization. answered (record {
    status = status;
    purchase_units = some (
        record {
          captures = none;
          custom_id = none;
          amount = some (record { value = codes "25.50"; currency_code = codes "USD" });
        }
        ∷ []);
  });
}

abbrev pub paypal : Paypal
paypal = paypal_with (codes "APPROVED")

abbrev unpaid : Paypal
unpaid = paypal_with (codes "CREATED")

abbrev order_body : CaptureBody
order_body = record {
  order_id = some (codes "5O19");
  tournament = some (record {
    payout_bps = some (10000 ∷ []);
    finalize_days = none;
    mode = none;
    winner_wallets = some (codes "0xab" ∷ []);
    format = none;
    swiss_rounds = none;
    players = none;
  });
}

abbrev requests : List PaymentRequest
requests =
    to_capture unpaid 0 [] 200 order_body
    ∷ to_capture paypal 0 [] 200 order_body
    ∷ to_capture paypal 9 [] 200 order_body
    ∷ []

captured_once :
    funded_times (codes "5O19") (serve_all env none requests none empty_db).relayer_jobs ≡ 1
unfolding payments
captured_once = refl

parsed : parse_float (codes " 25.50") ≡ some (record { digits = 2550; scale = 2 })
unfolding payments
parsed = refl

fixed : to_fixed_two (record { digits = 25; scale = 0 }) ≡ codes "25.00"
unfolding payments
fixed = refl
