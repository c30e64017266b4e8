-- ===== src/Web/Payments.antt =====
-- The two routes that fund a tournament from a PayPal order, together: the capture route and the
-- webhook, one request after the other, with the token that the server process keeps.
use avax_build_games.Prelude.{ℕ, ◌+◌, Option, none, some, List, [], ◌∷◌, if◌then◌else◌}
use avax_build_games.Web.Text.{Text, ◌===◌}
use avax_build_games.Web.Http.{Attempt}
use avax_build_games.Web.Store.{Db, JobPayload, RelayerJob, FundingIntent, find_intent}
use avax_build_games.Web.Paypal.{PaypalEnv, Paypal, CachedToken}
use avax_build_games.Web.Capture.{CaptureBody, capture}
use avax_build_games.Web.Webhook.{PaypalEvent, webhook}
pub mod Jobs
pub mod Once

-- A request, with what is read from outside while it is served: PayPal, as it answers to this request,
-- the time, the random bytes, and PayPal's verification of an event.
pub data PaymentRequest : Type 0 where
  to_capture : Paypal → ℕ → List ℕ → ℕ → CaptureBody → PaymentRequest
  to_webhook :
      Paypal
      → ℕ
      → (Text → Text → PaypalEvent → Attempt (Option Text))
      → ℕ
      → Option PaypalEvent
      → PaymentRequest

module _ (env : PaypalEnv) (webhook_id : Option Text) where
  unfoldable pub serve : PaymentRequest → Option CachedToken → Db → Db × Option CachedToken
  unfolding capture webhook
  serve (to_capture paypal now buf content_length body) cached db =
      let done = capture env paypal now buf content_length body cached db in (done.0.1, done.1)
  serve (to_webhook paypal now verify content_length event) cached db =
      let done = webhook env webhook_id paypal now verify content_length event cached db in
      (done.0.1, done.1)

  unfoldable pub serve_all : List PaymentRequest → Option CachedToken → Db → Db
  unfolding serve
  serve_all [] cached db = db
  serve_all (r ∷ rs) cached db = let next = serve r cached db in serve_all rs next.1 next.0
