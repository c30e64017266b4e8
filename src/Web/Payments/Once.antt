-- ===== src/Web/Payments/Once.antt =====
-- One PayPal order is one fund job.
use avax_build_games.Prelude.{ℕ, ◌≡◌, refl, false, Option, Bool-cases, Option-cases, inl, inr}
use avax_build_games.Web.Text.{Text, codes}
use avax_build_games.Web.Http.{Response, Attempt, body_too_large, truthy_text}
use avax_build_games.Web.Store.{Db}
use avax_build_games.Web.Paypal.{PaypalEnv, Paypal, CachedToken, paypal_configured}
use avax_build_games.Web.Webhook.{PaypalEvent, webhook}

module _ (env : PaypalEnv) (webhook_id : Option Text) (paypal : Paypal) where
  -- Unless the body is larger than 64 KB, the webhook answers "ok" with status 200 whatever happens.
  pub webhook_ok :
      (now : ℕ) (verify : Text → Text → PaypalEvent → Attempt (Option Text)) (content_length : ℕ)
      (event : Option PaypalEvent) (cached : Option CachedToken) (db : Db)
      → body_too_large content_length ≡ false
      → (webhook env webhook_id paypal now verify content_length event cached db).0.0
        ≡ Response.json (codes "ok")
  unfolding webhook
  webhook_ok now verify content_length event cached db small =
      elim (Bool-cases (paypal_configured env)) [
        | inr e' ↦ rw (small, e') refl
        | inl e' ↦ elim (Option-cases (truthy_text webhook_id)) [
          | inl e'' ↦ rw (small, e', e'') refl
          | inr (hook, e'') ↦ elim (Option-cases event) [
            | inl none_ ↦ rw (small, e', e'', none_) refl
            | inr (ev, some_) ↦ rw (small, e', e'', some_) refl
          ]
        ]
      ]
