-- ===== src/Pages/Setup/Paid.antt =====
-- The launch in USD from the setup page, and the capture route that takes it.
use mathlib.Core.Option.{get_or}
use avax_build_games.Prelude.{
  ℕ, ◌≡◌, refl, ap, ◌∙◌, Bool, true, false, not, Option, none, some, List, Bool-cases, inl, inr,
  if◌then◌else◌, ◌++◌,
}
use avax_build_games.Web.Text.{Text, codes, is_empty_text}
use avax_build_games.Web.Http.{Attempt, returned, Response, accepted, body_too_large}
use avax_build_games.Web.Decimal.{Amount}
use avax_build_games.Web.Store.{Db, Mode, instant, bracket, claim_funding_intent}
use avax_build_games.Web.Paypal.{VerifiedOrder, PaypalEnv, Paypal, CachedToken, verify_order}
use avax_build_games.Web.Capture.{
  CaptureFields, CaptureReply, read_capture, winners_missing, is_instant, capture_refused,
  is_completable, capture_order, capture_verified, capture_fields, capture,
}
use avax_build_games.Client.Cup.{CupEnv, payout_presets}
use avax_build_games.Pages.Setup.{players_of, can_proceed_winners}
use avax_build_games.Pages.Setup.Steps.{
  SetupPage, SetupEvent, setup_after, can_fund, winner_addresses,
}
use avax_build_games.Pages.Setup.Steps.Ready.{is_fund, setup_after-can_fund}
use avax_build_games.Pages.Setup.Launch.{tournament_body, setup_capture}
use avax_build_games.Pages.Setup.Registered.{few-payout_presets}

module _ (is_address : Text → Bool) (order_id : Text) (st : SetupPage) where
  -- What the route reads of the body.
  abbrev paid_fields : Mode → CaptureFields
  paid_fields m = record {
    order_id = order_id;
    payout_bps = payout_presets st.preset;
    tournament = tournament_body is_address m st;
  }

  tournament_body-payout_bps :
      (m : Mode) → (tournament_body is_address m st).payout_bps ≡ some (payout_presets st.preset)
  unfolding tournament_body
  tournament_body-payout_bps bracket = refl
  tournament_body-payout_bps instant = refl

  tournament_body-mode : (m : Mode) → (tournament_body is_address m st).mode ≡ some m
  unfolding tournament_body
  tournament_body-mode bracket = refl
  tournament_body-mode instant = refl

  read_capture-setup_capture :
      is_empty_text order_id ≡ false
      → read_capture (setup_capture is_address order_id st) ≡ some (paid_fields st.mode)
  unfolding read_capture setup_capture
  read_capture-setup_capture h = rw (h, tournament_body-payout_bps st.mode) refl

  capture_refused-paid_fields :
      (m : Mode)
      → can_proceed_winners m
          (players_of st.players_text)
          (winner_addresses is_address st)
          (payout_presets st.preset)
        ≡ true
      → capture_refused (paid_fields m) m ≡ none
  unfolding capture_refused tournament_body winners_missing is_instant can_proceed_winners
  capture_refused-paid_fields bracket h = rw (few-payout_presets st.preset) refl
  capture_refused-paid_fields instant h = rw (few-payout_presets st.preset, h) refl

capture_order-accepted :
    (buf : List ℕ) (f : CaptureFields) (m : Mode) (amount : Amount) (db : Db)
    → accepted (capture_order buf f m amount db).0 ≡ true
unfolding capture_order
capture_order-accepted buf f m amount db =
    elim (Bool-cases (claim_funding_intent f.order_id amount db).0.first) [
      | inl e ↦ rw e refl
      | inr e ↦ rw e refl
    ]

capture_verified-accepted :
    (buf : List ℕ) (f : CaptureFields) (m : Mode) (found : Attempt VerifiedOrder)
    (order : VerifiedOrder) (db : Db)
    → found ≡ returned order
    → is_completable order.status ≡ true
    → accepted (capture_verified buf f m found db).0 ≡ true
unfolding capture_verified
capture_verified-accepted buf f m found order db e completable =
    ap (λ o. accepted (capture_verified buf f m o db).0) e
    ∙ ap
        (λ c.
          accepted
            (if not c
              then (
                Response.text_error 400
                    (codes "Order not completable (" ++ order.status ++ codes ")"),
                db,
              )
              else capture_order buf f m order.amount_usd db).0)
        completable
    ∙ capture_order-accepted buf f m order.amount_usd db

module _ (env : PaypalEnv) (paypal : Paypal) (now : ℕ) (buf : List ℕ) where
  capture_fields-accepted :
      (f : CaptureFields) (m : Mode) (order : VerifiedOrder) (cached : Option CachedToken) (db : Db)
      → f.tournament.mode ≡ some m
      → capture_refused f m ≡ none
      → (verify_order env paypal now f.order_id cached).0 ≡ returned order
      → is_completable order.status ≡ true
      → accepted (capture_fields env paypal now buf f cached db).0.0 ≡ true
  unfolding capture_fields
  capture_fields-accepted f m order cached db e fine found completable =
      ap (λ o. accepted (capture_as (get_or o instant)).0.0) e
      ∙ ap (λ o. accepted (answer_as m o).0.0) fine
      ∙ capture_verified-accepted buf f m (verify_order env paypal now f.order_id cached).0 order db
          found completable
    where
      answer_as :
          Mode → Option (Response CaptureReply) → (Response CaptureReply × Db) × Option CachedToken
      answer_as k o = elim o [
        | some response ↦ ((response, db), cached)
        | none ↦
            let order = verify_order env paypal now f.order_id cached in
            (capture_verified buf f k order.0 db, order.1)
      ]

      capture_as : Mode → (Response CaptureReply × Db) × Option CachedToken
      capture_as k = answer_as k (capture_refused f k)

  -- Whatever has happened on the setup page: the body that it sends from the step "Fund" for an order
  -- with an id is answered with status 200 by the capture route, when it is not too large and PayPal
  -- confirms the order as completed or approved.
  pub setup_capture-accepted :
      (cup : CupEnv) (is_address : Text → Bool) (es : List SetupEvent) (order_id : Text)
      (order : VerifiedOrder) (content_length : ℕ) (cached : Option CachedToken) (db : Db)
      → is_fund (setup_after cup is_address es).step ≡ true
      → is_empty_text order_id ≡ false
      → body_too_large content_length ≡ false
      → (verify_order env paypal now order_id cached).0 ≡ returned order
      → is_completable order.status ≡ true
      → let body = setup_capture is_address order_id (setup_after cup is_address es) in
        accepted (capture env paypal now buf content_length body cached db).0.0 ≡ true
  unfolding capture can_fund
  setup_capture-accepted cup is_address es order_id order content_length cached db at h small found
        completable =
      let st = setup_after cup is_address es in
      rw (small, read_capture-setup_capture is_address order_id st h, capture)
        (capture_fields-accepted (paid_fields is_address order_id st st.mode) st.mode order cached
          db (tournament_body-mode is_address order_id st st.mode)
          (capture_refused-paid_fields is_address order_id st st.mode
            (setup_after-can_fund cup is_address es at))
          found completable)
