-- ===== src/Web/Capture.antt =====
-- POST of web/src/app/api/paypal/capture/route.ts: a fund job for a PayPal order.
use avax_build_games.Prelude.{
  ℕ, Bool, true, false, not, ◌&&◌, ◌||◌, Option, none, some, List, [], ◌++◌, length, ltb, ◌==◌,
  is_some, if◌then◌else◌,
}
use mathlib.Core.Option.{get_or}
use avax_build_games.Web.Text.{Text, codes, ◌===◌}
use avax_build_games.Web.Http.{
  Attempt, returned, thrown, Response, json_error, text_error, json, ◌>>=◌, truthy_text,
  body_too_large,
}
use avax_build_games.Web.Decimal.{Amount}
use avax_build_games.Web.Token.{generate_manage_token}
use avax_build_games.Web.Store.{
  Db, Player, BracketFormat, Mode, instant, bracket, FundJob, JobPayload, enqueue_job,
  claim_funding_intent, update_funding_intent,
}
use avax_build_games.Web.Paypal.{VerifiedOrder, PaypalEnv, Paypal, CachedToken, verify_order}

-- `body.tournament`
pub record TournamentBody : Type 0 where
  pub payout_bps : Option (List ℕ)
  pub finalize_days : Option ℕ
  pub mode : Option Mode
  pub winner_wallets : Option (List Text)
  pub format : Option BracketFormat
  pub swiss_rounds : Option ℕ
  pub players : Option (List Player)

pub record CaptureBody : Type 0 where
  pub order_id : Option Text
  pub tournament : Option TournamentBody

-- The fields that a body must have, with the tournament.
pub record CaptureFields : Type 0 where
  pub order_id : Text
  pub payout_bps : List ℕ
  pub tournament : TournamentBody

pub data CaptureReply : Type 0 where
  replayed : Option ℕ → Option ℕ → CaptureReply
  funded : ℕ → Option Text → Amount → CaptureReply

unfoldable pub read_capture : CaptureBody → Option CaptureFields
read_capture body = do
  order_id ← truthy_text body.order_id
  t ← body.tournament
  bps ← t.payout_bps
  some (record { order_id = order_id; payout_bps = bps; tournament = t })

-- !t.winnerWallets || t.winnerWallets.length !== t.payoutBps.length
unfoldable pub winners_missing : Option (List Text) → List ℕ → Bool
winners_missing none bps = true
winners_missing (some wallets) bps = not (length wallets == length bps)

unfoldable pub is_instant : Mode → Bool
is_instant instant = true
is_instant bracket = false

-- The wallets of the job: those of the body in the mode "instant".
job_wallets : Mode → TournamentBody → List Text
job_wallets instant t = get_or t.winner_wallets []
job_wallets bracket t = []

manage_token_of : Mode → List ℕ → Option Text
unfolding generate_manage_token
manage_token_of instant buf = none
manage_token_of bracket buf = some (generate_manage_token buf)

unfoldable pub fund_job : List ℕ → CaptureFields → Mode → Amount → FundJob
unfolding job_wallets manage_token_of
fund_job buf f mode amount_usd = record {
  payout_bps = f.payout_bps;
  winner_wallets = job_wallets mode f.tournament;
  funded_avax = amount_usd;
  mode = mode;
  finalize_days = get_or f.tournament.finalize_days 7;
  format = f.tournament.format;
  swiss_rounds = f.tournament.swiss_rounds;
  players = f.tournament.players;
  paypal_order_id = f.order_id;
  manage_token = manage_token_of mode buf;
}

-- From the claim on.
unfoldable pub capture_order :
    List ℕ → CaptureFields → Mode → Amount → Db → Response CaptureReply × Db
capture_order buf f mode amount_usd db =
    let intent = claim_funding_intent f.order_id amount_usd db in
    if not intent.0.first
    then (json (replayed intent.0.job_id intent.0.tournament_id), intent.1)
    else let job = fund_job buf f mode amount_usd in
      let queued = enqueue_job (JobPayload.fund job) intent.1 in
      (
        json (funded queued.0 job.manage_token amount_usd),
        update_funding_intent f.order_id queued.0 none queued.1,
      )

unfoldable pub is_completable : Text → Bool
is_completable status = status === codes "COMPLETED" || status === codes "APPROVED"

unfoldable pub capture_verified :
    List ℕ → CaptureFields → Mode → Attempt VerifiedOrder → Db → Response CaptureReply × Db
unfolding capture_order
capture_verified buf f mode (thrown e) db = (json_error 502 "order verification failed", db)
capture_verified buf f mode (returned order) db =
    if not (is_completable order.status)
    then (text_error 400 (codes "Order not completable (" ++ order.status ++ codes ")"), db)
    else capture_order buf f mode order.amount_usd db

-- The tests between the reading of the body and the order, with the response of the first that fails.
unfoldable pub capture_refused : CaptureFields → Mode → Option (Response CaptureReply)
unfolding winners_missing is_instant
capture_refused f mode =
    if ltb 16 (length f.payout_bps)
    then some (json_error 400 "too many placements")
    else if is_instant mode && winners_missing f.tournament.winner_wallets f.payout_bps
    then some (json_error 400 "winners count != placements")
    else if not (is_instant mode)
        && (not (is_some f.tournament.format) || not (is_some f.tournament.players))
    then some (json_error 400 "bracket mode needs format + players")
    else none

module _ (env : PaypalEnv) (paypal : Paypal) (now : ℕ) (buf : List ℕ) where
  -- The body has been read; the state is the database and the cached token.
  unfoldable pub capture_fields :
      CaptureFields → Option CachedToken → Db → (Response CaptureReply × Db) × Option CachedToken
  unfolding capture_verified
  capture_fields f cached db =
      let mode = get_or f.tournament.mode instant in
      elim (capture_refused f mode) [
        | some response ↦ ((response, db), cached)
        | none ↦
            let order = verify_order env paypal now f.order_id cached in
            (capture_verified buf f mode order.0 db, order.1)
      ]

  unfoldable pub capture :
      ℕ → CaptureBody → Option CachedToken → Db → (Response CaptureReply × Db) × Option CachedToken
  unfolding capture_fields
  capture content_length body cached db =
      if body_too_large content_length
      then ((json_error 413 "payload too large", db), cached)
      else elim (read_capture body) [
        | none ↦ ((json_error 400 "Missing orderID or payoutBps", db), cached)
        | some f ↦ capture_fields f cached db
      ]
