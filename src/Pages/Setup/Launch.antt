-- ===== src/Pages/Setup/Launch.antt =====
-- web/src/app/setup/page.tsx: how a tournament is launched, in AVAX by the wallet of the browser or in
-- USD by PayPal. ethers, the contract and the answers of the routes are arguments.
use avax_build_games.Prelude.{
  ℕ, ◌+◌, ◌-◌, ◌*◌, ◌/◌, Bool, not, Option, none, some, List, if◌then◌else◌,
}
use mathlib.Core.Option.{get_or}
use avax_build_games.Web.Text.{Text, codes, show}
use avax_build_games.Web.Http.{Attempt, returned, thrown, truthy_text}
use avax_build_games.Web.Attempt.{◌>>=◌}
use avax_build_games.Web.Store.{Mode, instant, bracket, BracketFormat}
use avax_build_games.Web.Init.{InitBody}
use avax_build_games.Web.Capture.{TournamentBody, CaptureBody}
use avax_build_games.Client.Cup.{
  CupEnv, Injected, TypedData, connect_wallet, sign_finalize, payout_presets,
}
use avax_build_games.Pages.Setup.{players_of, FundReply, poll_job}
use avax_build_games.Pages.Setup.Steps.{
  SetupPage, Launched, paid, to_manage, winner_addresses, launch_ended,
}

-- cup.createTournament(...)
pub record CreateCall : Type 0 where
  pub payout_bps : List ℕ
  pub verifier : Text
  pub deadline : ℕ
  pub value : ℕ
  pub gas_limit : ℕ

-- cup.finalizeTournament(...)
pub record FinalizeCall : Type 0 where
  pub tournament_id : ℕ
  pub winners : List Text
  pub signature : Text
  pub gas_limit : ℕ

-- What the launch asks of ethers, of the contract and of the init route. The two transactions give the
-- hash of their receipt; the contract counts a tournament before the receipt, so that the next id is
-- not 0.
pub record CupChain : Type 0 where
  pub signer_address : Attempt Text
  pub parse_ether : Text → Attempt ℕ
  pub create_tournament : CreateCall → Attempt (Option Text)
  pub next_tournament_id : Attempt ℕ
  pub get_address : Text → Attempt Text
  pub sign : TypedData → Attempt Text
  pub finalize_tournament : FinalizeCall → Attempt (Option Text)
  -- `manageToken` of the answer
  pub fetch_init : ℕ → InitBody → Attempt (Option Text)

-- Math.floor(Date.now() / 1000) + 7 * 86400
unfoldable pub create_call : ℕ → SetupPage → Text → ℕ → CreateCall
create_call now st sponsor value = record {
  payout_bps = payout_presets st.preset;
  verifier = sponsor;
  deadline = now / 1000 + 7 * 86400;
  value = value;
  gas_limit = 500000;
}

-- The body for the init route.
unfoldable pub launch_body : SetupPage → Text → ℕ → Option Text → InitBody
unfolding show
launch_body st sponsor value hash = record {
  sponsor = some sponsor;
  prize_pool_wei = some (show value);
  payout_bps = some (payout_presets st.preset);
  format = some BracketFormat.single_elimination;
  swiss_rounds = none;
  players = some (players_of st.players_text);
  tx_hash = hash;
}

-- The fields of the answer that the page reads.
pub record CaptureAnswer : Type 0 where
  pub is_ok : Bool
  pub error : Option Text
  pub job_id : Option ℕ
  pub manage_token : Option Text

captured_ok : CaptureAnswer → Attempt CaptureAnswer
captured_ok json =
    if not json.is_ok
    then thrown (get_or (truthy_text json.error) (codes "Capture failed"))
    else returned json

funded_in_time : Option ℕ → Attempt ℕ
funded_in_time none = thrown (codes "Relayer did not complete funding in time.")
funded_in_time (some tid) = returned tid

-- The answer of the create-order route, and `createOrder`, which gives it to the buttons of PayPal.
pub record OrderAnswer : Type 0 where
  pub id : Option Text
  pub error : Option Text

unfoldable pub created_order_id : OrderAnswer → Attempt Text
created_order_id answer = elim (truthy_text answer.id) [
  | none ↦ thrown (get_or (truthy_text answer.error) (codes "create-order failed"))
  | some id ↦ returned id
]

module _ (is_address : Text → Bool) where
  -- `tournamentBody`; the route does not read its name.
  unfoldable pub tournament_body : Mode → SetupPage → TournamentBody
  unfolding winner_addresses
  tournament_body bracket st = record {
    payout_bps = some (payout_presets st.preset);
    finalize_days = some 7;
    mode = some bracket;
    winner_wallets = none;
    format = some BracketFormat.single_elimination;
    swiss_rounds = none;
    players = some (players_of st.players_text);
  }
  tournament_body instant st = record {
    payout_bps = some (payout_presets st.preset);
    finalize_days = some 7;
    mode = some instant;
    winner_wallets = some (winner_addresses is_address st);
    format = none;
    swiss_rounds = none;
    players = none;
  }

  unfoldable pub setup_capture : Text → SetupPage → CaptureBody
  unfolding tournament_body
  setup_capture order_id st = record {
    order_id = some order_id;
    tournament = some (tournament_body st.mode st);
  }

  captured_as : Mode → SetupPage → CaptureAnswer → ℕ → Launched
  unfolding winner_addresses
  captured_as bracket st json tid = to_manage tid json.manage_token
  captured_as instant st json tid = paid tid none (winner_addresses is_address st)

module _ (env : CupEnv) (is_address : Text → Bool) (chain : CupChain) where
  -- Once the prize pool is funded.
  unfoldable pub launch_bracket : SetupPage → Text → ℕ → Option Text → ℕ → Attempt Launched
  unfolding launch_body
  launch_bracket st sponsor value hash tid = do
    token ← chain.fetch_init tid (launch_body st sponsor value hash)
    returned (to_manage tid token)

  unfoldable pub launch_instant : SetupPage → ℕ → Attempt Launched
  unfolding sign_finalize winner_addresses
  launch_instant st tid = do
    signature ← sign_finalize env chain.get_address chain.sign tid (winner_addresses is_address st)
    hash ← chain.finalize_tournament (record {
      tournament_id = tid;
      winners = winner_addresses is_address st;
      signature = signature;
      gas_limit = 400000;
    })
    returned (paid tid hash (winner_addresses is_address st))

  unfoldable pub launch_funded : Mode → SetupPage → Text → ℕ → Option Text → ℕ → Attempt Launched
  unfolding launch_bracket launch_instant
  launch_funded bracket st sponsor value hash tid = launch_bracket st sponsor value hash tid
  launch_funded instant st sponsor value hash tid = launch_instant st tid

  -- The body of `try` in `launchAvax`, at the time `now` in milliseconds.
  unfoldable pub try_launch : Option Injected → ℕ → SetupPage → Attempt Launched
  unfolding create_call launch_funded
  try_launch w now st = do
    provider ← connect_wallet env w
    sponsor ← chain.signer_address
    value ← chain.parse_ether st.amount
    hash ← chain.create_tournament (create_call now st sponsor value)
    next_id ← chain.next_tournament_id
    launch_funded st.mode st sponsor value hash (next_id - 1)

  unfoldable pub launch_avax : Option Injected → ℕ → SetupPage → SetupPage
  unfolding try_launch launch_ended
  launch_avax w now st = launch_ended env (try_launch w now st) st

module _ (env : CupEnv) (is_address : Text → Bool) where
  -- The body of `try` in `capturePaypal`.
  unfoldable pub try_capture :
      (CaptureBody → Attempt CaptureAnswer)
      → (ℕ → Attempt FundReply)
      → Text
      → SetupPage
      → Attempt Launched
  unfolding setup_capture captured_ok poll_job funded_in_time captured_as
  try_capture fetch replies order_id st = do
    answer ← fetch (setup_capture is_address order_id st)
    json ← captured_ok answer
    found ← poll_job json.job_id replies
    tid ← funded_in_time found
    returned (captured_as is_address st.mode st json tid)

  unfoldable pub capture_paypal :
      (CaptureBody → Attempt CaptureAnswer) → (ℕ → Attempt FundReply) → Text → SetupPage → SetupPage
  unfolding try_capture launch_ended
  capture_paypal fetch replies order_id st =
      launch_ended env (try_capture fetch replies order_id st) st
