-- ===== src/Pages/Setup/Steps.antt =====
-- web/src/app/setup/page.tsx: the state of the page, its three steps and their controls. The text of the
-- work that goes on is only shown; it is no part of the state. The end of a launch is an event of its
-- own, since the controls work while it waits.
pub mod Ready
use avax_build_games.Prelude.{
  ℕ, suc, ◌||◌, Bool, not, Option, none, some, List, [], ◌∷◌, ◌++◌, insert, if◌then◌else◌,
}
use avax_build_games.Web.Text.{Text, codes, is_empty_text}
use avax_build_games.Web.Http.{Attempt, returned, thrown, truthy_text}
use avax_build_games.Web.Store.{Mode, instant, bracket}
use avax_build_games.Client.Cup.{CupEnv, Preset, top3, payout_presets, cup_address, explorer_url}
use avax_build_games.Client.Wallet.{parse_address_list}
use avax_build_games.Pages.Setup.{players_of, can_proceed_winners}

pub data SetupStep : Type 0 where
  prize winners fund : SetupStep

pub data Currency : Type 0 where
  usd avax : Currency

pub record WinnerWallet : Type 0 where
  pub placement : ℕ
  pub address : Text

-- `Result`: what is shown once a launch has ended.
pub data LaunchResult : Type 0 where
  live : ℕ → Option Text → List WinnerWallet → Text → LaunchResult
  launch_failed : Text → LaunchResult

-- `kept` is sessionStorage, by the id of the tournament, and `route` the organizer page that the
-- router has gone to.
pub record SetupPage : Type 0 where
  pub step : SetupStep
  pub name : Text
  pub preset : Preset
  pub currency : Currency
  pub amount : Text
  pub address_text : Text
  pub result : Option LaunchResult
  pub mode : Mode
  pub players_text : Text
  pub kept : List (ℕ × Text)
  pub route : Option ℕ

unfoldable pub setup_opened : SetupPage
setup_opened = record {
  step = prize;
  name = codes "Community Cup";
  preset = top3;
  currency = usd;
  amount = codes "50";
  address_text = [];
  result = none;
  mode = instant;
  players_text =
      codes "Alice, 0xaaaa…"
      ++ (10 ∷ codes "Bob, 0xbbbb…")
      ++ (10 ∷ codes "Carlos, 0xcccc…")
      ++ 10 ∷ codes "Dana, 0xdddd…";
  kept = [];
  route = none;
}

-- What a launch comes to: the winners are paid, with the hash of the transaction, or the organizer's
-- page takes over, with the token of the answer.
pub data Launched : Type 0 where
  paid : ℕ → Option Text → List Text → Launched
  to_manage : ℕ → Option Text → Launched

-- winnerWallets.map((address, i) => ({ placement: i, address })), from the placement `i`
unfoldable pub placed_winners : ℕ → List Text → List WinnerWallet
placed_winners i [] = []
placed_winners i (address ∷ addresses) =
    record { placement = i; address = address } ∷ placed_winners (suc i) addresses

-- if (manageToken) sessionStorage.setItem(...)
unfoldable pub keep_token : ℕ → Option Text → List (ℕ × Text) → List (ℕ × Text)
keep_token tid none kept = kept
keep_token tid (some token) kept = insert tid token kept

-- The end of `launchAvax` and of `capturePaypal`, the branch `catch` included.
unfoldable pub launch_ended : CupEnv → Attempt Launched → SetupPage → SetupPage
unfolding placed_winners keep_token cup_address explorer_url
launch_ended env (thrown e) st = record st { result = some (launch_failed e) }
launch_ended env (returned (paid tid hash addresses)) st = record st {
  result = some (
      live tid hash (placed_winners 0 addresses)
        (explorer_url env ++ codes "/address/" ++ cup_address env));
}
launch_ended env (returned (to_manage tid token)) st = record st {
  kept = keep_token tid (truthy_text token) st.kept;
  route = some tid;
}

pub data SetupEvent : Type 0 where
  name_typed amount_typed addresses_typed players_typed : Text → SetupEvent
  mode_chosen : Mode → SetupEvent
  currency_chosen : Currency → SetupEvent
  preset_chosen : Preset → SetupEvent
  next back back_to_setup run_another : SetupEvent
  launch_done : Attempt Launched → SetupEvent

-- `winnerWallets`, by ethers.isAddress
unfoldable pub winner_addresses : (Text → Bool) → SetupPage → List Text
winner_addresses is_address st = parse_address_list is_address st.address_text

-- `canProceedWinners`
unfoldable pub can_fund : (Text → Bool) → SetupPage → Bool
unfolding winner_addresses
can_fund is_address st =
    can_proceed_winners st.mode (players_of st.players_text) (winner_addresses is_address st)
      (payout_presets st.preset)

-- The two fields of the step "Winners", of which the mode has one.
abbrev pub type_players : Mode → Text → SetupPage → SetupPage
type_players bracket t st = record st { players_text = t }
type_players instant t st = st

abbrev pub type_addresses : Mode → Text → SetupPage → SetupPage
type_addresses bracket t st = st
type_addresses instant t st = record st { address_text = t }

module _ (env : CupEnv) (is_address : Text → Bool) where
  -- The controls of the step "Prize".
  unfoldable pub prize_event : SetupEvent → SetupPage → SetupPage
  prize_event (name_typed t) st = record st { name = t }
  prize_event (amount_typed t) st = record st { amount = t }
  prize_event (mode_chosen m) st = record st { mode = m }
  prize_event (currency_chosen c) st = record st { currency = c }
  prize_event (preset_chosen p) st = record st { preset = p }
  prize_event next st =
      if is_empty_text st.name || is_empty_text st.amount then st else record st { step = winners }
  prize_event e st = st

  -- The controls of the step "Winners"; the text depends on the mode.
  unfoldable pub winners_event : SetupEvent → SetupPage → SetupPage
  unfolding can_fund
  winners_event (players_typed t) st = type_players st.mode t st
  winners_event (addresses_typed t) st = type_addresses st.mode t st
  winners_event next st = if not (can_fund is_address st) then st else record st { step = fund }
  winners_event back st = record st { step = prize }
  winners_event e st = st

  unfoldable pub fund_event : SetupEvent → SetupPage → SetupPage
  fund_event back st = record st { step = winners }
  fund_event e st = st

  -- The controls below a result.
  unfoldable pub result_event : LaunchResult → SetupEvent → SetupPage → SetupPage
  result_event (live tid hash wallets url) run_another st = record st {
    result = none;
    step = prize;
  }
  result_event (launch_failed e) back_to_setup st = record st { result = none }
  result_event r e st = st

  unfoldable pub step_event : SetupStep → SetupEvent → SetupPage → SetupPage
  unfolding prize_event winners_event fund_event
  step_event prize e st = prize_event e st
  step_event winners e st = winners_event e st
  step_event fund e st = fund_event e st

  -- The controls that the page shows.
  unfoldable pub control_event : SetupEvent → SetupPage → SetupPage
  unfolding step_event result_event
  control_event e st = elim st.result [
    | none ↦ step_event st.step e st
    | some r ↦ result_event r e st
  ]

  unfoldable pub setup_event : SetupEvent → SetupPage → SetupPage
  unfolding control_event launch_ended
  setup_event (launch_done l) st = launch_ended env l st
  setup_event e st = control_event e st

  -- The page after some events, the last of them first.
  unfoldable pub setup_after : List SetupEvent → SetupPage
  unfolding setup_event setup_opened
  setup_after [] = setup_opened
  setup_after (e ∷ es) = setup_event e (setup_after es)
