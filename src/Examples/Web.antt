-- ===== src/Examples/Web.antt =====
-- Runs of the store, the authorization and the functions on texts, and instances of their theorems.
use avax_build_games.Prelude.{
  List, ℕ, ◌≡◌, refl, sym, subst, true, Option, none, some, [], ◌∷◌, arith, ◌↔◌,
}
use mathlib.Core.Option.{some-injective}
use avax_build_games.Web.Decimal.{Amount}
use avax_build_games.Web.Text.{Text, codes, show}
use avax_build_games.Web.Store.Ledger.{Call, save_bracket_call, enqueue_job_call, perform_all}
use avax_build_games.Web.Store.{JobPayload}
use avax_build_games.Web.Store.{
  Db, Nonce, TournamentRecord, get_tournament, open_state, BracketState, BracketFormat, ReportSide,
}
use avax_build_games.Web.Report.{report, read_report, Report, ReportStatus, ReportRequest}
use avax_build_games.Web.Report.Accepted.{Reported, report-Reported}
use avax_build_games.Web.Report.Nonces.{IsRefused, report_once}
use avax_build_games.Web.Http.{accepted, Response}
use avax_build_games.Examples.Engine.{engine}
use avax_build_games.Web.Auth.{bearer_token, require_organizer}
use avax_build_games.Web.Auth.Compare.{CodeUnits}
use avax_build_games.Web.Auth.Organizer.{IsOrganizer, require_organizer_iff}

show_run : show 4090 ≡ codes "4090"
unfolding show
show_run = refl

abbrev pub empty_db : Db
empty_db = record {
  tournaments = [];
  brackets = [];
  relayer_jobs = [];
  report_nonces = [];
  funding_intents = [];
}

abbrev pub usd_25 : Amount
usd_25 = some (record { digits = 2500; scale = 2 })

abbrev nonce : ℕ → Nonce
nonce n = record { wallet = codes "0xab"; tid = 7; match_id = n; nonce = codes "n1" }

-- A manage token, and the header that has it.
abbrev pub token : Text
token = codes "0123456789abcdef"

abbrev pub header : Option Text
header = some (codes "Bearer  0123456789abcdef ")

token-CodeUnits : CodeUnits token
token-CodeUnits = ground arith

header-token : bearer_token header ≡ token
unfolding bearer_token
header-token = refl

abbrev pub organized : TournamentRecord
organized = record {
  tournament_id = 7;
  sponsor = codes "0xab";
  prize_pool_wei = codes "1000";
  token = codes "0x0";
  payout_bps = 10000 ∷ [];
  winner_wallets = [];
  state = open_state;
  mode = none;
  manage_token = some token;
  organizer_wallet = none;
  paypal_order_id = none;
  tx_hash = none;
  created_at = 0;
}

abbrev pub organized_db : Db
organized_db = record empty_db { tournaments = (7, organized) ∷ [] }

header-CodeUnits : CodeUnits (bearer_token header)
header-CodeUnits = subst CodeUnits (sym header-token) token-CodeUnits

organized-CodeUnits :
    (r : TournamentRecord) (b : Text)
    → get_tournament 7 organized_db ≡ some r
    → r.manage_token ≡ some b
    → CodeUnits b
unfolding get_tournament
organized-CodeUnits r b e h =
    let same = some-injective organized r e in
    let found : some token ≡ some b =
      subst (λ (k : TournamentRecord). k.manage_token ≡ some b) (sym same) h in
    subst CodeUnits (some-injective token b found) token-CodeUnits

require_organizer_iff_example :
    (require_organizer header 7 organized_db ≡ some organized)
    ↔ IsOrganizer header 7 organized_db organized
require_organizer_iff_example =
    require_organizer_iff header 7 organized_db organized header-CodeUnits organized-CodeUnits

-- Two players in a bracket, and the report of the first on match 1.
abbrev pub two_players : BracketState
two_players = record {
  format = BracketFormat.single_elimination;
  swiss_rounds = none;
  players =
      record { id = 1; wallet = codes "0xAb"; name = codes "ann"; seed = 1 }
      ∷ record { id = 2; wallet = codes "0xCd"; name = codes "bob"; seed = 2 }
      ∷ [];
  results = [];
  finalized = none;
  computed_winners = none;
  reports = none;
  disputes = none;
}

abbrev bracket_db : Db
bracket_db = record organized_db { brackets = (7, two_players) ∷ [] }

abbrev signed_by : Text → Text → Text → Option Text
signed_by wallet message sig = some wallet

abbrev ann_report : ReportRequest
ann_report = record {
  content_length = 200;
  tid = some 7;
  body = record {
    wallet = some (codes "0xAB");
    match_id = some 1;
    outcome = some (codes "A");
    nonce = some (codes "n1");
    ts = some 1000;
    sig = some (codes "0x01");
  };
}

ann_report-accepted :
    accepted (report 1030 (signed_by (codes "0xab")) ann_report bracket_db).0 ≡ true
unfolding report engine
ann_report-accepted = refl

-- What other requests ask of the store meanwhile.
abbrev later_calls : List Call
later_calls = save_bracket_call 7 two_players ∷ enqueue_job_call (JobPayload.finalize 7) ∷ []

report_once_example :
    let after =
      perform_all later_calls (report 1030 (signed_by (codes "0xab")) ann_report bracket_db).1 in
    IsRefused (report 1031 (signed_by (codes "0xab")) ann_report after) after
report_once_example =
    report_once 1030 1031 (signed_by (codes "0xab")) (signed_by (codes "0xab")) ann_report
      later_calls bracket_db ann_report-accepted

-- The second report on the match, which agrees with the first.
abbrev half_reported : Db
half_reported = record organized_db {
  brackets =
      (
        7,
        record two_players {
          reports = some (
              record {
                match_id = 1;
                side = ReportSide.a;
                wallet = codes "0xAB";
                outcome = codes "A";
              }
              ∷ []);
        },
      )
      ∷ [];
}

abbrev bob : Report
bob = record {
  wallet = codes "0xcd";
  match_id = 1;
  outcome = codes "A";
  nonce = codes "n2";
  ts = 1000;
  sig = codes "0x02";
}

abbrev bob_report : ReportRequest
bob_report = record {
  content_length = 200;
  tid = some 7;
  body = record {
    wallet = some bob.wallet;
    match_id = some bob.match_id;
    outcome = some bob.outcome;
    nonce = some bob.nonce;
    ts = some bob.ts;
    sig = some bob.sig;
  };
}

bob_report-read : read_report bob_report.body ≡ some bob
unfolding report
bob_report-read = refl

bob_report-accepted :
    accepted (report 1030 (signed_by (codes "0xCd")) bob_report half_reported).0 ≡ true
unfolding report engine
bob_report-accepted = refl

report-Reported_example :
    let answer = report 1030 (signed_by (codes "0xCd")) bob_report half_reported in
    (status : ReportStatus) × (answer.0 ≡ Response.json status)
    × Reported 1030 (signed_by (codes "0xCd")) 7 bob half_reported status answer.1
report-Reported_example =
    report-Reported 1030 (signed_by (codes "0xCd")) bob_report 7 bob half_reported refl
      bob_report-read bob_report-accepted
