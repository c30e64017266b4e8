-- ===== src/Examples/Pages.antt =====
-- Runs of the pages and of the store's ledger, and instances of their theorems.
use avax_build_games.Prelude.{
  ◌≡◌, refl, map, filter, not, false, none, some, Option, [], ◌∷◌, ◌++◌, arith, List, true,
}
use avax_build_games.Engine.Types.{TournamentFormat, Outcome, ◌>>=◌}
use avax_build_games.Engine.Tournament.{record_outcome, no_rounds, ids_unique}
use avax_build_games.Web.Text.{Text, codes, lower, is_empty_text}
use avax_build_games.Web.Http.{Attempt, returned, json}
use avax_build_games.Web.Store.{
  JobPayload, Nonce, bracket, ReportSide, BracketState, get_tournament, get_bracket, get_job,
}
use avax_build_games.Web.Store.Ledger.{
  Ledger, Call, save_bracket_call, get_bracket_call, enqueue_job_call, get_job_call, use_nonce_call,
  claim_call, save_tournament_call, get_tournament_call, list_tournaments_call, update_call,
  answers, specified_answers,
}
use avax_build_games.Web.Store.Ledger.Refines.{Represents, answers-specified_answers}
use avax_build_games.Web.Report.{ReportBody, report, report_fresh}
use avax_build_games.Web.Replay
use avax_build_games.Pages.Play.{Pressed, reported_outcome, play_report, signed_body}
use avax_build_games.Pages.Play.Signed.{sent_report, play_report-report}
use avax_build_games.Pages.Setup.{players_of, can_proceed_winners}
use avax_build_games.Pages.Arena.{
  fulfilled, found, decided, fetching_me, Answers, ArenaStep, answered, hears, reports, arena_after,
}
use avax_build_games.Pages.Arena.Sound.{IsSound}
use avax_build_games.Pages.Arena.Reach.{arena_after-IsSound}
use avax_build_games.Pages.Manage.{reconstruct, record_result, winner_wallets}
use avax_build_games.Pages.Manage.Winners.{computed_winners_of-winner_wallets}
use avax_build_games.Client.Cup.{connect_wallet}
use avax_build_games.Examples.Client.{cup_env, injected}
use avax_build_games.Pages.Claim.{Chain, ClaimPage, ClaimStatus, claim_opened, claim}
use avax_build_games.Pages.Claim.Claimed.{Claimed, claim-Claimed}
use avax_build_games.Pages.Cup.{CupShown, Cup, shown, cup_view}
use avax_build_games.Pages.Cup.Final.{IsFinal, cup_view-IsFinal}
use avax_build_games.Examples.Routes.{
  two_played, two_played_tournament, two_played-replays, two_played-complete,
}
use avax_build_games.Web.Login.{LoginBody, login, is_organizer}
use avax_build_games.Pages.Dashboard.{manage_login, signed_login}
use avax_build_games.Pages.Dashboard.Access.{manage_login-login}
use avax_build_games.Web.Finalize.{computed_winners_of}
use avax_build_games.Web.Replay.{entrant_of}
use avax_build_games.Pages.Manage.Results.{reconstruct-record_result, reconstruct-reconstruct}
use avax_build_games.Examples.Web.{empty_db, organized, organized_db, two_players}

abbrev empty_ledger : Ledger
empty_ledger = record {
  tournaments = λ tid. none;
  listed = [];
  brackets = λ tid. none;
  jobs = λ id. none;
  next_job = 1;
  used = λ n. false;
  intents = λ o. none;
}

empty-Represents : Represents empty_db empty_ledger
unfolding get_tournament get_bracket get_job
empty-Represents = record {
  tournaments = λ tid. refl;
  keyed = tt;
  listed = refl;
  brackets = λ tid. refl;
  jobs = λ id. refl;
  next_job = refl;
  no_later = λ id h. refl;
  used = λ n. refl;
  intents = λ o. refl;
}

abbrev a_nonce : Nonce
a_nonce = record { wallet = codes "0xab"; tid = 7; match_id = 1; nonce = codes "n" }

abbrev some_calls : List Call
some_calls =
    save_bracket_call 7 two_players
    ∷ save_tournament_call organized
    ∷ save_bracket_call 7 two_players
    ∷ get_bracket_call 7
    ∷ get_tournament_call 7
    ∷ list_tournaments_call 50
    ∷ use_nonce_call a_nonce
    ∷ use_nonce_call a_nonce
    ∷ claim_call (codes "o") (some (record { digits = 5; scale = 0 }))
    ∷ enqueue_job_call (JobPayload.finalize 7)
    ∷ update_call (codes "o") 1 none
    ∷ claim_call (codes "o") (some (record { digits = 5; scale = 0 }))
    ∷ get_job_call 1
    ∷ []

answers-specified_answers_example :
    answers some_calls empty_db ≡ specified_answers some_calls empty_ledger
answers-specified_answers_example =
    answers-specified_answers some_calls empty_db empty_ledger empty-Represents

abbrev one_result : BracketState
one_result = record two_players { results = record { match_id = 1; outcome = codes "A" } ∷ [] }

reconstruct-record_result_example :
    reconstruct (record_result 1 Outcome.a two_players)
    ≡ (do t ← reconstruct two_players; record_outcome 1 Outcome.a t)
reconstruct-record_result_example = reconstruct-record_result 1 Outcome.a two_players

reconstruct-reconstruct_example : reconstruct one_result ≡ Replay.reconstruct one_result
reconstruct-reconstruct_example = reconstruct-reconstruct one_result (refl, tt)

abbrev sign : Text → Attempt Text
sign message = returned (codes "s")

abbrev signer_of : Text → Text → Option Text
signer_of message sig = some (codes "0xAB")

abbrev sent : ReportBody
sent = record {
  wallet = some (codes "0xab");
  match_id = some 1;
  outcome = some (codes "A");
  nonce = some (codes "n");
  ts = some 100;
  sig = some (codes "s");
}

play_report-sent_body :
    play_report sign (codes "0xab") 7 1 (reported_outcome Pressed.a ReportSide.b) (codes "n") 100
    ≡ returned sent
unfolding play_report signed_body reported_outcome
play_report-sent_body = refl

lower-signer : lower (codes "0xAB") ≡ lower (codes "0xab")
unfolding lower
lower-signer = refl

play_report-report_example :
    report 130 signer_of (record { content_length = 200; tid = some 7; body = sent }) organized_db
    ≡ report_fresh 7
        (sent_report (codes "0xab") 1 (codes "A") (codes "n") 100 (codes "s"))
        organized_db
play_report-report_example =
    play_report-report 130 signer_of sign (codes "0xab") 7 1 Pressed.a ReportSide.b (codes "n") 100
      (codes "s") (codes "0xAB") 200 sent organized_db refl refl lower-signer play_report-sent_body
      refl refl refl (omega arith) (omega arith) (omega arith) (omega arith)

abbrev roster_text : Text
roster_text = codes "Ann, 0xabcdef" ++ (10 ∷ codes "Bob")

two_lines : can_proceed_winners bracket (players_of roster_text) [] [] ≡ true
unfolding can_proceed_winners players_of
two_lines = refl

no_rounds-single : no_rounds TournamentFormat.single_elimination ≡ false
unfolding no_rounds
no_rounds-single = refl

-- What the server answers to a player without a match or a ticket.
abbrev all_well : Answers
all_well = record {
  games = returned [];
  me = returned (record { wallet = codes "0xab"; queue_ticket = false; live_match = false });
  wallet = returned (codes "0xab");
  done = fulfilled;
}

-- The page starts with a session and a match is found, the player reports it, and before the answer
-- to that comes, the match is decided.
abbrev arena_steps : List ArenaStep
arena_steps =
    answered 1 all_well
    ∷ hears (decided (record { match_id = codes "m"; outcome = codes "a"; won = true }))
    ∷ reports
    ∷ hears (found (codes "m"))
    ∷ answered 0 all_well
    ∷ answered 0 all_well
    ∷ answered 0 all_well
    ∷ []

arena_steps-waiting :
    ((arena_after true arena_steps).waiting ≡ fetching_me false ∷ [])
    × ((arena_after true arena_steps).busy ≡ false)
unfolding arena_after
arena_steps-waiting = (refl, refl)

arena_after-IsSound_example : IsSound (arena_after true arena_steps)
arena_after-IsSound_example = arena_after-IsSound true arena_steps

two_players_unique : ids_unique (map entrant_of two_players.players) ≡ true
unfolding ids_unique
two_players_unique = refl

computed_winners_of-winner_wallets_example :
    computed_winners_of 1 two_players.players (2 ∷ 1 ∷ [])
    ≡ filter (λ w. not (is_empty_text w)) (winner_wallets 1 two_players.players (2 ∷ 1 ∷ []))
computed_winners_of-winner_wallets_example =
    computed_winners_of-winner_wallets 1 two_players.players (2 ∷ 1 ∷ []) two_players_unique

abbrev login_body : LoginBody
login_body = record { wallet = some (codes "0xab"); sig = some (codes "s"); ts = some 100 }

manage_login-login_body : manage_login sign (codes "0xab") 7 100 ≡ returned login_body
unfolding manage_login signed_login
manage_login-login_body = refl

get_tournament-organized : get_tournament 7 organized_db ≡ some organized
unfolding get_tournament
get_tournament-organized = refl

is_organizer-organized : is_organizer organized (codes "0xab") ≡ true
unfolding is_organizer
is_organizer-organized = refl

manage_login-login_example :
    (token : Text) × ((login 130 signer_of [] (some 7) login_body organized_db).0 ≡ json token)
manage_login-login_example =
    manage_login-login 130 signer_of [] sign (codes "0xab") 7 100 (codes "s") (codes "0xAB")
      organized login_body organized_db refl refl lower-signer manage_login-login_body refl refl
      (omega arith) (omega arith) (omega arith) get_tournament-organized is_organizer-organized

abbrev cup : Cup
cup = record { bracket = some two_played; loading = false; last_updated = some 5 }

cup_view-IsFinal_example :
    (s : CupShown) × (cup_view cup ≡ shown s) × IsFinal two_played two_played_tournament s
cup_view-IsFinal_example =
    cup_view-IsFinal cup two_played two_played_tournament refl refl two_played-replays
      two_played-complete

abbrev fuji : Chain
fuji = record {
  big_int = λ s. returned 7;
  get_signer = returned (codes "0xab");
  key_signer = λ k. returned (codes "0xab");
  get_address = λ signer. returned signer;
  balance_before = λ winner. returned 5;
  claim_prize = λ signer tid place. returned (some (codes "0x99"));
  balance_after = λ winner. returned 25;
  format_ether = λ n. codes "0.0";
}

abbrev claim_page : ClaimPage
claim_page = claim_opened (some (codes "7")) none

claim_page-done : (claim cup_env (some injected) fuji claim_page).status ≡ ClaimStatus.done
unfolding claim claim_opened connect_wallet
claim_page-done = refl

claim-Claimed_example :
    Claimed cup_env (some injected) fuji claim_page (claim cup_env (some injected) fuji claim_page)
claim-Claimed_example = claim-Claimed cup_env (some injected) fuji claim_page claim_page-done
