-- ===== src/Examples/Routes.antt =====
-- Runs of the routes that change tournaments, and instances of their theorems.
use avax_build_games.Prelude.{
  ℕ, ◌≡◌, ◌≤◌, ◌↔◌, length, ◌<◌, refl, sym, ap, true, false, Option, none, some, List, [], ◌∷◌,
  replicate, All, arith,
}
use mathlib.Core.Option.{some-injective}
use avax_build_games.Web.Text.{Text, codes}
use avax_build_games.Web.Http.{Response, accepted, RouteRequest, body_too_large, expired}
use avax_build_games.Web.Store.{
  Db, BracketState, TournamentRecord, BracketFormat, get_tournament, get_bracket, save_tournament,
  upsert_bracket, enqueue_job,
}
use avax_build_games.Web.Auth.{require_organizer, bearer_token, same_token}
use avax_build_games.Web.Auth.Bearer.{bearer}
use avax_build_games.Web.Token.{generate_manage_token, hex_bytes}
use avax_build_games.Web.Token.Hex.{read_hex, read_hex-hex_bytes}
use avax_build_games.Web.Replay.{reconstruct}
use avax_build_games.Engine.Ranking.{winners}
use avax_build_games.Engine.Types.{ok, single_elimination}
use avax_build_games.Engine.Tournament.{Tournament, fresh}
use avax_build_games.Examples.Instances.{or_else}
use avax_build_games.Web.Store.Ledger.{Call, save_tournament_call, save_bracket_call, perform_all}
use avax_build_games.Web.Store.Ledger.Kept.{saves_bracket_of}
use avax_build_games.Web.Finalize.{finalize, computed_winners_of}
use avax_build_games.Web.Finalize.Once.{Finalized, finalize-Finalized, finalize_once}
use avax_build_games.Web.Finalize.Success.{HasWallet, finalize_pays_iff}
use avax_build_games.Web.Init.{InitBody, init, sum}
use avax_build_games.Web.Init.Guard.{Initialized, init-Initialized, init-organizer}
use avax_build_games.Web.Login.{LoginBody, login, is_organizer}
use avax_build_games.Web.Login.Owner.{LoggedIn, login-LoggedIn}
use avax_build_games.Examples.Engine.{engine}
use avax_build_games.Examples.Web.{empty_db, header, organized, organized_db, two_players}

-- Every operation of the routes, for the runs to unfold.
unfoldable pub routes : Unit {0}
unfolding engine body_too_large expired finalize init login require_organizer same_token
    bearer_token get_tournament get_bracket save_tournament upsert_bracket enqueue_job reconstruct
    winners computed_winners_of sum is_organizer generate_manage_token
routes = tt

abbrev pub two_played : BracketState
two_played = record two_players { results = record { match_id = 1; outcome = codes "A" } ∷ [] }

abbrev played_db : Db
played_db = record organized_db { brackets = (7, two_played) ∷ [] }

abbrev request : RouteRequest
request = record { content_length = 2; tid = some 7; authorization = header }

played-finalized : accepted (finalize request played_db).0 ≡ true
unfolding routes
played-finalized = refl

finalize-Finalized_example :
    (job : ℕ) × ((finalize request played_db).0 ≡ Response.json job)
    × Finalized header 7 played_db job (finalize request played_db).1
finalize-Finalized_example = finalize-Finalized request 7 played_db refl played-finalized

-- What other requests ask of the store meanwhile.
abbrev later_calls : List Call
later_calls = save_bracket_call 8 two_played ∷ save_tournament_call organized ∷ []

spared : All (λ c. saves_bracket_of 7 c ≡ false) later_calls
unfolding saves_bracket_of
spared = (refl, (refl, tt))

finalize_once_example :
    let after = perform_all later_calls (finalize request played_db).1 in
    (accepted (finalize request after).0 ≡ false) × ((finalize request after).1 ≡ after)
finalize_once_example =
    finalize_once request request 7 later_calls played_db refl refl spared played-finalized

abbrev pub two_played_tournament : Tournament
two_played_tournament = or_else (reconstruct two_played) (fresh single_elimination [])

pub two_played-replays : reconstruct two_played ≡ ok two_played_tournament
unfolding routes
two_played-replays = refl

pub two_played-complete : two_played_tournament.complete ≡ true
unfolding routes
two_played-complete = refl

two_played-HasWallet : All HasWallet two_played.players
unfolding HasWallet
two_played-HasWallet = (refl, (refl, tt))

request-small : body_too_large request.content_length ≡ false
unfolding routes
request-small = refl

request-authorized : require_organizer request.authorization 7 played_db ≡ some organized
unfolding routes
request-authorized = refl

played-stored : get_bracket 7 played_db ≡ some two_played
unfolding routes
played-stored = refl

finalize_pays_iff_example :
    (accepted (finalize request played_db).0 ≡ true)
    ↔ (length organized.payout_bps ≤ length two_played.players)
finalize_pays_iff_example =
    finalize_pays_iff request 7 played_db organized two_played two_played_tournament request-small
      refl request-authorized played-stored refl two_played-replays two_played-complete
      two_played-HasWallet

-- 32 bytes
abbrev pub bytes : List ℕ
bytes = replicate 32 171

pub bytes-IsSmall : All (λ b. b < 256) bytes
bytes-IsSmall = ground arith

read_hex-hex_bytes_example : read_hex (hex_bytes bytes) ≡ bytes
read_hex-hex_bytes_example = read_hex-hex_bytes bytes bytes-IsSmall

abbrev two_placements : InitBody
two_placements = record {
  sponsor = some (codes "0xAb");
  prize_pool_wei = none;
  payout_bps = some (7000 ∷ 3000 ∷ []);
  format = some BracketFormat.single_elimination;
  swiss_rounds = none;
  players = some two_players.players;
  tx_hash = none;
}

abbrev pub open_request : RouteRequest
open_request = record { content_length = 300; tid = some 7; authorization = none }

empty-initialized : accepted (init 5000 bytes open_request two_placements empty_db).0 ≡ true
unfolding routes
empty-initialized = refl

init-Initialized_example :
    ((init 5000 bytes open_request two_placements empty_db).0
      ≡ Response.json (generate_manage_token bytes))
    × Initialized 5000 bytes none 7 two_placements empty_db
        (init 5000 bytes open_request two_placements empty_db).1
init-Initialized_example =
    init-Initialized 5000 bytes open_request 7 two_placements empty_db refl empty-initialized

init-organizer_example :
    let db' = (init 5000 bytes open_request two_placements empty_db).1 in
    (rec : TournamentRecord) × (get_tournament 7 db' ≡ some rec)
    × (require_organizer (bearer (generate_manage_token bytes)) 7 db' ≡ some rec)
init-organizer_example =
    init-organizer 5000 bytes open_request 7 two_placements empty_db refl refl bytes-IsSmall
      empty-initialized

abbrev sponsor_login : LoginBody
sponsor_login = record { wallet = some (codes "0xAB"); sig = some (codes "0x01"); ts = some 1000 }

abbrev signed_by : Text → Text → Text → Option Text
signed_by wallet message sig = some wallet

sponsor-accepted :
    accepted (login 1100 (signed_by (codes "0xab")) bytes (some 7) sponsor_login organized_db).0
    ≡ true
unfolding routes
sponsor-accepted = refl

organized-key :
    (rec : TournamentRecord) → get_tournament 7 organized_db ≡ some rec → rec.tournament_id ≡ 7
unfolding get_tournament
organized-key rec h =
    sym (ap (λ (r : TournamentRecord). r.tournament_id) (some-injective organized rec h))

login-LoggedIn_example :
    LoggedIn 1100
      (signed_by (codes "0xab"))
      7
      sponsor_login
      organized_db
      (login 1100 (signed_by (codes "0xab")) bytes (some 7) sponsor_login organized_db)
login-LoggedIn_example =
    login-LoggedIn 1100 (signed_by (codes "0xab")) bytes 7 sponsor_login organized_db organized-key
      sponsor-accepted
