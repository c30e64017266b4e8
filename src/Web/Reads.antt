-- ===== src/Web/Reads.antt =====
-- The routes that only read: GET of web/src/app/api/tournament/[id]/route.ts, of
-- web/src/app/api/tournaments/route.ts and of web/src/app/api/job/[id]/route.ts. `is_address` is
-- ethers.isAddress.
use avax_build_games.Prelude.{
  ℕ, Bool, false, not, ◌||◌, Option, none, some, List, [], filter, if◌then◌else◌,
}
use mathlib.Core.Option.{get_or}
use avax_build_games.Web.Text.{Text, ◌===◌, is_empty_text, lower}
use avax_build_games.Web.Http.{Response, json_error, json}
use avax_build_games.Web.Store.{
  Db, TournamentRecord, BracketState, RelayerJob, get_tournament, get_bracket, list_tournaments,
  get_job,
}

unfoldable pub tournament_route : Option ℕ → Db → Response (TournamentRecord × Option BracketState)
unfolding get_tournament get_bracket
tournament_route none db = json_error 400 "bad id"
tournament_route (some tid) db = elim (get_tournament tid db) [
  | none ↦ json_error 404 "not found"
  | some tournament ↦ json (tournament, get_bracket tid db)
]

owns : Text → Option Text → Bool
unfolding lower
owns wallet none = false
owns wallet (some w) = lower w === wallet

-- Whether the tournament is of the wallet, which is in lower case.
unfoldable pub is_mine : Text → TournamentRecord → Bool
unfolding owns
is_mine wallet t = owns wallet t.organizer_wallet || owns wallet (some t.sponsor)

-- The argument is the search parameter `wallet`.
unfoldable pub tournaments_route :
    (Text → Bool) → Option Text → Db → Response (List TournamentRecord)
unfolding lower is_mine list_tournaments
tournaments_route is_address param db =
    let wallet = lower (get_or param []) in
    if is_empty_text wallet || not (is_address wallet)
    then json_error 400 "valid wallet required"
    else json (filter (is_mine wallet) (list_tournaments 200 db))

unfoldable pub job_route : Option ℕ → Db → Response RelayerJob
unfolding get_job
job_route none db = json_error 400 "bad id"
job_route (some id) db = elim (get_job id db) [
  | none ↦ json_error 404 "not found"
  | some job ↦ json job
]
