-- ===== src/Web/Finalize.antt =====
-- POST of web/src/app/api/tournament/[id]/finalize/route.ts.
pub mod Once
pub mod Success
use avax_build_games.Prelude.{
  ℕ, Bool, true, false, not, Option, none, some, List, [], map, filter, find, take, length, ◌==◌,
  if◌then◌else◌,
}
use mathlib.Core.Option.{get_or}
use avax_build_games.Engine.Types.{ok, err}
use avax_build_games.Engine.Tournament.{Tournament}
use avax_build_games.Engine.Ranking.{winners}
use avax_build_games.Web.Text.{Text, is_empty_text}
use avax_build_games.Web.Http.{
  Response, json_error, json, threw, crashed, RouteRequest, body_too_large,
}
use avax_build_games.Web.Store.{
  Db, Player, BracketState, TournamentRecord, JobPayload, get_bracket, upsert_bracket, enqueue_job,
}
use avax_build_games.Web.Auth.{require_organizer}
use avax_build_games.Web.Replay.{reconstruct}

unfoldable pub wallet_of : List Player → ℕ → Text
wallet_of players id = elim (find (λ p. p.id == id) players) [ none ↦ [] | some p ↦ p.wallet ]

unfoldable pub computed_winners_of : ℕ → List Player → List ℕ → List Text
unfolding wallet_of
computed_winners_of placements players ids =
    filter (λ w. not (is_empty_text w)) (map (wallet_of players) (take placements ids))

unfoldable pub closed_bracket : List Text → BracketState → BracketState
closed_bracket wallets b = record b { computed_winners = some wallets; finalized = some true }

-- From `placements` on.
unfoldable pub finalize_winners :
    ℕ → TournamentRecord → BracketState → List ℕ → Db → Response ℕ × Db
finalize_winners tid rec b ids db =
    let placements = length rec.payout_bps in
    let wallets = computed_winners_of placements b.players ids in
    if not (length wallets == placements)
    then (json_error 500 "winner derivation mismatch", db)
    else let job =
        enqueue_job (JobPayload.finalize tid) (upsert_bracket tid (closed_bracket wallets b) db) in
      (json job.0, job.1)

-- Once the engine has replayed the results.
unfoldable pub finalize_complete :
    ℕ → TournamentRecord → BracketState → Tournament → Db → Response ℕ × Db
unfolding finalize_winners
finalize_complete tid rec b t db =
    if not t.complete
    then (json_error 400 "bracket not complete", db)
    else elim (winners t) [ none ↦ (crashed, db) | some ids ↦ finalize_winners tid rec b ids db ]

unfoldable pub finalize_bracket : ℕ → TournamentRecord → BracketState → Db → Response ℕ × Db
unfolding finalize_complete
finalize_bracket tid rec b db =
    if get_or b.finalized false
    then (json_error 400 "already finalized", db)
    else elim (reconstruct b) [ err e ↦ (threw e, db) | ok t ↦ finalize_complete tid rec b t db ]

-- From the organizer check on.
unfoldable pub finalize_tid : Option Text → ℕ → Db → Response ℕ × Db
unfolding finalize_bracket
finalize_tid authorization tid db = elim (require_organizer authorization tid db) [
  | none ↦ (json_error 401 "unauthorized", db)
  | some rec ↦ elim (get_bracket tid db) [
    | none ↦ (json_error 404 "bracket not found", db)
    | some b ↦ finalize_bracket tid rec b db
  ]
]

unfoldable pub finalize : RouteRequest → Db → Response ℕ × Db
unfolding finalize_tid
finalize req db =
    if body_too_large req.content_length
    then (json_error 413 "payload too large", db)
    else elim req.tid [
      | none ↦ (json_error 400 "bad id", db)
      | some tid ↦ finalize_tid req.authorization tid db
    ]
