-- ===== src/Web/Bracket.antt =====
-- PUT of web/src/app/api/tournament/[id]/bracket/route.ts.
use avax_build_games.Prelude.{
  ℕ, Bool, true, ◌||◌, Option, none, some, List, length, ltb, if◌then◌else◌,
}
use avax_build_games.Web.Text.{Text}
use avax_build_games.Web.Http.{Response, json_error, json, ◌>>=◌, RouteRequest, body_too_large}
use avax_build_games.Web.Store.{
  Db, Player, MatchResult, MatchReport, BracketFormat, BracketState, upsert_bracket,
}
use avax_build_games.Web.Auth.{require_organizer}

-- Partial<BracketState>
pub record BracketBody : Type 0 where
  pub format : Option BracketFormat
  pub swiss_rounds : Option ℕ
  pub players : Option (List Player)
  pub results : Option (List MatchResult)
  pub finalized : Option Bool
  pub computed_winners : Option (List Text)
  pub reports : Option (List MatchReport)
  pub disputes : Option (List ℕ)

-- The body, if it has the fields that a bracket must have.
unfoldable pub read_bracket : BracketBody → Option BracketState
read_bracket body = do
  format ← body.format
  players ← body.players
  results ← body.results
  some (record {
    format = format;
    swiss_rounds = body.swiss_rounds;
    players = players;
    results = results;
    finalized = body.finalized;
    computed_winners = body.computed_winners;
    reports = body.reports;
    disputes = body.disputes;
  })

-- From the body on.
unfoldable pub put_read : ℕ → BracketBody → Db → Response Bool × Db
put_read tid body db = elim (read_bracket body) [
  | none ↦ (json_error 400 "invalid bracket state", db)
  | some b ↦
      if ltb 1024 (length b.players) || ltb 4096 (length b.results)
      then (json_error 400 "too many entries", db)
      else (json true, upsert_bracket tid b db)
]

unfoldable pub put_bracket : RouteRequest → BracketBody → Db → Response Bool × Db
unfolding put_read
put_bracket req body db =
    if body_too_large req.content_length
    then (json_error 413 "payload too large", db)
    else elim req.tid [
      | none ↦ (json_error 400 "bad id", db)
      | some tid ↦ elim (require_organizer req.authorization tid db) [
        | none ↦ (json_error 401 "unauthorized", db)
        | some rec ↦ put_read tid body db
      ]
    ]
