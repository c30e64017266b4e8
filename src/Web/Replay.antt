-- ===== src/Web/Replay.antt =====
-- formatOf and reconstruct of web/src/app/api/tournament/[id]/report/route.ts, which the finalize
-- route repeats.
pub mod Played
use avax_build_games.Prelude.{List, [], ◌∷◌, map, if◌then◌else◌}
use avax_build_games.Engine.Types.{Entrant, Outcome, draw, Result, ok, ◌>>=◌, TournamentFormat}
use avax_build_games.Engine.Tournament.{Tournament, new, record_outcome}
use avax_build_games.Web.Text.{Text, codes, ◌===◌}
use avax_build_games.Web.Store.{Player, MatchResult, BracketState, BracketFormat}
use mathlib.Core.Option.{get_or}

unfoldable pub format_as : BracketFormat → BracketState → TournamentFormat
format_as BracketFormat.swiss b = TournamentFormat.swiss (get_or b.swiss_rounds 3)
format_as BracketFormat.round_robin b = TournamentFormat.round_robin
format_as BracketFormat.single_elimination b = TournamentFormat.single_elimination

unfoldable pub format_of : BracketState → TournamentFormat
unfolding format_as
format_of b = format_as b.format b

-- Every text but "B" and "Draw" counts as A.
unfoldable pub outcome_of : Text → Outcome
outcome_of o = if o === codes "B" then Outcome.b else if o === codes "Draw" then draw else Outcome.a

unfoldable pub replay : List MatchResult → Tournament → Result Tournament
unfolding outcome_of
replay [] t = ok t
replay (r ∷ rs) t = do t' ← record_outcome r.match_id (outcome_of r.outcome) t; replay rs t'

abbrev pub entrant_of : Player → Entrant
entrant_of p = record { id = p.id; seed = p.seed }

unfoldable pub reconstruct : BracketState → Result Tournament
unfolding format_of replay
reconstruct b = do t ← new (format_of b) (map entrant_of b.players); replay b.results t
