-- ===== src/Web/Replay/Played.antt =====
-- The tournaments that stored results replay to.
use avax_build_games.Prelude.{◌≡◌, subst, List, [], ◌∷◌, map, inl, inr}
use avax_build_games.Engine.Types.{Entrant, TournamentFormat, ok, ok-injective, Result-cases}
use avax_build_games.Engine.Tournament.{Tournament, new, record_outcome}
use avax_build_games.Engine.Tournament.Played.{Played, begins, records}
use avax_build_games.Engine.Ranking.Winners.{AllRanked, winners-AllRanked}
use avax_build_games.Web.Store.{BracketState, MatchResult}
use avax_build_games.Web.Replay.{format_of, outcome_of, replay, entrant_of, reconstruct}

replay-Played :
    (format : TournamentFormat) (es : List Entrant) (rs : List MatchResult) (t t' : Tournament)
    → replay rs t ≡ ok t'
    → Played format es t
    → Played format es t'
unfolding replay
replay-Played format es [] t t' h played = subst (Played format es) (ok-injective h) played
replay-Played format es (r ∷ rs) t t' h played =
    elim (Result-cases (record_outcome r.match_id (outcome_of r.outcome) t)) [
      | inl (next, e) ↦
          replay-Played format es rs next t' (rw e at h)
            (records r.match_id (outcome_of r.outcome) played e)
      | inr (x, e) ↦ cc (rw e at h)
    ]

pub reconstruct-Played :
    (b : BracketState) (t : Tournament)
    → reconstruct b ≡ ok t
    → Played (format_of b) (map entrant_of b.players) t
unfolding reconstruct
reconstruct-Played b t h = elim (Result-cases (new (format_of b) (map entrant_of b.players))) [
  | inl (start, e) ↦
      replay-Played (format_of b) (map entrant_of b.players) b.results start t
        (rw (e, reconstruct) at h) (begins e)
  | inr (x, e) ↦ cc (rw (e, reconstruct) at h)
]

-- A bracket that replays has a ranking of all its players.
pub reconstruct-AllRanked :
    (b : BracketState) (t : Tournament)
    → reconstruct b ≡ ok t
    → AllRanked (map entrant_of b.players) t
reconstruct-AllRanked b t h =
    winners-AllRanked (format_of b) (map entrant_of b.players) t (reconstruct-Played b t h)
