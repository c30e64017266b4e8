-- ===== src/Examples/Ranking.antt =====
-- Instances of the theorems on the round robin, the ranking of a tournament and its finalization.
use avax_build_games.Prelude.{true, ◌≡◌, ◌≤◌, refl, [], arith}
use avax_build_games.Engine.Types.{Outcome, draw, ok, swiss, round_robin}
use avax_build_games.Engine.Tournament.{Tournament, new, record_outcome, fresh}
use avax_build_games.Engine.Meetings.{meetings}
use avax_build_games.Engine.Tournament.Meetings.{round_robin_meets_once}
use avax_build_games.Engine.Tournament.Played.{Played, begins, records}
use avax_build_games.Engine.Tournament.Rematches.{swiss_never_rematches}
use avax_build_games.Engine.Ranking.Winners.{AllRanked, winners-AllRanked}
use avax_build_games.Examples.Engine.{seeds, engine}
use avax_build_games.Examples.Instances.{or_else, is_ok, or_else-is_ok}

-- A round robin of three entrants with one result.
abbrev small_league : Tournament
small_league = or_else (new round_robin (seeds 3)) (fresh round_robin [])

abbrev small_league_next : Tournament
small_league_next = or_else (record_outcome 1 draw small_league) small_league

small_league-new : new round_robin (seeds 3) ≡ ok small_league
unfolding engine
small_league-new = refl

small_league-record-is_ok : is_ok (record_outcome 1 draw small_league) ≡ true
unfolding engine
small_league-record-is_ok = refl

small_league-record : record_outcome 1 draw small_league ≡ ok small_league_next
small_league-record =
    or_else-is_ok (record_outcome 1 draw small_league) small_league small_league-record-is_ok

round_robin_meets_once_example : meetings 1 3 small_league_next.match_map ≡ 1
round_robin_meets_once_example =
    round_robin_meets_once (seeds 3) small_league_next 1 3
      (records 1 draw (begins small_league-new) small_league-record) refl refl (ground arith)

-- Two rounds of three entrants, of which two have a match, and its result.
abbrev small_swiss : Tournament
small_swiss = or_else (new (swiss 2) (seeds 3)) (fresh (swiss 2) [])

abbrev small_swiss_next : Tournament
small_swiss_next = or_else (record_outcome 1 Outcome.b small_swiss) small_swiss

small_swiss-new : new (swiss 2) (seeds 3) ≡ ok small_swiss
unfolding engine
small_swiss-new = refl

small_swiss-record-is_ok : is_ok (record_outcome 1 Outcome.b small_swiss) ≡ true
unfolding engine
small_swiss-record-is_ok = refl

small_swiss-record : record_outcome 1 Outcome.b small_swiss ≡ ok small_swiss_next
small_swiss-record =
    or_else-is_ok (record_outcome 1 Outcome.b small_swiss) small_swiss small_swiss-record-is_ok

small_swiss-Played : Played (swiss 2) (seeds 3) small_swiss_next
small_swiss-Played = records 1 Outcome.b (begins small_swiss-new) small_swiss-record

winners-AllRanked_example : AllRanked (seeds 3) small_swiss_next
winners-AllRanked_example =
    winners-AllRanked (swiss 2) (seeds 3) small_swiss_next small_swiss-Played

swiss_never_rematches_example : meetings 1 2 small_swiss_next.match_map ≤ 1
swiss_never_rematches_example =
    swiss_never_rematches 2 1 2 (seeds 3) small_swiss_next small_swiss-Played
