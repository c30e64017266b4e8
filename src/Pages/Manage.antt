-- ===== src/Pages/Manage.antt =====
-- web/src/app/manage/[id]/page.tsx: the bracket that the organizer's page replays and stores, the
-- winners it shows, and the wait for the relayer.
pub mod Results
pub mod Winners
use avax_build_games.Prelude.{
  ℕ, zero, suc, Bool, true, false, ◌||◌, Option, none, some, List, [], ◌∷◌, ◌++◌, map, take, length,
  lookup, if◌then◌else◌,
}
use mathlib.Core.Option.{get_or}
use avax_build_games.Engine.Types.{Outcome, draw, void, Result, ok, err, ◌>>=◌}
use avax_build_games.Engine.Tournament.{Tournament, new, record_outcome}
use avax_build_games.Engine.Ranking.{winners}
use avax_build_games.Web.Text.{Text, codes, ◌===◌}
use avax_build_games.Web.Http.{Attempt, returned, thrown, truthy_text}
use avax_build_games.Web.Store.{
  BracketState, MatchResult, Player, TournamentRecord, TournamentState, finalized, complete,
  JobStatus, pending, done, failed,
}
use avax_build_games.Web.Replay.{format_of, entrant_of}
use avax_build_games.Pages.Play.{players_by_id}

unfoldable pub outcome_of : Text → Outcome
outcome_of o =
    if o === codes "B"
    then Outcome.b
    else if o === codes "Draw"
    then draw
    else if o === codes "Void"
    then void
    else Outcome.a

unfoldable pub replay : List MatchResult → Tournament → Result Tournament
unfolding outcome_of
replay [] t = ok t
replay (r ∷ rs) t = do t' ← record_outcome r.match_id (outcome_of r.outcome) t; replay rs t'

-- The engine of the page for a bracket that is loaded.
unfoldable pub reconstruct : BracketState → Result Tournament
unfolding replay
reconstruct b = do t ← new (format_of b) (map entrant_of b.players); replay b.results t

-- The value of an Outcome, which the page stores.
abbrev pub outcome_text : Outcome → Text
outcome_text Outcome.a = codes "A"
outcome_text Outcome.b = codes "B"
outcome_text draw = codes "Draw"
outcome_text void = codes "Void"

-- What recordResult persists.
unfoldable pub record_result : ℕ → Outcome → BracketState → BracketState
record_result match_id outcome b = record b {
  results = b.results ++ record { match_id = match_id; outcome = outcome_text outcome } ∷ [];
}

-- What finalize persists when it has not thrown.
unfoldable pub finalized_bracket : BracketState → BracketState
finalized_bracket b = record b { finalized = some true }

unfoldable pub player_wallet : List Player → ℕ → Text
player_wallet players id = elim (lookup id (players_by_id players [])) [
  | none ↦ []
  | some p ↦ p.wallet
]

-- The wallets that the page shows and, for a sponsor, has signed.
unfoldable pub winner_wallets : ℕ → List Player → List ℕ → List Text
unfolding player_wallet
winner_wallets placements players ids = map (player_wallet players) (take placements ids)

is_closed : TournamentState → Bool
is_closed TournamentState.open_state = false
is_closed finalized = true
is_closed complete = true
is_closed TournamentState.cancelled = false

unfoldable pub is_finalized : Option BracketState → Option TournamentRecord → Bool
unfolding is_closed
is_finalized b rec =
    elim b [ none ↦ false | some s ↦ get_or s.finalized false ]
    || elim rec [ none ↦ false | some r ↦ is_closed r.state ]

-- What one request of the job's route gives.
pub record JobReply : Type 0 where
  pub status : Option JobStatus
  pub tx_hash : Option Text

-- The end of the wait: the relayer is done, with the record's new hash, an Error is thrown, or the
-- wait is given up.
pub data Wait : Type 0 where
  settled : Option Text → Wait
  error : Text → Wait
  given_up : Wait

-- `count` more requests, from the one with the number `i`. What each of them gives is an argument.
unfoldable pub wait_from : ℕ → ℕ → (ℕ → Attempt JobReply) → Wait
wait_from zero i replies = given_up
wait_from (suc count) i replies =
    let rest = wait_from count (suc i) replies in
    elim (replies i) [
      | thrown e ↦ error e
      | returned r ↦ elim r.status [
        | none ↦ rest
        | some s ↦ elim s [
          | pending ↦ rest
          | done ↦ settled r.tx_hash
          | failed ↦ error (codes "relayer finalize failed")
        ]
      ]
    ]

unfoldable pub wait_for_relayer : (ℕ → Attempt JobReply) → Wait
unfolding wait_from
wait_for_relayer replies = wait_from 30 0 replies
