-- ===== src/Engine/RoundRobin/Ids.antt =====
-- The ids of a round robin.
use avax_build_games.Prelude.{
  ℕ, zero, suc, ◌+◌, ◌-◌, ◌/◌, refl, inl, inr, Option, none, List, length, get_or, Option-cases,
}
use avax_build_games.Engine.Types.{Entrant}
use avax_build_games.Engine.SingleElim.Links.{Numbered, Numbered-append}
use avax_build_games.Engine.RoundRobin.{
  both, pair_positions, rotate, round_robin_rounds, build_round_robin, padded_len,
  initial_positions,
}

pair_positions-Numbered :
    (left i : ℕ) (positions : List (Option Entrant)) (padded round next_id slot : ℕ)
    → Numbered next_id (pair_positions left i positions padded round next_id slot)
unfolding pair_positions
pair_positions-Numbered zero i positions padded round next_id slot = tt
pair_positions-Numbered (suc left) i positions padded round next_id slot =
    elim (Option-cases (both (get_or positions i none) (get_or positions (padded - 1 - i) none))) [
      | inl e ↦
          rw (e, pair_positions)
            (pair_positions-Numbered left (suc i) positions padded round next_id slot)
      | inr ((x, y), e) ↦
          rw (e, pair_positions)
            (
              refl,
              pair_positions-Numbered left (suc i) positions padded round (suc next_id) (suc slot),
            )
    ]

round_robin_rounds-Numbered :
    (left round : ℕ) (positions : List (Option Entrant)) (padded next_id : ℕ)
    → Numbered next_id (round_robin_rounds left round positions padded next_id)
unfolding round_robin_rounds
round_robin_rounds-Numbered zero round positions padded next_id = tt
round_robin_rounds-Numbered (suc left) round positions padded next_id =
    let played = pair_positions (padded / 2) 0 positions padded round next_id 0 in
    Numbered-append next_id (next_id + length played) played _ refl
      (pair_positions-Numbered (padded / 2) 0 positions padded round next_id 0)
      (round_robin_rounds-Numbered left (suc round) (rotate positions) padded
        (next_id + length played))

-- The ids of a round robin are consecutive from `startId`.
pub build_round_robin-Numbered :
    (entrants : List Entrant) (start_id : ℕ)
    → Numbered start_id (build_round_robin entrants start_id).matches
unfolding build_round_robin
build_round_robin-Numbered entrants start_id =
    let padded = padded_len (length entrants) in
    round_robin_rounds-Numbered (padded - 1) 0 (initial_positions entrants) padded start_id
