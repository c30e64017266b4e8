-- ===== src/Engine/RoundRobin.antt =====
-- roundRobin.ts of web/src/lib/engine: the schedule of a round robin by the circle method.
pub mod Circle
pub mod Ids
pub mod Meetings
pub mod Rotation
pub mod Sides
pub mod Starts
pub mod Sums
pub mod Table
use avax_build_games.Prelude.{
  ℕ, zero, suc, ◌+◌, ◌-◌, ◌/◌, ◌%◌, Option, none, some, List, [], ◌∷◌, ◌++◌, map, length, get_or,
  replicate, ◌==◌, if◌then◌else◌,
}
use avax_build_games.Engine.Types.{MatchId, Entrant, BracketMatch}
use avax_build_games.Engine.SingleElim.{Build}

abbrev pub padded_len : ℕ → ℕ
padded_len n = if n % 2 == 0 then n else n + 1

unfoldable pub initial_positions : List Entrant → List (Option Entrant)
initial_positions entrants =
    map some entrants ++ replicate (padded_len (length entrants) - length entrants) none

-- positions.pop() ?? null, and what the call leaves
unfoldable pub pop_last : List (Option Entrant) → Option Entrant × List (Option Entrant)
pop_last [] = (none, [])
pop_last (p ∷ []) = (p, [])
pop_last (p ∷ q ∷ ps) = let (last, front) = pop_last (q ∷ ps) in (last, p ∷ front)

-- positions.splice(1, 0, last)
splice_at_one : Option Entrant → List (Option Entrant) → List (Option Entrant)
splice_at_one last [] = last ∷ []
splice_at_one last (p ∷ ps) = p ∷ last ∷ ps

unfoldable pub rotate : List (Option Entrant) → List (Option Entrant)
unfolding pop_last splice_at_one
rotate positions = let (last, front) = pop_last positions in splice_at_one last front

-- Neither side is a bye.
abbrev pub both : Option Entrant → Option Entrant → Option (Entrant × Entrant)
both none b = none
both (some x) none = none
both (some x) (some y) = some (x, y)

-- The matches of one round, from position `i` on, for as many positions as are left.
unfoldable pub pair_positions :
    ℕ → ℕ → List (Option Entrant) → ℕ → ℕ → MatchId → ℕ → List BracketMatch
pair_positions zero i positions padded round next_id slot = []
pair_positions (suc left) i positions padded round next_id slot =
    elim (both (get_or positions i none) (get_or positions (padded - 1 - i) none)) [
      | none ↦ pair_positions left (suc i) positions padded round next_id slot
      | some (x, y) ↦
          record {
            id = next_id;
            round = round;
            slot = slot;
            a = some x;
            b = some y;
            outcome = none;
            winner_to = none;
          }
          ∷ pair_positions left (suc i) positions padded round (suc next_id) (suc slot)
    ]

-- The rounds from `round` on, for as many as are left.
unfoldable pub round_robin_rounds : ℕ → ℕ → List (Option Entrant) → ℕ → MatchId → List BracketMatch
unfolding pair_positions rotate
round_robin_rounds zero round positions padded next_id = []
round_robin_rounds (suc left) round positions padded next_id =
    let played = pair_positions (padded / 2) 0 positions padded round next_id 0 in
    played
    ++ round_robin_rounds left (suc round) (rotate positions) padded (next_id + length played)

unfoldable pub build_round_robin : List Entrant → MatchId → Build
unfolding round_robin_rounds initial_positions
build_round_robin entrants start_id =
    let padded = padded_len (length entrants) in
    record {
      matches = round_robin_rounds (padded - 1) 0 (initial_positions entrants) padded start_id;
      rounds = padded - 1;
    }
