-- ===== src/Examples/Instances.antt =====
-- Instances of the theorems on the engine.
use avax_build_games.Prelude.{
  arith, ℕ, suc, ◌≡◌, refl, ◌+◌, ◌^◌, none, some, List, [], map, Bool, true, false, All, Ascending,
}
use avax_build_games.Engine.Types.{
  Outcome, BracketMatch, Standing, Result, ok, err, single_elimination, round_robin, not_recordable,
}
use avax_build_games.Engine.Tournament.{Tournament, new, record_outcome, fresh}
use avax_build_games.Engine.Tournament.Ids.{new-IsNumbered, IsNumbered}
use avax_build_games.Engine.Tournament.Recording.{
  Recorded, record_outcome-Recorded, record_outcome_twice,
}
use avax_build_games.Engine.MatchMap.{advance_pass, advance_single_elim}
use avax_build_games.Engine.MatchMap.Fixpoint.{advance_single_elim_ends}
use avax_build_games.Engine.Ranking.{standings}
use avax_build_games.Engine.Ranking.Standings.{
  total, decides, ties, total_played, standings_totals, RanksBefore, standings-Ascending,
}
use avax_build_games.Engine.Seeding.{next_pow2, next_pow2_loop}
use avax_build_games.Engine.Seeding.NextPow2.{
  IsLeastPow, next_pow2-IsLeastPow, next_pow2_loop_diverges,
}
use avax_build_games.Engine.SingleElim.{build_single_elim}
use avax_build_games.Engine.SingleElim.Links.{IsBracket, build_single_elim-IsBracket}
use avax_build_games.Engine.SingleElim.Placement.{Starts, build_single_elim-Starts}
use avax_build_games.Engine.Swiss.{SwissEntry, Pairing}
use avax_build_games.Engine.Swiss
use avax_build_games.Engine.Swiss.Pairs.{IsPairing, pair_swiss_round-IsPairing}
use mathlib.Core.Option.{get_or}
use avax_build_games.Examples.Engine.{seeds, engine}

abbrev pub or_else : Result Tournament → Tournament → Tournament
or_else (ok t) s = t
or_else (err e) s = s

abbrev pub is_ok {ℓ} : {A : Type ℓ} → Result A → Bool
is_ok (ok x) = true
is_ok (err e) = false

pub or_else-is_ok : (r : Result Tournament) (s : Tournament) → is_ok r ≡ true → r ≡ ok (or_else r s)
or_else-is_ok (ok t) s h = refl
or_else-is_ok (err e) s h = cc

-- The bracket of five entrants, and the same after match 1.
abbrev five : Tournament
five = or_else (new single_elimination (seeds 5)) (fresh single_elimination [])

abbrev five_next : Tournament
five_next = or_else (record_outcome 1 Outcome.a five) five

five-is_ok :
    (is_ok (new single_elimination (seeds 5)) ≡ true)
    × (is_ok (record_outcome 1 Outcome.a five) ≡ true)
unfolding engine
five-is_ok = (refl, refl)

five-new : new single_elimination (seeds 5) ≡ ok five
five-new =
    or_else-is_ok (new single_elimination (seeds 5)) (fresh single_elimination []) five-is_ok.0

five-record : record_outcome 1 Outcome.a five ≡ ok five_next
five-record = or_else-is_ok (record_outcome 1 Outcome.a five) five five-is_ok.1

new-IsNumbered_example : IsNumbered five
new-IsNumbered_example = new-IsNumbered single_elimination (seeds 5) five five-new

record_outcome-Recorded_example : Recorded 1 Outcome.a five five_next
record_outcome-Recorded_example =
    record_outcome-Recorded 1 Outcome.a five five_next
      (new-IsNumbered single_elimination (seeds 5) five five-new) five-record

record_outcome_twice_example : record_outcome 1 Outcome.b five_next ≡ err not_recordable
record_outcome_twice_example =
    record_outcome_twice 1 Outcome.a Outcome.b five five_next
      (new-IsNumbered single_elimination (seeds 5) five five-new) five-record

-- The matches of five entrants, before any is advanced.
abbrev five_matches : List BracketMatch
five_matches = (build_single_elim (seeds 5) 1).matches

advance_single_elim_ends_example :
    ((advance_pass (advance_single_elim five_matches)).1 ≡ false)
    × ((advance_pass (advance_single_elim five_matches)).0 ≡ advance_single_elim five_matches)
advance_single_elim_ends_example = advance_single_elim_ends five_matches

build_single_elim-IsBracket_example :
    IsBracket 5 1 five_matches (build_single_elim (seeds 5) 1).rounds
build_single_elim-IsBracket_example =
    build_single_elim-IsBracket (seeds 5) 1 (omega arith) (omega arith)

build_single_elim-Starts_example :
    (k : ℕ) × (next_pow2 5 ≡ 2 ^ suc k) × All (Starts (seeds 5) k) five_matches
build_single_elim-Starts_example = build_single_elim-Starts (seeds 5) 1 (omega arith) (omega arith)

next_pow2-IsLeastPow_example : (e : ℕ) × (next_pow2 37 ≡ 2 ^ e) × IsLeastPow 37 e
next_pow2-IsLeastPow_example = next_pow2-IsLeastPow 37 (omega arith)

next_pow2_loop_diverges_example : next_pow2_loop 40 1 (2 ^ 30 + 1) ≡ none
next_pow2_loop_diverges_example = next_pow2_loop_diverges 40 (2 ^ 30 + 1) (omega arith)

abbrev four_entries : List SwissEntry
four_entries = map Swiss.new_entry (seeds 4)

pair_swiss_round-IsPairing_example :
    (used : List ℕ) × IsPairing four_entries used (Swiss.pair_swiss_round four_entries 1)
pair_swiss_round-IsPairing_example = pair_swiss_round-IsPairing four_entries 1

-- A round robin of four entrants with two results.
abbrev league : Tournament
league =
    let start = or_else (new round_robin (seeds 4)) (fresh round_robin []) in
    let one = or_else (record_outcome 1 Outcome.a start) start in
    or_else (record_outcome 2 Outcome.draw one) one

abbrev league_standings : List Standing
league_standings = get_or (standings league) []

league-standings : standings league ≡ some league_standings
unfolding engine standings
league-standings = refl

standings_totals_example :
    (total (λ s. s.wins) league_standings ≡ total_played decides league.match_map)
    × (total (λ s. s.losses) league_standings ≡ total_played decides league.match_map)
    × (total (λ s. s.draws) league_standings ≡ total_played ties league.match_map)
standings_totals_example = standings_totals league league_standings league-standings

standings-Ascending_example : Ascending RanksBefore league_standings
standings-Ascending_example = standings-Ascending league league_standings league-standings
