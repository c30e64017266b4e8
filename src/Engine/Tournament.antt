-- ===== src/Engine/Tournament.antt =====
-- The class `Tournament` of tournament.ts in web/src/lib/engine: its state, its constructor, and the
-- recording of outcomes. A method returns the new state.
pub mod Entrants
pub mod Ids
pub mod Meetings
pub mod Played
pub mod Recording
pub mod Rematches
pub mod Unique
use avax_build_games.Prelude.{
  ℕ, zero, suc, ◌+◌, Bool, true, false, not, ◌&&◌, ◌||◌, Option, none, some, is_some, List, [], ◌∷◌,
  map, length, any, all, find, filter, contains, insert, lookup, get_or, set, ltb, ◌==◌,
  if◌then◌else◌,
}
use avax_build_games.Engine.Types.{
  MatchId, Outcome, draw, void, Entrant, BracketMatch, is_ready, is_bye, match_winner,
  TournamentFormat, single_elimination, round_robin, swiss, TournamentError, too_few_entrants,
  duplicate_entrant, invalid_swiss_rounds, unknown_match, not_recordable, draw_not_allowed, Result,
  ok, err,
}
use avax_build_games.Engine.SingleElim.{build_single_elim}
use avax_build_games.Engine.RoundRobin.{build_round_robin}
use avax_build_games.Engine.Swiss.{SwissEntry, Pairing, new_entry, entry_at}
use avax_build_games.Engine.Swiss
use avax_build_games.Engine.SwissResults.{apply_results}
use avax_build_games.Engine.MatchMap.{
  get_match, set_matches, update_match, by_id, advance_single_elim,
}

pub record Tournament : Type 0 where
  pub format : TournamentFormat
  pub entrants : List Entrant
  pub match_map : List BracketMatch
  pub next_id : MatchId
  pub complete : Bool
  pub swiss_entries : Option (List SwissEntry)
  pub swiss_round : ℕ

unfoldable pub ids_unique_from : List ℕ → List Entrant → Bool
ids_unique_from seen [] = true
ids_unique_from seen (e ∷ es) =
    if contains e.id seen then false else ids_unique_from (e.id ∷ seen) es

unfoldable pub ids_unique : List Entrant → Bool
unfolding ids_unique_from
ids_unique entrants = ids_unique_from [] entrants

unfoldable pub matches : Tournament → List BracketMatch
unfolding by_id
matches t = by_id t.match_map

unfoldable pub pending : Tournament → List MatchId
unfolding matches is_ready
pending t = map (λ m. m.id) (filter is_ready (matches t))

pub is_decided_final : BracketMatch → Bool
is_decided_final m = not (is_some m.winner_to) && is_some m.outcome

-- The winner of the first match with no target and an outcome.
unfoldable pub champion : Tournament → Option ℕ
unfolding matches is_decided_final match_winner
champion t = elim (find is_decided_final (matches t)) [
  | none ↦ none
  | some m ↦ elim (match_winner m) [ none ↦ none | some e ↦ some e.id ]
]

-- Whether `m` counts in `total` of a Swiss tournament.
counts_in_total : BracketMatch → Bool
unfolding is_bye
counts_in_total m = not (is_bye m)

is_complete_as : TournamentFormat → Tournament → Bool
unfolding matches is_decided_final counts_in_total
is_complete_as single_elimination t = any is_decided_final (matches t)
is_complete_as round_robin t =
    ltb 0 (length t.match_map) && all (λ m. is_some m.outcome) (matches t)
is_complete_as (swiss rounds) t =
    let total = length (filter counts_in_total (matches t)) in
    let decided = length (filter (λ m. is_some m.outcome) (matches t)) in
    rounds == t.swiss_round + 1 && ltb 0 total && total == decided

unfoldable pub recompute_complete : Tournament → Tournament
unfolding is_complete_as
recompute_complete t = record t { complete = is_complete_as t.format t }

-- The match that a pairing of the current round becomes.
swiss_match : ℕ → Pairing → BracketMatch
swiss_match round p = record {
  id = p.id;
  round = round;
  slot = 0;
  a = some p.a;
  b = some p.b;
  outcome = none;
  winner_to = none;
}

unfoldable pub pair_swiss_round : Tournament → Tournament
unfolding Swiss.pair_swiss_round swiss_match set_matches
pair_swiss_round t = elim t.swiss_entries [
  | none ↦ t
  | some entries ↦
      let paired = Swiss.pair_swiss_round entries t.next_id in
      record t {
        next_id = t.next_id + length paired.out;
        swiss_entries = some paired.entries;
        match_map = set_matches (map (swiss_match t.swiss_round) paired.out) t.match_map;
      }
]

unfoldable pub swiss_round_open : Tournament → Bool
unfolding is_ready
swiss_round_open t =
    any (λ m. m.round == t.swiss_round && not (is_some m.outcome) && is_ready m) t.match_map

unfoldable pub apply_swiss_results : Tournament → Tournament
unfolding apply_results
apply_swiss_results t = elim t.swiss_entries [
  | none ↦ t
  | some entries ↦ record t {
    swiss_entries = some (apply_results t.swiss_round t.match_map entries);
  }
]

-- The end of a Swiss round: the results count, and the next round is paired if there is one.
unfoldable pub close_swiss_round : ℕ → Tournament → Tournament
unfolding apply_swiss_results pair_swiss_round
close_swiss_round max_rounds t =
    let applied = apply_swiss_results t in
    if ltb (applied.swiss_round + 1) max_rounds
    then pair_swiss_round (record applied { swiss_round = applied.swiss_round + 1 })
    else applied

advance_as : TournamentFormat → Tournament → Tournament
unfolding recompute_complete close_swiss_round swiss_round_open
advance_as single_elimination t =
    recompute_complete (record t { match_map = advance_single_elim t.match_map })
advance_as round_robin t = recompute_complete t
advance_as (swiss rounds) t =
    if swiss_round_open t then t else recompute_complete (close_swiss_round rounds t)

unfoldable pub advance : Tournament → Tournament
unfolding advance_as
advance t = advance_as t.format t

unfoldable pub is_single_elim : TournamentFormat → Bool
is_single_elim single_elimination = true
is_single_elim round_robin = false
is_single_elim (swiss rounds) = false

unfoldable pub is_draw : Outcome → Bool
is_draw draw = true
is_draw Outcome.a = false
is_draw Outcome.b = false
is_draw void = false

abbrev pub set_outcome : Outcome → BracketMatch → BracketMatch
set_outcome o m = record m { outcome = some o }

-- The method `record`, whose name is a keyword here.
unfoldable pub record_outcome : MatchId → Outcome → Tournament → Result Tournament
record_outcome id o t = elim (get_match id t.match_map) [
  | none ↦ err unknown_match
  | some m ↦
      if not (is_ready m)
      then err not_recordable
      else if is_single_elim t.format && is_draw o
      then err draw_not_allowed
      else ok (advance (record t { match_map = update_match id (set_outcome o) t.match_map }))
]

-- The state that `new` has before it makes matches.
abbrev pub fresh : TournamentFormat → List Entrant → Tournament
fresh format entrants = record {
  format = format;
  entrants = entrants;
  match_map = [];
  next_id = 1;
  complete = false;
  swiss_entries = none;
  swiss_round = 0;
}

-- The matches of a builder, set one by one.
abbrev with_matches : Tournament → List BracketMatch → Tournament
with_matches t ms = record t {
  next_id = t.next_id + length ms;
  match_map = set_matches ms t.match_map;
}

unfoldable pub start_as : TournamentFormat → Tournament → Tournament
unfolding build_single_elim build_round_robin set_matches pair_swiss_round new_entry
start_as single_elimination t =
    let built = with_matches t (build_single_elim t.entrants t.next_id).matches in
    record built { match_map = advance_single_elim built.match_map }
start_as round_robin t = with_matches t (build_round_robin t.entrants t.next_id).matches
start_as (swiss rounds) t =
    pair_swiss_round (record t { swiss_entries = some (map new_entry t.entrants); swiss_round = 0 })

unfoldable pub no_rounds : TournamentFormat → Bool
no_rounds single_elimination = false
no_rounds round_robin = false
no_rounds (swiss rounds) = rounds == 0

unfoldable pub new : TournamentFormat → List Entrant → Result Tournament
unfolding start_as
new format entrants =
    if ltb (length entrants) 2
    then err too_few_entrants
    else if not (ids_unique entrants)
    then err duplicate_entrant
    else if no_rounds format
    then err invalid_swiss_rounds
    else ok (recompute_complete (start_as format (fresh format entrants)))
