-- ===== src/Pages/Cup.antt =====
-- web/src/app/cup/[id]/page.tsx: what the public page of a tournament polls and shows. Its reconstruct
-- repeats that of the report route.
pub mod Final
use avax_build_games.Prelude.{
  ℕ, suc, ◌+◌, Bool, true, false, not, ◌&&◌, Option, none, some, List, [], ◌∷◌, ◌++◌, map, filter,
  length, lookup, contains, sort, leb, ◌==◌, if◌then◌else◌,
}
use mathlib.Core.Option.{get_or}
use avax_build_games.Engine.Types.{Entrant, Outcome, BracketMatch, TournamentError, ok, err}
use avax_build_games.Engine.Tournament.{Tournament, matches, pending}
use avax_build_games.Engine.Ranking.{winners}
use avax_build_games.Web.Text.{Text, codes, show}
use avax_build_games.Web.Http.{Response, json}
use avax_build_games.Web.Store.{BracketState, BracketFormat, Player, TournamentRecord}
use avax_build_games.Web.Replay.{reconstruct}
use avax_build_games.Pages.Play.{players_by_id}

-- The state of the page; `last_updated` is a time.
pub record Cup : Type 0 where
  pub bracket : Option BracketState
  pub loading : Bool
  pub last_updated : Option ℕ

unfoldable pub opened : Cup
opened = record { bracket = none; loading = true; last_updated = none }

-- json.bracket of what the route answers: an error has no such field.
unfoldable pub bracket_in : Response (TournamentRecord × Option BracketState) → Option BracketState
bracket_in (json reply) = reply.1
bracket_in (Response.json_error status message) = none
bracket_in (Response.text_error status message) = none
bracket_in (Response.threw e) = none
bracket_in Response.crashed = none

-- `none` if fetch or the parse of its answer throws.
unfoldable pub load : ℕ → Option (Option BracketState) → Cup → Cup
load now none st = st
load now (some bracket) st = record st { bracket = bracket; last_updated = some now }

-- The load that the effect starts, up to its finally.
unfoldable pub first_load : ℕ → Option (Option BracketState) → Cup → Cup
unfolding load
first_load now reply st = record (load now reply st) { loading = false }

-- A side of a match; "bye" is shown where there is no player.
pub record CupRow : Type 0 where
  pub player : Option Player
  pub won : Bool
  pub lost : Bool

pub record CupMatch : Type 0 where
  pub id : ℕ
  pub rows : List CupRow
  pub live : Bool

pub record CupRound : Type 0 where
  pub label : Text
  pub matches : List CupMatch

pub record Placed : Type 0 where
  pub place : ℕ
  pub player : Player

pub record CupShown : Type 0 where
  pub champion : Option Player
  pub complete : Bool
  pub disputes : ℕ
  pub rounds : List CupRound
  pub standings : List Placed

pub data CupView : Type 0 where
  loading not_found : CupView
  shown : CupShown → CupView
  -- the render throws an engine error, or another
  threw : TournamentError → CupView
  crashed : CupView

is_single : BracketFormat → Bool
is_single BracketFormat.single_elimination = true
is_single BracketFormat.round_robin = false
is_single BracketFormat.swiss = false

unfoldable pub round_label : BracketFormat → ℕ → ℕ → Text
unfolding is_single show
round_label format r total =
    if not (is_single format)
    then codes "Round " ++ show (r + 1)
    else if r + 1 == total
    then codes "Final"
    else if r + 2 == total
    then codes "Semifinals"
    else if r + 3 == total
    then codes "Quarterfinals"
    else codes "Round " ++ show (r + 1)

-- `new Set`, in the order of insertion
members_from : List ℕ → List ℕ → List ℕ
members_from seen [] = []
members_from seen (x ∷ xs) =
    let rest = members_from (x ∷ seen) xs in if contains x seen then rest else x ∷ rest

unfoldable pub round_numbers : List BracketMatch → List ℕ
unfolding members_from
round_numbers ms = sort leb (members_from [] (map (λ (m : BracketMatch). m.round) ms))

side_player : List Player → Option Entrant → Option Player
unfolding players_by_id
side_player players none = none
side_player players (some e) = lookup e.id (players_by_id players [])

is_a : Option Outcome → Bool
is_a none = false
is_a (some Outcome.a) = true
is_a (some o) = false

is_b : Option Outcome → Bool
is_b none = false
is_b (some Outcome.b) = true
is_b (some o) = false

unfoldable pub cup_match : List Player → List ℕ → BracketMatch → CupMatch
unfolding side_player is_a is_b
cup_match players live m = record {
  id = m.id;
  rows =
      record { player = side_player players m.a; won = is_a m.outcome; lost = is_b m.outcome }
      ∷ record { player = side_player players m.b; won = is_b m.outcome; lost = is_a m.outcome }
      ∷ [];
  live = contains m.id live;
}

cup_round : BracketState → Tournament → ℕ → ℕ → CupRound
unfolding round_label cup_match matches pending
cup_round b t total r = record {
  label = round_label b.format r total;
  matches =
      map (cup_match b.players (pending t))
        (filter (λ (m : BracketMatch). m.round == r) (matches t));
}

unfoldable pub cup_rounds : BracketState → Tournament → List CupRound
unfolding cup_round round_numbers matches
cup_rounds b t = let rs = round_numbers (matches t) in map (cup_round b t (length rs)) rs

-- The rows of the final standings from index `i` on; an id without a player has none.
unfoldable pub placed_from : List (ℕ × Player) → ℕ → List ℕ → List Placed
placed_from by_id i [] = []
placed_from by_id i (id ∷ ids) = elim (lookup id by_id) [
  | none ↦ placed_from by_id (suc i) ids
  | some p ↦ record { place = i + 1; player = p } ∷ placed_from by_id (suc i) ids
]

unfoldable pub first_player : List (ℕ × Player) → List ℕ → Option Player
first_player by_id [] = none
first_player by_id (id ∷ ids) = lookup id by_id

-- The page of a bracket that is replayed, with the winners of the engine if it is complete.
unfoldable pub shown_with : BracketState → Tournament → List ℕ → CupShown
unfolding cup_rounds placed_from first_player players_by_id
shown_with b t ids =
    let by_id = players_by_id b.players [] in
    record {
      champion = first_player by_id ids;
      complete = t.complete;
      disputes = length (get_or b.disputes []);
      rounds = cup_rounds b t;
      standings = placed_from by_id 0 ids;
    }

unfoldable pub cup_shown : BracketState → Tournament → CupView
unfolding shown_with winners
cup_shown b t =
    if t.complete
    then elim (winners t) [ none ↦ crashed | some ids ↦ shown (shown_with b t ids) ]
    else shown (shown_with b t [])

-- The engine is made before the tests on `loading` and the bracket.
unfoldable pub view_of : Bool → Option BracketState → CupView
unfolding reconstruct cup_shown
view_of is_loading none = if is_loading then loading else not_found
view_of is_loading (some b) = elim (reconstruct b) [
  | err e ↦ threw e
  | ok t ↦ if is_loading then loading else cup_shown b t
]

unfoldable pub cup_view : Cup → CupView
unfolding view_of
cup_view st = view_of st.loading st.bracket
