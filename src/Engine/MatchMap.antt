-- ===== src/Engine/MatchMap.antt =====
-- The field `matchMap` of tournament.ts in web/src/lib/engine, a map from ids to matches, and the
-- advancement of winners in a single-elimination bracket. The key of a match is its id, so the map
-- is the list of its matches in the order in which they were first set.
pub mod Fixpoint
pub mod Keeps
pub mod Sides
use avax_build_games.Prelude.{
  ℕ, zero, suc, ◌+◌, ◌*◌, Bool, true, false, not, ◌&&◌, ◌||◌, Option, none, some, is_some, List, [],
  ◌∷◌, map, length, any, find, sort, leb, ◌==◌, if◌then◌else◌,
}
use avax_build_games.Engine.Types.{
  MatchId, Side, Outcome, Entrant, WinnerTo, BracketMatch, outcome_winner, match_side,
}

-- matchMap.get(id)
abbrev pub get_match : MatchId → List BracketMatch → Option BracketMatch
get_match id ms = find (λ m. m.id == id) ms

-- matchMap.set(m.id, m)
unfoldable pub set_match : BracketMatch → List BracketMatch → List BracketMatch
set_match m [] = m ∷ []
set_match m (x ∷ ms) = if x.id == m.id then m ∷ ms else x ∷ set_match m ms

unfoldable pub set_matches : List BracketMatch → List BracketMatch → List BracketMatch
unfolding set_match
set_matches [] ms = ms
set_matches (m ∷ more) ms = set_matches more (set_match m ms)

-- A write to a field of the match that `get(id)` returns.
unfoldable pub update_match :
    MatchId → (BracketMatch → BracketMatch) → List BracketMatch → List BracketMatch
update_match id f [] = []
update_match id f (m ∷ ms) = if m.id == id then f m ∷ ms else m ∷ update_match id f ms

-- matches(): ordered by id
unfoldable pub by_id : List BracketMatch → List BracketMatch
by_id ms = sort (λ x y. leb x.id y.id) ms

-- The outcome that the first step of a pass writes: a bye of round 0 goes to the side that is there.
unfoldable pub bye_outcome : BracketMatch → Option Outcome
bye_outcome m =
    if m.round == 0 && not (is_some m.outcome)
    then (if is_some m.a && not (is_some m.b)
        then some Outcome.a
        else if not (is_some m.a) && is_some m.b
        then some Outcome.b
        else none)
    else none

unfoldable pub complete_bye : BracketMatch → BracketMatch
unfolding bye_outcome
complete_bye m = elim (bye_outcome m) [ none ↦ m | some o ↦ record m { outcome = some o } ]

-- An entry of the array `updates`.
pub record Update : Type 0 where
  pub tgt : MatchId
  pub side : Side
  pub winner : Entrant

-- Whether the side of the target that the winner goes to is still free.
free_target : List BracketMatch → WinnerTo → Entrant → Option Update
unfolding match_side
free_target ms w winner = elim (get_match w.match_id ms) [
  | none ↦ none
  | some target ↦
      if is_some (match_side target w.side)
      then none
      else some (record { tgt = w.match_id; side = w.side; winner = winner })
]

-- The update that the second step of a pass collects for a match.
unfoldable pub winner_update : List BracketMatch → BracketMatch → Option Update
unfolding free_target outcome_winner match_side
winner_update ms m = elim m.outcome [
  | none ↦ none
  | some o ↦ elim m.winner_to [
    | none ↦ none
    | some w ↦ elim (outcome_winner o) [
      | none ↦ none
      | some s ↦ elim (match_side m s) [ none ↦ none | some winner ↦ free_target ms w winner ]
    ]
  ]
]

unfoldable pub collect_updates : List BracketMatch → List BracketMatch → List Update
unfolding winner_update
collect_updates ms [] = []
collect_updates ms (m ∷ rest) = elim (winner_update ms m) [
  | none ↦ collect_updates ms rest
  | some u ↦ u ∷ collect_updates ms rest
]

unfoldable pub set_side : Side → Entrant → BracketMatch → BracketMatch
set_side Side.a e m = record m { a = some e }
set_side Side.b e m = record m { b = some e }

unfoldable pub apply_updates : List Update → List BracketMatch → List BracketMatch
unfolding update_match set_side
apply_updates [] ms = ms
apply_updates (u ∷ us) ms = apply_updates us (update_match u.tgt (set_side u.side u.winner) ms)

unfoldable pub is_empty {ℓ} : {A : Type ℓ} → List A → Bool
is_empty [] = true
is_empty (x ∷ xs) = false

-- The body of the endless loop: the matches after it, and `changed`.
unfoldable pub advance_pass : List BracketMatch → List BracketMatch × Bool
unfolding complete_bye collect_updates apply_updates is_empty
advance_pass ms =
    let completed = map complete_bye ms in
    let updates = collect_updates completed completed in
    (
      apply_updates updates completed,
      any (λ m. is_some (bye_outcome m)) ms || not (is_empty updates),
    )

unfoldable pub advance_loop : ℕ → List BracketMatch → List BracketMatch
unfolding advance_pass
advance_loop zero ms = ms
advance_loop (suc fuel) ms =
    let (ms', changed) = advance_pass ms in
    elim changed [ true ↦ advance_loop fuel ms' | false ↦ ms' ]

-- Each pass but the last fills an outcome or a side, of which a match has three.
unfoldable pub advance_single_elim : List BracketMatch → List BracketMatch
unfolding advance_loop
advance_single_elim ms = advance_loop (3 * length ms + 1) ms
