-- ===== src/Engine/SingleElim.antt =====
-- singleElim.ts of web/src/lib/engine: the construction of a single-elimination bracket.
pub mod Placement
pub mod Links
pub mod Sides
use avax_build_games.Prelude.{
  ℕ, zero, suc, ◌+◌, ◌*◌, ◌/◌, ◌%◌, ◌^◌, Option, none, some, List, [], ◌∷◌, map, length, get_or,
  set, replicate, range, concat_map, sort, ltb, leb, ◌==◌, if◌then◌else◌, max,
}
use avax_build_games.Engine.Types.{MatchId, Side, Entrant, WinnerTo, BracketMatch}
use avax_build_games.Engine.Seeding.{next_pow2, log2, seed_slots}

-- What a bracket builder returns.
pub record Build : Type 0 where
  pub matches : List BracketMatch
  pub rounds : ℕ

-- Seed order, ascending.
unfoldable pub seed_order : List Entrant → List Entrant
seed_order entrants = sort (λ x y. leb x.seed y.seed) entrants

-- `slots.forEach((slot, rank) => ...)`: the slots past the last entrant are left alone.
unfoldable pub place_seeds : List ℕ → List Entrant → List (Option Entrant) → List (Option Entrant)
place_seeds [] ordered slot_entrant = slot_entrant
place_seeds (slot ∷ slots) [] slot_entrant = slot_entrant
place_seeds (slot ∷ slots) (e ∷ ordered) slot_entrant =
    place_seeds slots ordered (set slot_entrant slot (some e))

unfoldable pub slot_entrants : List Entrant → ℕ → List (Option Entrant)
unfolding place_seeds seed_order
slot_entrants entrants bracket =
    place_seeds (seed_slots bracket) (seed_order entrants) (replicate bracket none)

-- The rows of match ids, for the rounds from `r` on: `bracket >> (r + 1)` ids in round `r`.
unfoldable pub id_rows : ℕ → ℕ → ℕ → MatchId → List (List MatchId)
id_rows zero r bracket next_id = []
id_rows (suc left) r bracket next_id =
    range next_id (bracket / 2 ^ suc r)
    ∷ id_rows left (suc r) bracket (next_id + bracket / 2 ^ suc r)

-- ids[r][i], at indices that the rows have
unfoldable pub id_at : List (List MatchId) → ℕ → ℕ → MatchId
id_at ids r i = get_or (get_or ids r []) i 0

-- The entrant that a match of round `r` starts with in slot `s`.
starting : List (Option Entrant) → ℕ → ℕ → Option Entrant
starting slot_entrant zero s = get_or slot_entrant s none
starting slot_entrant (suc r) s = none

winner_target : List (List MatchId) → ℕ → ℕ → ℕ → Option WinnerTo
unfolding id_at
winner_target ids rounds r m_idx =
    if ltb (suc r) rounds
    then some (record {
      match_id = id_at ids (suc r) (m_idx / 2);
      side = if m_idx % 2 == 0 then Side.a else Side.b;
    })
    else none

-- Match `m_idx` of round `r`.
unfoldable pub make_match : List (Option Entrant) → List (List MatchId) → ℕ → ℕ → ℕ → BracketMatch
unfolding id_at starting winner_target
make_match slot_entrant ids rounds r m_idx = record {
  id = id_at ids r m_idx;
  round = r;
  slot = m_idx;
  a = starting slot_entrant r (m_idx * 2);
  b = starting slot_entrant r (m_idx * 2 + 1);
  outcome = none;
  winner_to = winner_target ids rounds r m_idx;
}

unfoldable pub bracket_matches :
    List (Option Entrant) → List (List MatchId) → ℕ → ℕ → List BracketMatch
bracket_matches slot_entrant ids bracket rounds =
    concat_map (λ r. map (make_match slot_entrant ids rounds r) (range 0 (bracket / 2 ^ suc r)))
      (range 0 rounds)

unfoldable pub build_single_elim : List Entrant → MatchId → Build
unfolding slot_entrants id_rows bracket_matches
build_single_elim entrants start_id =
    let bracket = next_pow2 (max (length entrants) 2) in
    let rounds = log2 bracket in
    let ids = id_rows rounds 0 bracket start_id in
    record {
      matches = bracket_matches (slot_entrants entrants bracket) ids bracket rounds;
      rounds = rounds;
    }
