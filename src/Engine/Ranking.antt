-- ===== src/Engine/Ranking.antt =====
-- standings() and winners() of tournament.ts in web/src/lib/engine.
pub mod Elimination
pub mod Standings
pub mod Totality
pub mod Winners
use avax_build_games.Prelude.{
  ℕ, suc, ◌+◌, Bool, true, false, not, ◌&&◌, Option, none, some, List, [], ◌∷◌, ◌++◌, map, sort,
  filter, insert, lookup, leb, ◌==◌, if◌then◌else◌,
}
use mathlib.Core.Option.{get_or}
use avax_build_games.Engine.Types.{
  Side, Outcome, draw, void, Entrant, BracketMatch, Standing, match_side, TournamentFormat,
  single_elimination, round_robin, swiss,
}
use avax_build_games.Engine.Tournament.{Tournament, champion}

-- In this file `none` stands for the TypeError that a use of `undefined` throws.
infixl 5 ◌>>=◌
abbrev pub ◌>>=◌ {ℓ κ} : {A : Type ℓ} {B : Type κ} → Option A → (A → Option B) → Option B
none >>= f = none
some x >>= f = f x

-- The ids of the entrants are distinct, so each has an entry of its own.
abbrev no_results : Entrant → Standing
no_results e = record { id = e.id; place = none; wins = 0; draws = 0; losses = 0 }

-- st.get(id)! and a write to one of its counts
unfoldable pub bump : ℕ → (Standing → Standing) → List Standing → Option (List Standing)
bump id f [] = none
bump id f (s ∷ st) =
    if s.id == id then some (f s ∷ st) else (do rest ← bump id f st; some (s ∷ rest))

abbrev win : Standing → Standing
win s = record s { wins = suc s.wins }

abbrev lose : Standing → Standing
lose s = record s { losses = suc s.losses }

abbrev tie : Standing → Standing
tie s = record s { draws = suc s.draws }

unfoldable pub count_outcome : Outcome → ℕ → ℕ → List Standing → Option (List Standing)
unfolding bump
count_outcome Outcome.a x y st = do won ← bump x win st; bump y lose won
count_outcome Outcome.b x y st = do won ← bump y win st; bump x lose won
count_outcome draw x y st = do tied ← bump x tie st; bump y tie tied
count_outcome void x y st = some st

unfoldable pub count_match : BracketMatch → List Standing → Option (List Standing)
unfolding count_outcome
count_match m st = elim m.outcome [
  | none ↦ some st
  | some o ↦ elim m.a [
    | none ↦ some st
    | some x ↦ elim m.b [ none ↦ some st | some y ↦ count_outcome o x.id y.id st ]
  ]
]

unfoldable pub count_matches : List BracketMatch → List Standing → Option (List Standing)
unfolding count_match
count_matches [] st = some st
count_matches (m ∷ ms) st = do counted ← count_match m st; count_matches ms counted

-- The comparison is at most 0: wins descending, then losses and id ascending.
unfoldable pub ranks_before : Standing → Standing → Bool
ranks_before x y =
    if x.wins == y.wins
    then (if x.losses == y.losses then leb x.id y.id else leb x.losses y.losses)
    else leb y.wins x.wins

unfoldable pub standings : Tournament → Option (List Standing)
unfolding count_matches ranks_before
standings t = do
  st ← count_matches t.match_map (map no_results t.entrants)
  some (sort ranks_before st)

abbrev loser_side_of : Outcome → Option Side
loser_side_of Outcome.a = some Side.b
loser_side_of Outcome.b = some Side.a
loser_side_of draw = none
loser_side_of void = none

-- The entrant that a match eliminates.
unfoldable pub match_loser : BracketMatch → Option Entrant
unfolding match_side
match_loser m = elim m.outcome [
  | none ↦ none
  | some o ↦ elim (loser_side_of o) [ none ↦ none | some s ↦ match_side m s ]
]

-- elimRound: null for an entrant that no match has eliminated.
unfoldable pub elim_rounds : List BracketMatch → List (ℕ × Option ℕ) → List (ℕ × Option ℕ)
unfolding match_loser
elim_rounds [] er = er
elim_rounds (m ∷ ms) er = elim (match_loser m) [
  | none ↦ elim_rounds ms er
  | some e ↦ elim_rounds ms (insert e.id (some m.round) er)
]

abbrev initial_rounds : List Entrant → List (ℕ × Option ℕ) → List (ℕ × Option ℕ)
initial_rounds [] er = er
initial_rounds (e ∷ es) er = initial_rounds es (insert e.id none er)

abbrev seeds_of : List Entrant → List (ℕ × ℕ) → List (ℕ × ℕ)
seeds_of [] m = m
seeds_of (e ∷ es) m = seeds_of es (insert e.id e.seed m)

-- elimRound.get(id) ?? 0
abbrev round_of : List (ℕ × Option ℕ) → ℕ → ℕ
round_of er id = get_or (get_or (lookup id er) none) 0

-- The comparison is at most 0: the round of elimination descending, then the seed ascending.
unfoldable pub eliminated_later : List (ℕ × Option ℕ) → List (ℕ × ℕ) → ℕ → ℕ → Bool
eliminated_later er seed_of x y =
    if round_of er x == round_of er y
    then leb (get_or (lookup x seed_of) 1_000_000_000) (get_or (lookup y seed_of) 1_000_000_000)
    else leb (round_of er y) (round_of er x)

abbrev is_champion : Option ℕ → ℕ → Bool
is_champion none id = false
is_champion (some c) id = c == id

abbrev first : Option ℕ → List ℕ
first none = []
first (some c) = c ∷ []

unfoldable pub single_elim_order : Tournament → List ℕ
unfolding elim_rounds eliminated_later champion
single_elim_order t =
    let er = elim_rounds t.match_map (initial_rounds t.entrants []) in
    let rest = filter (λ id. not (is_champion (champion t) id)) (map (λ p. p.0) er) in
    first (champion t) ++ sort (eliminated_later er (seeds_of t.entrants [])) rest

winners_as : TournamentFormat → Tournament → Option (List ℕ)
unfolding single_elim_order standings
winners_as single_elimination t = some (single_elim_order t)
winners_as round_robin t = do st ← standings t; some (map (λ s. s.id) st)
winners_as (swiss rounds) t = do st ← standings t; some (map (λ s. s.id) st)

unfoldable pub winners : Tournament → Option (List ℕ)
unfolding winners_as
winners t = winners_as t.format t
