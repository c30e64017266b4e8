-- ===== src/Examples/Engine.antt =====
-- Runs of the engine on the inputs of engine.test.ts of web/src/lib/engine/__tests__.
use avax_build_games.Prelude.{
  ℕ, ◌≡◌, refl, Option, none, some, List, [], ◌∷◌, map, range, true, false,
}
use avax_build_games.Engine.Types.{
  Outcome, draw, Entrant, Result, ok, err, ◌>>=◌, single_elimination, round_robin, swiss,
  unknown_match, not_recordable, draw_not_allowed, too_few_entrants, TournamentFormat,
}
use avax_build_games.Engine.Tournament.{
  Tournament, new, record_outcome, pending, champion, start_as, recompute_complete, advance,
  is_single_elim, is_draw, ids_unique, no_rounds,
}
use avax_build_games.Engine.MatchMap.{update_match, advance_single_elim}
use avax_build_games.Engine.Types.{is_ready}
use avax_build_games.Engine.Ranking.{winners}
use avax_build_games.Engine.Seeding.{bit_reverse, log2, seed_slots, next_pow2}
use avax_build_games.Engine.SingleElim.{build_single_elim, make_match}
use avax_build_games.Engine.RoundRobin.{build_round_robin}

-- Entrants seeded from 1 to n.
abbrev pub seeds : ℕ → List Entrant
seeds n = map (λ i. record { id = i; seed = i }) (range 1 n)

abbrev record_all : List ℕ → Outcome → Tournament → Result Tournament
record_all [] o t = ok t
record_all (id ∷ ids) o t = do t' ← record_outcome id o t; record_all ids o t'

-- Side A has the better seed in every match of such a field.
abbrev played : TournamentFormat → ℕ → List ℕ → Result Tournament
played format n ids = do t ← new format (seeds n); record_all ids Outcome.a t

abbrev of_result {ℓ κ} : {A : Type ℓ} {B : Type κ} → (A → B) → Result A → Option B
of_result f (ok x) = some (f x)
of_result f (err e) = none

-- The engine, for the runs to unfold.
unfoldable pub engine : Unit {0}
unfolding new ids_unique no_rounds start_as record_outcome is_ready is_single_elim is_draw
    update_match advance advance_single_elim recompute_complete champion winners pending
    build_single_elim make_match log2 next_pow2 seed_slots bit_reverse build_round_robin
engine = tt

eight_champion : of_result champion (played single_elimination 8 (range 1 7)) ≡ some (some 1)
unfolding engine
eight_champion = refl

eight_winners :
    of_result winners (played single_elimination 8 (range 1 7))
    ≡ some (some (1 ∷ 2 ∷ 3 ∷ 4 ∷ 5 ∷ 6 ∷ 7 ∷ 8 ∷ []))
unfolding engine
eight_winners = refl

five_pending : of_result pending (played single_elimination 5 []) ≡ some (1 ∷ 6 ∷ [])
unfolding engine
five_pending = refl

swiss_run : of_result (λ t. t.complete) (played (swiss 3) 8 (range 1 12)) ≡ some true
unfolding engine
swiss_run = refl

-- With two entrants the second round of three has no pairing left: nothing is pending and the
-- tournament never completes.
swiss_stuck_pending : of_result pending (played (swiss 3) 2 (1 ∷ [])) ≡ some []
unfolding engine
swiss_stuck_pending = refl

swiss_stuck_complete : of_result (λ t. t.complete) (played (swiss 3) 2 (1 ∷ [])) ≡ some false
unfolding engine
swiss_stuck_complete = refl

round_robin_run :
    of_result winners (played round_robin 4 (range 1 6)) ≡ some (some (1 ∷ 2 ∷ 3 ∷ 4 ∷ []))
unfolding engine
round_robin_run = refl

draw_refused : played single_elimination 4 [] >>= record_outcome 1 draw ≡ err draw_not_allowed
unfolding engine
draw_refused = refl

too_few : new single_elimination (seeds 1) ≡ err too_few_entrants
unfolding engine
too_few = refl

twice_refused : played single_elimination 4 (1 ∷ 1 ∷ []) ≡ err not_recordable
unfolding engine
twice_refused = refl

unknown_refused : played single_elimination 4 (99 ∷ []) ≡ err unknown_match
unfolding engine
unknown_refused = refl
