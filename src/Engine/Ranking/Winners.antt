-- ===== src/Engine/Ranking/Winners.antt =====
-- The winners of every tournament that is played.
use mathlib.Core.List.{Perm}
use avax_build_games.Prelude.{
  ℕ, ◌≡◌, refl, sym, subst, true, some, List, [], ◌∷◌, map, contains, All, arith,
}
use avax_build_games.Engine.Types.{
  Entrant, Standing, TournamentFormat, single_elimination, round_robin, swiss, entrant_ids,
}
use avax_build_games.Engine.MatchMap.Sides.{OfSides}
use avax_build_games.Engine.Tournament.{Tournament, ids_unique}
use avax_build_games.Engine.Tournament.Entrants.{PlayedBy, new-PlayedBy, record_outcome-PlayedBy}
use avax_build_games.Engine.Tournament.Played.{Played, begins, records, Played-ids_unique}
use avax_build_games.Engine.Ranking.{winners, winners_as, single_elim_order}
use avax_build_games.Engine.Ranking.Totality.{Known, standings-perm}
use avax_build_games.Engine.Ranking.Elimination.{single_elim_order-perm}

entrant_ids-Known :
    (es : List Entrant) (known : List ℕ)
    → ((i : ℕ) → contains i (entrant_ids es) ≡ true → contains i known ≡ true)
    → All (Known known) es
entrant_ids-Known [] known h = tt
entrant_ids-Known (e ∷ es) known h =
    (h e.id (ground arith), entrant_ids-Known es known λ i i_in. h i (ground (arith, i_in)))

pub Played-PlayedBy :
    (format : TournamentFormat) (es : List Entrant) {t : Tournament}
    → Played format es t
    → PlayedBy (Known (entrant_ids es)) es t
Played-PlayedBy format es (begins {t} started) =
    new-PlayedBy (Known (entrant_ids es)) format es t started
      (entrant_ids-Known es (entrant_ids es) λ i i_in. i_in)
Played-PlayedBy format es (records {t} {t'} id o before recorded) =
    record_outcome-PlayedBy (Known (entrant_ids es)) es id o t t' recorded
      (Played-PlayedBy format es before)

-- The winners exist, and are the entrants in some order.
pub record AllRanked (es : List Entrant) (t : Tournament) : Type 0 where
  pub ranking : List ℕ
  pub is_ranking : winners t ≡ some ranking
  pub all : Perm ranking (entrant_ids es)

winners_as-AllRanked :
    (format : TournamentFormat) (t : Tournament)
    → ids_unique t.entrants ≡ true
    → All (OfSides (Known (entrant_ids t.entrants))) t.match_map
    → (ws : List ℕ) × (winners_as format t ≡ some ws) × Perm ws (entrant_ids t.entrants)
unfolding winners_as
winners_as-AllRanked single_elimination t unique h =
    (single_elim_order t, refl, single_elim_order-perm t unique h)
winners_as-AllRanked round_robin t unique h =
    let st = standings-perm t h in (map (λ (s : Standing). s.id) st.0, rw st.1 refl, st.2)
winners_as-AllRanked (swiss rounds) t unique h =
    let st = standings-perm t h in (map (λ (s : Standing). s.id) st.0, rw st.1 refl, st.2)

-- In every format, and after any sequence of results that `record` takes, `winners` does not throw,
-- and lists the id of every entrant once.
pub winners-AllRanked :
    (format : TournamentFormat) (es : List Entrant) (t : Tournament)
    → Played format es t
    → AllRanked es t
unfolding winners
winners-AllRanked format es t played =
    let by = Played-PlayedBy format es played in
    let unique =
      subst (λ x. ids_unique x ≡ true) (sym by.entrants) (Played-ids_unique format es played) in
    let known =
      subst (λ x. All (OfSides (Known (entrant_ids x))) t.match_map) (sym by.entrants)
        by.all.matches in
    let ranked = winners_as-AllRanked t.format t unique known in
    record {
      ranking = ranked.0;
      is_ranking = ranked.1;
      all = subst (λ x. Perm ranked.0 (entrant_ids x)) by.entrants ranked.2;
    }
