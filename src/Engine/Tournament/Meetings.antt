-- ===== src/Engine/Tournament/Meetings.antt =====
-- The meetings of a round robin tournament.
use avax_build_games.Prelude.{ℕ, ◌≡◌, ◌≢◌, refl, sym, ap, subst, ◌∙◌, true, List, [], contains}
use avax_build_games.Engine.Types.{Entrant, Outcome, ok, round_robin, entrant_ids}
use avax_build_games.Engine.Meetings.{meetings, meetings-update_match}
use avax_build_games.Engine.MatchMap.{update_match}
use avax_build_games.Engine.RoundRobin.{build_round_robin}
use avax_build_games.Engine.RoundRobin.Ids.{build_round_robin-Numbered}
use avax_build_games.Engine.RoundRobin.Meetings.{build_round_robin-meets}
use avax_build_games.Engine.Tournament.{
  Tournament, recompute_complete, advance_as, advance, set_outcome, record_outcome, fresh, start_as,
  new,
}
use avax_build_games.Engine.Tournament.Entrants.{new-StartedFrom}
use avax_build_games.Engine.Tournament.Ids.{record_outcome-RecordedFrom, set_matches-append}
use avax_build_games.Engine.Tournament.Played.{Played, begins, records}

module _ (x y : ℕ) where
  record MeetsOnce (t : Tournament) : Type 0 where
    is_round_robin : t.format ≡ round_robin
    once : meetings x y t.match_map ≡ 1

  recompute_complete-MeetsOnce : (t : Tournament) → MeetsOnce t → MeetsOnce (recompute_complete t)
  unfolding recompute_complete
  recompute_complete-MeetsOnce t h = record { is_round_robin = h.is_round_robin; once = h.once }

  record_outcome-MeetsOnce :
      (id : ℕ) (o : Outcome) (t t' : Tournament)
      → record_outcome id o t ≡ ok t'
      → MeetsOnce t
      → MeetsOnce t'
  unfolding advance advance_as
  record_outcome-MeetsOnce id o t t' e h =
      let from = record_outcome-RecordedFrom id o t t' e in
      let recorded = record t { match_map = update_match id (set_outcome o) t.match_map } in
      let same = meetings-update_match x y id (set_outcome o) t.match_map (λ m. refl) (λ m. refl) in
      subst MeetsOnce (sym from.advanced) (
        subst (λ f. MeetsOnce (advance_as f recorded)) (sym h.is_round_robin)
          (recompute_complete-MeetsOnce recorded
            (record { is_round_robin = h.is_round_robin; once = same ∙ h.once })))

  module _ (es : List Entrant) (x_in : contains x (entrant_ids es) ≡ true)
      (y_in : contains y (entrant_ids es) ≡ true) (ne : x ≢ y) where
    new-MeetsOnce : (t : Tournament) → new round_robin es ≡ ok t → MeetsOnce t
    unfolding start_as
    new-MeetsOnce t e =
        let from = new-StartedFrom round_robin es t e in
        let ms = (build_round_robin es 1).matches in
        let stored = set_matches-append 1 1 ms [] refl tt (build_round_robin-Numbered es 1) in
        subst MeetsOnce (sym from.started) (
          recompute_complete-MeetsOnce (start_as round_robin (fresh round_robin es)) (record {
            is_round_robin = refl;
            once =
                ap (meetings x y) stored
                ∙ build_round_robin-meets es 1 x y from.unique x_in y_in ne;
          }))

    Played-MeetsOnce : {t : Tournament} → Played round_robin es t → MeetsOnce t
    Played-MeetsOnce (begins {t} started) = new-MeetsOnce t started
    Played-MeetsOnce (records {t} {t'} id o before recorded) =
        record_outcome-MeetsOnce id o t t' recorded (Played-MeetsOnce before)

-- In a round robin every two entrants have exactly one match, whatever results `record` has taken.
pub round_robin_meets_once :
    (es : List Entrant) (t : Tournament) (x y : ℕ)
    → Played round_robin es t
    → contains x (entrant_ids es) ≡ true
    → contains y (entrant_ids es) ≡ true
    → x ≢ y
    → meetings x y t.match_map ≡ 1
round_robin_meets_once es t x y played x_in y_in ne =
    (Played-MeetsOnce x y es x_in y_in ne played).once
