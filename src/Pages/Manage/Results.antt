-- ===== src/Pages/Manage/Results.antt =====
-- The brackets of the organizer's page, and the routes that replay them.
use avax_build_games.Prelude.{ℕ, ◌≡◌, refl, inl, inr, false, ◌++◌, List, [], ◌∷◌, map, All}
use avax_build_games.Engine.Types.{Outcome, draw, void, Result, ok, err, ◌>>=◌, Result-cases}
use avax_build_games.Engine.Tournament.{Tournament, new, record_outcome}
use avax_build_games.Web.Store.{BracketState, BracketFormat, MatchResult}
use avax_build_games.Web.Replay.{format_as, format_of, entrant_of}
use avax_build_games.Web.Replay
use avax_build_games.Pages.Manage.{outcome_of, replay, reconstruct, outcome_text, record_result}
use avax_build_games.Web.Text.{codes, ◌===◌}

outcome_of-outcome_text : (o : Outcome) → outcome_of (outcome_text o) ≡ o
unfolding outcome_of
outcome_of-outcome_text Outcome.a = refl
outcome_of-outcome_text Outcome.b = refl
outcome_of-outcome_text draw = refl
outcome_of-outcome_text void = refl

>>=_assoc :
    (x : Result Tournament) (f g : Tournament → Result Tournament)
    → (do t ← x; t' ← f t; g t') ≡ (do t' ← (do t ← x; f t); g t')
>>=_assoc (ok t) f g = refl
>>=_assoc (err e) f g = refl

bind_ok : (x : Result Tournament) → (do t ← x; ok t) ≡ x
bind_ok (ok t) = refl
bind_ok (err e) = refl

replay-append :
    (rs : List MatchResult) (match_id : ℕ) (o : Outcome) (t : Tournament)
    → replay (rs ++ record { match_id = match_id; outcome = outcome_text o } ∷ []) t
      ≡ (do t' ← replay rs t; record_outcome match_id o t')
unfolding replay
replay-append [] match_id o t =
    rw (outcome_of-outcome_text o) (bind_ok (record_outcome match_id o t))
replay-append (r ∷ rs) match_id o t =
    elim (Result-cases (record_outcome r.match_id (outcome_of r.outcome) t)) [
      | inl (t', e) ↦ rw e (replay-append rs match_id o t')
      | inr (x, e) ↦ rw e refl
    ]

format_as_rounds :
    (f : BracketFormat) (b b' : BracketState)
    → b.swiss_rounds ≡ b'.swiss_rounds
    → format_as f b ≡ format_as f b'
unfolding format_as
format_as_rounds BracketFormat.swiss b b' h = rw h refl
format_as_rounds BracketFormat.round_robin b b' h = refl
format_as_rounds BracketFormat.single_elimination b b' h = refl

format_of-record_result :
    (match_id : ℕ) (o : Outcome) (b : BracketState)
    → format_of (record_result match_id o b) ≡ format_of b
unfolding format_of record_result
format_of-record_result match_id o b = format_as_rounds b.format (record_result match_id o b) b refl

replay_after-record_result :
    (match_id : ℕ) (o : Outcome) (b : BracketState) (x : Result Tournament)
    → (do t ← x; replay (record_result match_id o b).results t)
      ≡ (do t ← (do t ← x; replay b.results t); record_outcome match_id o t)
unfolding record_result
replay_after-record_result match_id o b (ok t) = replay-append b.results match_id o t
replay_after-record_result match_id o b (err e) = refl

-- The bracket that recordResult stores replays to the tournament before, with the outcome recorded:
-- what fails, fails in the same way.
pub reconstruct-record_result :
    (match_id : ℕ) (o : Outcome) (b : BracketState)
    → reconstruct (record_result match_id o b) ≡ (do t ← reconstruct b; record_outcome match_id o t)
unfolding reconstruct record_result
reconstruct-record_result match_id o b =
    let same = format_of-record_result match_id o b in
    rw (reconstruct, same)
      (replay_after-record_result match_id o b (new (format_of b) (map entrant_of b.players)))

-- Whether an outcome is other than Void.
abbrev pub IsPlayed : MatchResult → Type 0
IsPlayed r = (r.outcome === codes "Void") ≡ false

outcome_of-outcome_of :
    (r : MatchResult) → IsPlayed r → outcome_of r.outcome ≡ Replay.outcome_of r.outcome
unfolding outcome_of Replay.outcome_of
outcome_of-outcome_of r h = rw h refl

replay-replay :
    (rs : List MatchResult) (t : Tournament) → All IsPlayed rs → replay rs t ≡ Replay.replay rs t
unfolding replay Replay.replay
replay-replay [] t h = refl
replay-replay (r ∷ rs) t (hr, h) =
    rw (outcome_of-outcome_of r hr)
      (elim (Result-cases (record_outcome r.match_id (Replay.outcome_of r.outcome) t)) [
        | inl (t', e) ↦ rw e (replay-replay rs t' h)
        | inr (x, e) ↦ rw e refl
      ])

-- As long as no result is Void, the page and the routes that take reports and finalize replay a
-- bracket to the same tournament, or fail in the same way.
pub reconstruct-reconstruct :
    (b : BracketState) → All IsPlayed b.results → reconstruct b ≡ Replay.reconstruct b
unfolding reconstruct Replay.reconstruct
reconstruct-reconstruct b h = elim (Result-cases (new (format_of b) (map entrant_of b.players))) [
  | inl (t, e) ↦ rw (reconstruct, Replay.reconstruct, e) (replay-replay b.results t h)
  | inr (x, e) ↦ rw (reconstruct, Replay.reconstruct, e) refl
]
