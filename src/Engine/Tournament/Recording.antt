-- ===== src/Engine/Tournament/Recording.antt =====
-- What recording an outcome does to the matches of a tournament.
use avax_build_games.Prelude.{
  ℕ, ◌+◌, ◌≡◌, refl, sym, ap, subst, ◌∙◌, inl, inr, true, false, some, List, [], ◌∷◌, ◌++◌, arith,
  Bool-cases, ltb,
}
use mathlib.Core.Option.{some-injective}
use mathlib.Core.List.{append-nil}
use avax_build_games.Engine.Types.{
  Outcome, BracketMatch, is_ready, ok, err, not_recordable, TournamentFormat, single_elimination,
  round_robin, swiss,
}
use avax_build_games.Engine.MatchMap.{get_match, update_match, advance_single_elim}
use avax_build_games.Engine.MatchMap.Keeps.{
  Keeps, Keeps-refl, Keeps-trans, AllKeep, AllKeep-get_match, advance_single_elim-AllKeep,
  update_match-AllKeep,
}
use avax_build_games.Engine.Tournament.{
  Tournament, apply_swiss_results, close_swiss_round, recompute_complete, advance_as, advance,
  record_outcome, set_outcome, swiss_round_open,
}
use avax_build_games.Engine.Tournament.Ids.{
  IsNumbered, pair_swiss_round-append, apply_swiss_results-IsNumbered, AllKeep-IsNumbered,
  advance-IsNumbered, record_outcome-RecordedFrom,
}

-- Every match of `ms` is in `ns` under its id, in its place, with its outcome and the
-- entrants of its sides.
abbrev pub Outlives : List BracketMatch → List BracketMatch → Type 0
Outlives ms ns =
    (id : ℕ) (m : BracketMatch)
    → get_match id ms ≡ some m
    → (n : BracketMatch) × (get_match id ns ≡ some n) × Keeps m n

Outlives-refl : (ms : List BracketMatch) → Outlives ms ms
Outlives-refl ms id m h = (m, h, Keeps-refl m)

get_match-append :
    (id : ℕ) (ms xs : List BracketMatch) (m : BracketMatch)
    → get_match id ms ≡ some m
    → get_match id (ms ++ xs) ≡ some m
get_match-append id [] xs m h = cc
get_match-append id (x ∷ ms) xs m h = ground (arith, get_match-append id ms xs m)

apply_swiss_results-match_map : (t : Tournament) → (apply_swiss_results t).match_map ≡ t.match_map
unfolding apply_swiss_results
apply_swiss_results-match_map t = ground arith

close_swiss_round-append :
    (rounds : ℕ) (t : Tournament)
    → IsNumbered t
    → (xs : List BracketMatch) × ((close_swiss_round rounds t).match_map ≡ t.match_map ++ xs)
unfolding close_swiss_round
close_swiss_round-append rounds t h =
    let applied = apply_swiss_results t in
    let h' = apply_swiss_results-IsNumbered t h in
    let same = apply_swiss_results-match_map t in
    elim (Bool-cases (ltb (applied.swiss_round + 1) rounds)) [
      | inl e ↦
          let (xs, grown) =
            pair_swiss_round-append (record applied { swiss_round = applied.swiss_round + 1 })
              (record { ids = h'.ids; next = h'.next }) in
          rw e (xs, grown ∙ ap (λ ms. ms ++ xs) same)
      | inr e ↦ rw e ([], same ∙ sym (append-nil t.match_map))
    ]

append-Outlives : (ms ns xs : List BracketMatch) → ns ≡ ms ++ xs → Outlives ms ns
append-Outlives ms ns xs e id m h = rw e (m, get_match-append id ms xs m h, Keeps-refl m)

advance_as-Outlives :
    (format : TournamentFormat) (t : Tournament)
    → IsNumbered t
    → Outlives t.match_map (advance_as format t).match_map
unfolding advance_as recompute_complete
advance_as-Outlives single_elimination t h = λ id m found.
    AllKeep-get_match id t.match_map (advance_single_elim t.match_map) m
      (advance_single_elim-AllKeep t.match_map) found
advance_as-Outlives round_robin t h = Outlives-refl t.match_map
advance_as-Outlives (swiss rounds) t h = elim (Bool-cases (swiss_round_open t)) [
  | inl e ↦ rw (e, advance_as) (Outlives-refl t.match_map)
  | inr e ↦
      let (xs, grown) = close_swiss_round-append rounds t h in
      rw (e, advance_as)
        (append-Outlives t.match_map (close_swiss_round rounds t).match_map xs grown)
]

advance-Outlives : (t : Tournament) → IsNumbered t → Outlives t.match_map (advance t).match_map
unfolding advance
advance-Outlives t h = advance_as-Outlives t.format t h

get_match-update_match :
    (id : ℕ) (o : Outcome) (ms : List BracketMatch) (m : BracketMatch)
    → get_match id ms ≡ some m
    → get_match id (update_match id (set_outcome o) ms) ≡ some (set_outcome o m)
unfolding update_match
get_match-update_match id o [] m h = cc
get_match-update_match id o (x ∷ ms) m h = ground (arith, get_match-update_match id o ms m)

-- A match that is ready has no outcome yet, so that setting one keeps what is there.
set_outcome-Keeps : (o : Outcome) (m : BracketMatch) → is_ready m ≡ true → Keeps m (set_outcome o m)
unfolding is_ready
set_outcome-Keeps o m h = record {
  id = refl;
  round = refl;
  slot = refl;
  winner_to = refl;
  outcome = λ p e. absurd (ground arith);
  a = λ x e. e;
  b = λ x e. e;
}

-- The matches before and after a successful `record`.
pub record Recorded (id : ℕ) (o : Outcome) (t t' : Tournament) : Type 0 where
  pub numbered : IsNumbered t'
  pub match : BracketMatch
  pub found : get_match id t'.match_map ≡ some match
  pub outcome : match.outcome ≡ some o
  pub others : Outlives t.match_map t'.match_map

-- When `record` succeeds on a tournament with consecutive match ids, the ids stay consecutive, the
-- match has the outcome, and every match that was there keeps its id, round, slot, target, the
-- outcome it had and the entrants that it had on its sides.
pub record_outcome-Recorded :
    (id : ℕ) (o : Outcome) (t t' : Tournament)
    → IsNumbered t
    → record_outcome id o t ≡ ok t'
    → Recorded id o t t'
record_outcome-Recorded id o t t' h e =
    let from = record_outcome-RecordedFrom id o t t' e in
    let ns = update_match id (set_outcome o) t.match_map in
    let kept : AllKeep t.match_map ns =
      update_match-AllKeep id (set_outcome o) t.match_map λ m found.
        let same : m ≡ from.before = some-injective m from.before (sym found ∙ from.found) in
        set_outcome-Keeps o m (rw same from.ready) in
    let h' = AllKeep-IsNumbered t ns kept h in
    let mid : Tournament = record t { match_map = ns } in
    let (n, found, keeps) =
      advance-Outlives mid h' id (set_outcome o from.before)
        (get_match-update_match id o t.match_map from.before from.found) in
    subst (Recorded id o t) (sym from.advanced) (record {
      numbered = advance-IsNumbered mid h';
      match = n;
      found = found;
      outcome = keeps.outcome o refl;
      others = λ id' m found'.
          let (n', found'', k) = AllKeep-get_match id' t.match_map ns m kept found' in
          let (n'', found3, k') = advance-Outlives mid h' id' n' found'' in
          (n'', found3, Keeps-trans k k');
    })

-- On a tournament with consecutive match ids, when an outcome has been recorded for a match, recording
-- another for the same match fails with NotRecordable.
pub record_outcome_twice :
    (id : ℕ) (o o' : Outcome) (t t' : Tournament)
    → IsNumbered t
    → record_outcome id o t ≡ ok t'
    → record_outcome id o' t' ≡ err not_recordable
unfolding record_outcome is_ready
record_outcome_twice id o o' t t' h e =
    let r = record_outcome-Recorded id o t t' h e in
    let idle : is_ready r.match ≡ false = ground arith in rw (r.found, record_outcome, idle)
