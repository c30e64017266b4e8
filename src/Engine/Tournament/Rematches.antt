-- ===== src/Engine/Tournament/Rematches.antt =====
-- The meetings of a Swiss tournament, and what its entries tell of them.
use avax_build_games.Prelude.{
  ℕ, ◌+◌, ◌≤◌, ◌≡◌, refl, sym, subst, some, List, [], ◌∷◌, map, Distinct, arith, ltb, Bool-cases,
  inl, inr,
}
use avax_build_games.Engine.Types.{Entrant, Outcome, BracketMatch, ok, swiss}
use avax_build_games.Engine.Meetings.{meetings, meetings-set_matches, meetings-update_match}
use avax_build_games.Engine.MatchMap.{update_match}
use avax_build_games.Engine.Swiss
use avax_build_games.Engine.Swiss.{SwissEntry, Pairing, new_entry}
use avax_build_games.Engine.Swiss.Fair.{pair_meetings, known_meetings, pair_swiss_round-IsFair}
use avax_build_games.Engine.Swiss.Played.{entry_ids, entry_ids-set, has_played-set, map-new_entry}
use avax_build_games.Engine.SwissResults.{apply_results}
use avax_build_games.Engine.SwissResults.Recount.{apply_results-Kept}
use avax_build_games.Engine.Tournament.{
  Tournament, swiss_match, pair_swiss_round, apply_swiss_results, close_swiss_round,
  swiss_round_open, recompute_complete, advance_as, advance, set_outcome, record_outcome, fresh,
  start_as, new,
}
use avax_build_games.Engine.Tournament.Entrants.{new-StartedFrom}
use avax_build_games.Engine.Tournament.Ids.{record_outcome-RecordedFrom}
use avax_build_games.Engine.Tournament.Played.{Played, begins, records}
use avax_build_games.Engine.Tournament.Unique.{ids_unique-Distinct}

module _ (rounds x y : ℕ) where
  -- The entries are of distinct entrants, and tell of every meeting of `x` and `y`, of at most one.
  record EntriesTell (ms : List BracketMatch) (entries : List SwissEntry) : Type 0 where
    distinct : Distinct (entry_ids entries)
    bound : meetings x y ms ≤ known_meetings x y entries

  record TellsOnce (t : Tournament) : Type 0 where
    is_swiss : t.format ≡ swiss rounds
    entries : List SwissEntry
    stored : t.swiss_entries ≡ some entries
    tell : EntriesTell t.match_map entries

  meetings-swiss_match :
      (round : ℕ) (ps : List Pairing)
      → meetings x y (map (swiss_match round) ps) ≡ pair_meetings x y ps
  unfolding swiss_match
  meetings-swiss_match round [] = refl
  meetings-swiss_match round (p ∷ ps) = omega (arith, meetings-swiss_match round ps)

  pair_swiss_round-TellsOnce : (t : Tournament) → TellsOnce t → TellsOnce (pair_swiss_round t)
  unfolding pair_swiss_round
  pair_swiss_round-TellsOnce t h =
      let paired = Swiss.pair_swiss_round h.entries t.next_id in
      let fair =
        pair_swiss_round-IsFair x y h.entries t.next_id (meetings x y t.match_map) h.tell.distinct
          h.tell.bound in
      let new_matches = map (swiss_match t.swiss_round) paired.out in
      rw (h.stored, pair_swiss_round)
        (record {
          is_swiss = h.is_swiss;
          entries = paired.entries;
          stored = refl;
          tell = record {
            distinct = subst Distinct (sym fair.same_ids) h.tell.distinct;
            bound = omega (
              arith,
              meetings-set_matches x y new_matches t.match_map,
              meetings-swiss_match t.swiss_round paired.out,
              fair.bound,
            );
          };
        })

  apply_results-EntriesTell :
      (round : ℕ) (ms : List BracketMatch) (entries : List SwissEntry)
      → EntriesTell ms entries
      → EntriesTell ms (apply_results round ms entries)
  apply_results-EntriesTell round ms entries =
      apply_results-Kept (EntriesTell ms)
        (λ es i e same same' h. record {
          distinct = subst Distinct (sym (entry_ids-set es i e same)) h.distinct;
          bound =
              rw (has_played-set x y es i e same same', has_played-set y x es i e same same')
                h.bound;
        })
        round ms entries

  apply_swiss_results-TellsOnce : (t : Tournament) → TellsOnce t → TellsOnce (apply_swiss_results t)
  unfolding apply_swiss_results
  apply_swiss_results-TellsOnce t h =
      rw (h.stored, apply_swiss_results)
        (record {
          is_swiss = h.is_swiss;
          entries = apply_results t.swiss_round t.match_map h.entries;
          stored = refl;
          tell = apply_results-EntriesTell t.swiss_round t.match_map h.entries h.tell;
        })

  close_swiss_round-TellsOnce :
      (t : Tournament) → TellsOnce t → TellsOnce (close_swiss_round rounds t)
  unfolding close_swiss_round
  close_swiss_round-TellsOnce t h =
      let applied = apply_swiss_results t in
      let h' = apply_swiss_results-TellsOnce t h in
      elim (Bool-cases (ltb (applied.swiss_round + 1) rounds)) [
        | inl e ↦ rw e (
            pair_swiss_round-TellsOnce (record applied { swiss_round = applied.swiss_round + 1 })
              (record {
                is_swiss = h'.is_swiss;
                entries = h'.entries;
                stored = h'.stored;
                tell = h'.tell;
              }))
        | inr e ↦ rw e h'
      ]

  recompute_complete-TellsOnce : (t : Tournament) → TellsOnce t → TellsOnce (recompute_complete t)
  unfolding recompute_complete
  recompute_complete-TellsOnce t h = record {
    is_swiss = h.is_swiss;
    entries = h.entries;
    stored = h.stored;
    tell = h.tell;
  }

  advance_as-TellsOnce : (t : Tournament) → TellsOnce t → TellsOnce (advance_as (swiss rounds) t)
  unfolding advance_as
  advance_as-TellsOnce t h = elim (Bool-cases (swiss_round_open t)) [
    | inl e ↦ rw (e, advance_as) h
    | inr e ↦
        rw (e, advance_as)
          (recompute_complete-TellsOnce (close_swiss_round rounds t)
            (close_swiss_round-TellsOnce t h))
  ]

  record_outcome-TellsOnce :
      (id : ℕ) (o : Outcome) (t t' : Tournament)
      → record_outcome id o t ≡ ok t'
      → TellsOnce t
      → TellsOnce t'
  unfolding advance
  record_outcome-TellsOnce id o t t' e h =
      let from = record_outcome-RecordedFrom id o t t' e in
      let ms = update_match id (set_outcome o) t.match_map in
      let same = meetings-update_match x y id (set_outcome o) t.match_map (λ m. refl) (λ m. refl) in
      let h' : TellsOnce (record t { match_map = ms }) = record {
        is_swiss = h.is_swiss;
        entries = h.entries;
        stored = h.stored;
        tell = record { distinct = h.tell.distinct; bound = rw same h.tell.bound };
      } in
      subst TellsOnce (sym from.advanced) (
        subst (λ f. TellsOnce (advance_as f (record t { match_map = ms }))) (sym h.is_swiss)
          (advance_as-TellsOnce (record t { match_map = ms }) h'))

  new-TellsOnce : (es : List Entrant) (t : Tournament) → new (swiss rounds) es ≡ ok t → TellsOnce t
  unfolding start_as
  new-TellsOnce es t e =
      let from = new-StartedFrom (swiss rounds) es t e in
      let start = record (fresh (swiss rounds) es) {
        swiss_entries = some (map new_entry es);
        swiss_round = 0;
      } in
      subst TellsOnce (sym from.started) (
        recompute_complete-TellsOnce (pair_swiss_round start) (
          pair_swiss_round-TellsOnce start (record {
            is_swiss = refl;
            entries = map new_entry es;
            stored = refl;
            tell = record {
              distinct =
                  subst Distinct (sym (map-new_entry es)) (ids_unique-Distinct es from.unique);
              bound = omega arith;
            };
          })))

  Played-TellsOnce : (es : List Entrant) {t : Tournament} → Played (swiss rounds) es t → TellsOnce t
  Played-TellsOnce es (begins {t} started) = new-TellsOnce es t started
  Played-TellsOnce es (records {t} {t'} id o before recorded) =
      record_outcome-TellsOnce id o t t' recorded (Played-TellsOnce es before)

known_meetings_small : (x y : ℕ) (es : List SwissEntry) → known_meetings x y es ≤ 1
known_meetings_small x y es = ground arith

-- In a Swiss tournament no two entrants have two matches, however many rounds there are and whatever
-- results `record` has taken.
pub swiss_never_rematches :
    (rounds x y : ℕ) (es : List Entrant) (t : Tournament)
    → Played (swiss rounds) es t
    → meetings x y t.match_map ≤ 1
swiss_never_rematches rounds x y es t played =
    let h = Played-TellsOnce rounds x y es played in
    omega (arith, h.tell.bound, known_meetings_small x y h.entries)
