-- ===== src/Engine/Tournament/Entrants.antt =====
-- The entrants of a tournament, and who plays in it.
use avax_build_games.Prelude.{
  ℕ, ◌+◌, ◌≡◌, refl, sym, subst, inl, inr, true, false, Option, none, some, List, [], ◌∷◌, map,
  length, All, ltb, Bool-cases, Option-cases,
}
use avax_build_games.Engine.Types.{
  Entrant, Outcome, BracketMatch, ok, ok-injective, TournamentFormat, single_elimination,
  round_robin, swiss,
}
use avax_build_games.Engine.MatchMap.{update_match, advance_single_elim}
use avax_build_games.Engine.MatchMap.Sides.{
  OfSides, set_matches-OfSides, update_match-OfSides, advance_single_elim-OfSides,
}
use avax_build_games.Engine.SingleElim.{build_single_elim}
use avax_build_games.Engine.SingleElim.Sides.{build_single_elim-OfSides}
use avax_build_games.Engine.RoundRobin.{build_round_robin}
use avax_build_games.Engine.RoundRobin.Sides.{build_round_robin-OfSides}
use avax_build_games.Engine.Swiss
use avax_build_games.Engine.Swiss.{SwissEntry, Pairing, new_entry}
use avax_build_games.Engine.Swiss.Entries.{
  OfEntry, OfPairing, pair_swiss_round-OfPairing, map-new_entry-OfEntry,
}
use avax_build_games.Engine.SwissResults.Entries.{apply_results-OfEntry}
use avax_build_games.Engine.Tournament.{
  Tournament, swiss_match, pair_swiss_round, apply_swiss_results, close_swiss_round,
  swiss_round_open, recompute_complete, advance_as, advance, set_outcome, record_outcome, fresh,
  with_matches, start_as, new, ids_unique, no_rounds,
}
use avax_build_games.Engine.Tournament.Ids.{record_outcome-RecordedFrom}

abbrev OfEntries : (Entrant → Type 0) → Option (List SwissEntry) → Type 0
OfEntries P none = Unit
OfEntries P (some es) = All (OfEntry P) es

-- Everybody who plays has the property.
pub record AllOf (P : Entrant → Type 0) (t : Tournament) : Type 0 where
  pub matches : All (OfSides P) t.match_map
  pub entries : OfEntries P t.swiss_entries

-- The entrants of the tournament are `es`, and everybody who plays has the property.
pub record PlayedBy (P : Entrant → Type 0) (es : List Entrant) (t : Tournament) : Type 0 where
  pub entrants : t.entrants ≡ es
  pub all : AllOf P t

module _ (P : Entrant → Type 0) (es : List Entrant) where
  map-swiss_match-OfSides :
      (round : ℕ) (ps : List Pairing)
      → All (OfPairing P) ps
      → All (OfSides P) (map (swiss_match round) ps)
  unfolding swiss_match
  map-swiss_match-OfSides round [] h = tt
  map-swiss_match-OfSides round (p ∷ ps) h =
      (record { a = h.0.0; b = h.0.1 }, map-swiss_match-OfSides round ps h.1)

  pair_swiss_round-PlayedBy :
      (t : Tournament) → PlayedBy P es t → PlayedBy P es (pair_swiss_round t)
  unfolding pair_swiss_round
  pair_swiss_round-PlayedBy t h = elim (Option-cases t.swiss_entries) [
    | inl e ↦ rw (e, pair_swiss_round) h
    | inr (entries, e) ↦
        let known : All (OfEntry P) entries = rw e at h.all.entries in
        let paired = pair_swiss_round-OfPairing P entries t.next_id known in
        rw (e, pair_swiss_round)
          (record {
            entrants = h.entrants;
            all = record {
              matches =
                  set_matches-OfSides P
                    (map (swiss_match t.swiss_round) (Swiss.pair_swiss_round entries t.next_id).out)
                    t.match_map
                    (map-swiss_match-OfSides t.swiss_round
                      (Swiss.pair_swiss_round entries t.next_id).out paired.0)
                    h.all.matches;
              entries = paired.1;
            };
          })
  ]

  apply_swiss_results-PlayedBy :
      (t : Tournament) → PlayedBy P es t → PlayedBy P es (apply_swiss_results t)
  unfolding apply_swiss_results
  apply_swiss_results-PlayedBy t h = elim (Option-cases t.swiss_entries) [
    | inl e ↦ rw (e, apply_swiss_results) h
    | inr (entries, e) ↦
        let known : All (OfEntry P) entries = rw e at h.all.entries in
        rw (e, apply_swiss_results)
          (record {
            entrants = h.entrants;
            all = record {
              matches = h.all.matches;
              entries = apply_results-OfEntry P t.swiss_round t.match_map entries known;
            };
          })
  ]

  close_swiss_round-PlayedBy :
      (rounds : ℕ) (t : Tournament) → PlayedBy P es t → PlayedBy P es (close_swiss_round rounds t)
  unfolding close_swiss_round
  close_swiss_round-PlayedBy rounds t h =
      let applied = apply_swiss_results t in
      let h' = apply_swiss_results-PlayedBy t h in
      elim (Bool-cases (ltb (applied.swiss_round + 1) rounds)) [
        | inl e ↦ rw e (
            pair_swiss_round-PlayedBy (record applied { swiss_round = applied.swiss_round + 1 })
              (record {
                entrants = h'.entrants;
                all = record { matches = h'.all.matches; entries = h'.all.entries };
              }))
        | inr e ↦ rw e h'
      ]

  recompute_complete-PlayedBy :
      (t : Tournament) → PlayedBy P es t → PlayedBy P es (recompute_complete t)
  unfolding recompute_complete
  recompute_complete-PlayedBy t h = record {
    entrants = h.entrants;
    all = record { matches = h.all.matches; entries = h.all.entries };
  }

  with_match_map :
      (t : Tournament) (ms : List BracketMatch)
      → All (OfSides P) ms
      → PlayedBy P es t
      → PlayedBy P es (record t { match_map = ms })
  with_match_map t ms hm h = record {
    entrants = h.entrants;
    all = record { matches = hm; entries = h.all.entries };
  }

  advance_as-PlayedBy :
      (format : TournamentFormat) (t : Tournament)
      → PlayedBy P es t
      → PlayedBy P es (advance_as format t)
  unfolding advance_as
  advance_as-PlayedBy single_elimination t h =
      recompute_complete-PlayedBy (record t { match_map = advance_single_elim t.match_map })
        (with_match_map t (advance_single_elim t.match_map)
          (advance_single_elim-OfSides P t.match_map h.all.matches) h)
  advance_as-PlayedBy round_robin t h = recompute_complete-PlayedBy t h
  advance_as-PlayedBy (swiss rounds) t h = elim (Bool-cases (swiss_round_open t)) [
    | inl e ↦ rw (e, advance_as) h
    | inr e ↦
        rw (e, advance_as)
          (recompute_complete-PlayedBy (close_swiss_round rounds t)
            (close_swiss_round-PlayedBy rounds t h))
  ]

  -- `record` keeps them.
  pub record_outcome-PlayedBy :
      (id : ℕ) (o : Outcome) (t t' : Tournament)
      → record_outcome id o t ≡ ok t'
      → PlayedBy P es t
      → PlayedBy P es t'
  unfolding advance
  record_outcome-PlayedBy id o t t' e h =
      let from = record_outcome-RecordedFrom id o t t' e in
      let ms = update_match id (set_outcome o) t.match_map in
      subst (PlayedBy P es) (sym from.advanced) (
        advance_as-PlayedBy t.format (record t { match_map = ms })
          (with_match_map t ms
            (update_match-OfSides P id (set_outcome o) t.match_map
              (λ m hm. record { a = hm.a; b = hm.b }) h.all.matches)
            h))

  with_matches-PlayedBy :
      (t : Tournament) (ms : List BracketMatch)
      → All (OfSides P) ms
      → PlayedBy P es t
      → PlayedBy P es (with_matches t ms)
  with_matches-PlayedBy t ms hm h = record {
    entrants = h.entrants;
    all = record {
      matches = set_matches-OfSides P ms t.match_map hm h.all.matches;
      entries = h.all.entries;
    };
  }

  start_as-PlayedBy :
      (format : TournamentFormat) (t : Tournament)
      → All P t.entrants
      → PlayedBy P es t
      → PlayedBy P es (start_as format t)
  unfolding start_as
  start_as-PlayedBy single_elimination t hp h =
      let ms = (build_single_elim t.entrants t.next_id).matches in
      let built =
        with_matches-PlayedBy t ms (build_single_elim-OfSides P t.entrants t.next_id hp) h in
      with_match_map (with_matches t ms) (advance_single_elim (with_matches t ms).match_map)
        (advance_single_elim-OfSides P (with_matches t ms).match_map built.all.matches) built
  start_as-PlayedBy round_robin t hp h =
      with_matches-PlayedBy t (build_round_robin t.entrants t.next_id).matches
        (build_round_robin-OfSides P t.entrants t.next_id hp) h
  start_as-PlayedBy (swiss rounds) t hp h =
      pair_swiss_round-PlayedBy
        (record t { swiss_entries = some (map new_entry t.entrants); swiss_round = 0 })
        (record {
          entrants = h.entrants;
          all = record { matches = h.all.matches; entries = map-new_entry-OfEntry P t.entrants hp };
        })

-- What `new` has tested, and the tournament that it makes.
pub record StartedFrom (format : TournamentFormat) (es : List Entrant) (t : Tournament)
    : Type 0 where
  pub enough : ltb (length es) 2 ≡ false
  pub unique : ids_unique es ≡ true
  pub started : t ≡ recompute_complete (start_as format (fresh format es))

pub new-StartedFrom :
    (format : TournamentFormat) (es : List Entrant) (t : Tournament)
    → new format es ≡ ok t
    → StartedFrom format es t
unfolding new
new-StartedFrom format es t h = elim (Bool-cases (ltb (length es) 2)) [
  | inl few ↦ cc (rw few at h)
  | inr many ↦ elim (Bool-cases (ids_unique es)) [
    | inr same ↦ cc (rw (many, same) at h)
    | inl unique ↦ elim (Bool-cases (no_rounds format)) [
      | inl none_left ↦ cc (rw (many, unique, none_left) at h)
      | inr rounds ↦ record {
        enough = many;
        unique = unique;
        started = sym (ok-injective (rw (many, unique, rounds) at h));
      }
    ]
  ]
]

-- So does `new`, if the entrants have the property.
pub new-PlayedBy :
    (P : Entrant → Type 0) (format : TournamentFormat) (es : List Entrant) (t : Tournament)
    → new format es ≡ ok t
    → All P es
    → PlayedBy P es t
new-PlayedBy P format es t h hp =
    subst (PlayedBy P es) (sym (new-StartedFrom format es t h).started) (
      recompute_complete-PlayedBy P es (start_as format (fresh format es)) (
        start_as-PlayedBy P es format (fresh format es) hp
          (record { entrants = refl; all = record { matches = tt; entries = tt } })))
