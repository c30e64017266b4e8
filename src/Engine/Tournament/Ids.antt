-- ===== src/Engine/Tournament/Ids.antt =====
-- The ids of a tournament's matches: consecutive from 1, with `nextId` the first that is free.
use avax_build_games.Prelude.{
  ℕ, suc, ◌+◌, ◌≤◌, ◌≡◌, refl, ap, sym, subst, ◌∙◌, inl, inr, true, some, List, [], ◌∷◌, ◌++◌, map,
  length, length-append, length-map, arith, Bool-cases, Option-cases, ltb, ◌&&◌,
}
use mathlib.Core.List.{append_assoc, append-nil}
use avax_build_games.Engine.Types.{
  Outcome, Entrant, BracketMatch, is_ready, ok, ok-injective, TournamentFormat, single_elimination,
  round_robin, swiss,
}
use avax_build_games.Engine.SingleElim.{build_single_elim}
use avax_build_games.Engine.SingleElim.Links.{Numbered, Numbered-append, build_single_elim-Numbered}
use avax_build_games.Engine.RoundRobin.Ids.{build_round_robin-Numbered}
use avax_build_games.Engine.RoundRobin.{build_round_robin}
use avax_build_games.Engine.Swiss
use avax_build_games.Engine.Swiss.{Pairing, SwissEntry, new_entry}
use avax_build_games.Engine.Swiss.Ids.{PairsNumbered, pair_swiss_round-PairsNumbered}
use avax_build_games.Engine.MatchMap.{
  set_match, set_matches, get_match, update_match, advance_single_elim,
}
use avax_build_games.Engine.MatchMap.Keeps.{
  AllKeep, AllKeep-Numbered, AllKeep-length, advance_single_elim-AllKeep,
}
use avax_build_games.Engine.Tournament.{
  Tournament, swiss_match, pair_swiss_round, apply_swiss_results, close_swiss_round,
  recompute_complete, advance_as, advance, record_outcome, new, start_as, fresh, with_matches,
  set_outcome, swiss_round_open, is_single_elim, is_draw, no_rounds, ids_unique,
}

pub record IsNumbered (t : Tournament) : Type 0 where
  pub ids : Numbered 1 t.match_map
  pub next : t.next_id ≡ suc (length t.match_map)

-- A match with an id past all others is appended.
set_match-append :
    (s : ℕ) (x : BracketMatch) (ms : List BracketMatch)
    → Numbered s ms
    → s + length ms ≤ x.id
    → set_match x ms ≡ ms ++ x ∷ []
unfolding set_match
set_match-append s x [] h fresh_id = refl
set_match-append s x (m ∷ ms) h fresh_id =
    ground (arith, set_match-append (suc s) x ms h.1 (omega arith))

pub set_matches-append :
    (s t : ℕ) (xs ms : List BracketMatch)
    → s + length ms ≡ t
    → Numbered s ms
    → Numbered t xs
    → set_matches xs ms ≡ ms ++ xs
unfolding set_matches
set_matches-append s t [] ms e h hx = sym (append-nil ms)
set_matches-append s t (x ∷ xs) ms e h hx =
    let grown : Numbered s (ms ++ x ∷ []) = Numbered-append s t ms (x ∷ []) e h (hx.0, tt) in
    let size = length-append ms (x ∷ []) in
    ap (set_matches xs) (set_match-append s x ms h (omega (arith, hx.0)))
    ∙ set_matches-append s (suc t) xs (ms ++ x ∷ []) (omega (arith, size)) grown hx.1
    ∙ append_assoc ms (x ∷ []) xs

set_matches-IsNumbered :
    (t : Tournament) (xs : List BracketMatch) (n : ℕ)
    → IsNumbered t
    → Numbered t.next_id xs
    → n ≡ t.next_id + length xs
    → Numbered 1 (set_matches xs t.match_map) × (n ≡ suc (length (set_matches xs t.match_map)))
set_matches-IsNumbered t xs n h hx e =
    let all = set_matches-append 1 t.next_id xs t.match_map (omega (arith, h.next)) h.ids hx in
    rw all (
      Numbered-append 1 t.next_id t.match_map xs (omega (arith, h.next)) h.ids hx,
      omega (arith, e, h.next, length-append t.match_map xs),
    )

PairsNumbered-Numbered :
    (s round : ℕ) (ps : List Pairing) → PairsNumbered s ps → Numbered s (map (swiss_match round) ps)
unfolding swiss_match
PairsNumbered-Numbered s round [] h = tt
PairsNumbered-Numbered s round (p ∷ ps) h = (h.0, PairsNumbered-Numbered (suc s) round ps h.1)

pair_swiss_round-IsNumbered : (t : Tournament) → IsNumbered t → IsNumbered (pair_swiss_round t)
unfolding pair_swiss_round
pair_swiss_round-IsNumbered t h = elim (Option-cases t.swiss_entries) [
  | inl e ↦ rw (e, pair_swiss_round) h
  | inr (entries, e) ↦
      let ps = (Swiss.pair_swiss_round entries t.next_id).out in
      let xs = map (swiss_match t.swiss_round) ps in
      let both =
        set_matches-IsNumbered t xs (t.next_id + length ps) h
          (PairsNumbered-Numbered t.next_id t.swiss_round ps
            (pair_swiss_round-PairsNumbered entries t.next_id))
          (omega (arith, length-map (swiss_match t.swiss_round) ps)) in
      rw (e, pair_swiss_round) (record { ids = both.0; next = both.1 })
]

-- Pairing a round appends its matches.
pub pair_swiss_round-append :
    (t : Tournament)
    → IsNumbered t
    → (xs : List BracketMatch) × ((pair_swiss_round t).match_map ≡ t.match_map ++ xs)
unfolding pair_swiss_round
pair_swiss_round-append t h = elim (Option-cases t.swiss_entries) [
  | inl e ↦ rw (e, pair_swiss_round) ([], sym (append-nil t.match_map))
  | inr (entries, e) ↦
      let ps = (Swiss.pair_swiss_round entries t.next_id).out in
      let xs = map (swiss_match t.swiss_round) ps in
      rw (e, pair_swiss_round)
        (
          xs,
          set_matches-append 1 t.next_id xs t.match_map (omega (arith, h.next)) h.ids (
              PairsNumbered-Numbered t.next_id t.swiss_round ps
                (pair_swiss_round-PairsNumbered entries t.next_id)),
        )
]

pub apply_swiss_results-IsNumbered :
    (t : Tournament) → IsNumbered t → IsNumbered (apply_swiss_results t)
unfolding apply_swiss_results
apply_swiss_results-IsNumbered t h = elim (Option-cases t.swiss_entries) [
  | inl e ↦ rw (e, apply_swiss_results) h
  | inr (entries, e) ↦ rw (e, apply_swiss_results) (record { ids = h.ids; next = h.next })
]

close_swiss_round-IsNumbered :
    (rounds : ℕ) (t : Tournament) → IsNumbered t → IsNumbered (close_swiss_round rounds t)
unfolding close_swiss_round
close_swiss_round-IsNumbered rounds t h =
    let applied = apply_swiss_results t in
    let h' = apply_swiss_results-IsNumbered t h in
    elim (Bool-cases (ltb (applied.swiss_round + 1) rounds)) [
      | inl e ↦ rw e (
          pair_swiss_round-IsNumbered (record applied { swiss_round = applied.swiss_round + 1 })
            (record { ids = h'.ids; next = h'.next }))
      | inr e ↦ rw e h'
    ]

recompute_complete-IsNumbered : (t : Tournament) → IsNumbered t → IsNumbered (recompute_complete t)
unfolding recompute_complete
recompute_complete-IsNumbered t h = record { ids = h.ids; next = h.next }

-- Matches that are only filled in keep their ids.
pub AllKeep-IsNumbered :
    (t : Tournament) (ns : List BracketMatch)
    → AllKeep t.match_map ns
    → IsNumbered t
    → IsNumbered (record t { match_map = ns })
AllKeep-IsNumbered t ns k h = record {
  ids = AllKeep-Numbered 1 t.match_map ns k h.ids;
  next = h.next ∙ ap suc (sym (AllKeep-length t.match_map ns k));
}

advance_as-IsNumbered :
    (format : TournamentFormat) (t : Tournament) → IsNumbered t → IsNumbered (advance_as format t)
unfolding advance_as
advance_as-IsNumbered single_elimination t h =
    recompute_complete-IsNumbered (record t { match_map = advance_single_elim t.match_map })
      (AllKeep-IsNumbered t (advance_single_elim t.match_map)
        (advance_single_elim-AllKeep t.match_map) h)
advance_as-IsNumbered round_robin t h = recompute_complete-IsNumbered t h
advance_as-IsNumbered (swiss rounds) t h = elim (Bool-cases (swiss_round_open t)) [
  | inl e ↦ rw (e, advance_as) h
  | inr e ↦
      rw (e, advance_as)
        (recompute_complete-IsNumbered (close_swiss_round rounds t)
          (close_swiss_round-IsNumbered rounds t h))
]

pub advance-IsNumbered : (t : Tournament) → IsNumbered t → IsNumbered (advance t)
unfolding advance
advance-IsNumbered t h = advance_as-IsNumbered t.format t h

with_matches-IsNumbered :
    (t : Tournament) (xs : List BracketMatch)
    → IsNumbered t
    → Numbered t.next_id xs
    → IsNumbered (with_matches t xs)
with_matches-IsNumbered t xs h hx =
    let both = set_matches-IsNumbered t xs (t.next_id + length xs) h hx refl in
    record { ids = both.0; next = both.1 }

start_as-IsNumbered :
    (format : TournamentFormat) (t : Tournament) → IsNumbered t → IsNumbered (start_as format t)
unfolding start_as
start_as-IsNumbered single_elimination t h =
    let ms = (build_single_elim t.entrants t.next_id).matches in
    AllKeep-IsNumbered (with_matches t ms) (advance_single_elim (with_matches t ms).match_map)
      (advance_single_elim-AllKeep (with_matches t ms).match_map)
      (with_matches-IsNumbered t ms h (build_single_elim-Numbered t.entrants t.next_id))
start_as-IsNumbered round_robin t h =
    with_matches-IsNumbered t (build_round_robin t.entrants t.next_id).matches h
      (build_round_robin-Numbered t.entrants t.next_id)
start_as-IsNumbered (swiss rounds) t h =
    pair_swiss_round-IsNumbered
      (record t { swiss_entries = some (map new_entry t.entrants); swiss_round = 0 })
      (record { ids = h.ids; next = h.next })

-- A tournament that `new` makes has the match ids 1, 2, 3 and so on, and `nextId` is the next.
pub new-IsNumbered :
    (format : TournamentFormat) (entrants : List Entrant) (t : Tournament)
    → new format entrants ≡ ok t
    → IsNumbered t
unfolding new
new-IsNumbered format entrants t h = elim (Bool-cases (ltb (length entrants) 2)) [
  | inl few ↦ cc (rw few at h)
  | inr many ↦ elim (Bool-cases (ids_unique entrants)) [
    | inr same ↦ cc (rw (many, same) at h)
    | inl unique ↦ elim (Bool-cases (no_rounds format)) [
      | inl none_left ↦ cc (rw (many, unique, none_left) at h)
      | inr rounds ↦ subst IsNumbered (ok-injective (rw (many, unique, rounds) at h)) (
          recompute_complete-IsNumbered (start_as format (fresh format entrants))
            (start_as-IsNumbered format (fresh format entrants) (record { ids = tt; next = refl })))
    ]
  ]
]

-- The match that an outcome is recorded for, as `record` found it.
pub record RecordedFrom (id : ℕ) (o : Outcome) (t t' : Tournament) : Type 0 where
  pub before : BracketMatch
  pub found : get_match id t.match_map ≡ some before
  pub ready : is_ready before ≡ true
  pub advanced : t' ≡ advance (record t { match_map = update_match id (set_outcome o) t.match_map })

-- Inversion of a successful `record`.
pub record_outcome-RecordedFrom :
    (id : ℕ) (o : Outcome) (t t' : Tournament)
    → record_outcome id o t ≡ ok t'
    → RecordedFrom id o t t'
unfolding record_outcome
record_outcome-RecordedFrom id o t t' = elim (Option-cases (get_match id t.match_map)) [
  | inl e ↦ rw (e, record_outcome) (λ h. cc)
  | inr (m, e) ↦ elim (Bool-cases (is_ready m)) [
    | inr idle ↦ rw (e, record_outcome, idle) (λ h. cc)
    | inl ready ↦ elim (Bool-cases (is_single_elim t.format && is_draw o)) [
      | inl refused ↦ rw (e, record_outcome, ready, refused) (λ h. cc)
      | inr allowed ↦
          rw (e, record_outcome, ready, allowed)
            λ h. record { before = m; found = e; ready = ready; advanced = sym (ok-injective h) }
    ]
  ]
]
