-- ===== src/Engine/MatchMap/Sides.antt =====
-- Who stands on the sides of the matches.
use avax_build_games.Prelude.{
  ℕ, zero, suc, ◌≡◌, subst, is_some, inl, inr, Option, none, some, List, [], ◌∷◌, map, All,
  Bool-cases, Option-cases, ◌==◌, ◌+◌, ◌*◌, length,
}
use avax_build_games.Engine.Types.{
  Side, Entrant, WinnerTo, BracketMatch, outcome_winner, match_side,
}
use avax_build_games.Engine.MatchMap.{
  get_match, set_match, set_matches, update_match, bye_outcome, complete_bye, Update, free_target,
  winner_update, collect_updates, set_side, apply_updates, advance_pass, advance_loop,
  advance_single_elim,
}

-- The entrant of a side, if there is one, has the property.
abbrev pub OfSide : (Entrant → Type 0) → Option Entrant → Type 0
OfSide P none = Unit
OfSide P (some e) = P e

pub record OfSides (P : Entrant → Type 0) (m : BracketMatch) : Type 0 where
  pub a : OfSide P m.a
  pub b : OfSide P m.b

module _ (P : Entrant → Type 0) where
  set_match-OfSides :
      (m : BracketMatch) (ms : List BracketMatch)
      → OfSides P m
      → All (OfSides P) ms
      → All (OfSides P) (set_match m ms)
  unfolding set_match
  set_match-OfSides m [] hm h = (hm, tt)
  set_match-OfSides m (x ∷ ms) hm h = elim (Bool-cases (x.id == m.id)) [
    | inl e ↦ rw e (hm, h.1)
    | inr e ↦ rw e (h.0, set_match-OfSides m ms hm h.1)
  ]

  pub set_matches-OfSides :
      (more ms : List BracketMatch)
      → All (OfSides P) more
      → All (OfSides P) ms
      → All (OfSides P) (set_matches more ms)
  unfolding set_matches
  set_matches-OfSides [] ms hm h = h
  set_matches-OfSides (m ∷ more) ms hm h =
      set_matches-OfSides more (set_match m ms) hm.1 (set_match-OfSides m ms hm.0 h)

  pub update_match-OfSides :
      (id : ℕ) (f : BracketMatch → BracketMatch) (ms : List BracketMatch)
      → ((m : BracketMatch) → OfSides P m → OfSides P (f m))
      → All (OfSides P) ms
      → All (OfSides P) (update_match id f ms)
  unfolding update_match
  update_match-OfSides id f [] keep h = tt
  update_match-OfSides id f (m ∷ ms) keep h = elim (Bool-cases (m.id == id)) [
    | inl e ↦ rw e (keep m h.0, h.1)
    | inr e ↦ rw e (h.0, update_match-OfSides id f ms keep h.1)
  ]

  complete_bye-OfSides : (m : BracketMatch) → OfSides P m → OfSides P (complete_bye m)
  unfolding complete_bye
  complete_bye-OfSides m h = elim (Option-cases (bye_outcome m)) [
    | inl e ↦ rw (e, complete_bye) h
    | inr (o, e) ↦ rw (e, complete_bye) (record { a = h.a; b = h.b })
  ]

  map-complete_bye-OfSides :
      (ms : List BracketMatch) → All (OfSides P) ms → All (OfSides P) (map complete_bye ms)
  map-complete_bye-OfSides [] h = tt
  map-complete_bye-OfSides (m ∷ ms) h =
      (complete_bye-OfSides m h.0, map-complete_bye-OfSides ms h.1)

  pub match_side-OfSide :
      (m : BracketMatch) (s : Side) (e : Entrant) → OfSides P m → match_side m s ≡ some e → P e
  unfolding match_side
  match_side-OfSide m Side.a e h found = subst (OfSide P) found h.a
  match_side-OfSide m Side.b e h found = subst (OfSide P) found h.b

  -- The winner of an update, if there is one, has the property.
  abbrev OfUpdate : Option Update → Type 0
  OfUpdate none = Unit
  OfUpdate (some u) = P u.winner

  free_target-OfUpdate :
      (ms : List BracketMatch) (w : WinnerTo) (e : Entrant) → P e → OfUpdate (free_target ms w e)
  unfolding free_target
  free_target-OfUpdate ms w e p = elim (Option-cases (get_match w.match_id ms)) [
    | inl missing ↦ rw (missing, free_target) tt
    | inr (target, found) ↦ elim (Bool-cases (is_some (match_side target w.side))) [
      | inl taken ↦ rw (found, taken, free_target) tt
      | inr free ↦ rw (found, free, free_target) p
    ]
  ]

  winner_update-OfUpdate :
      (ms : List BracketMatch) (m : BracketMatch) → OfSides P m → OfUpdate (winner_update ms m)
  unfolding winner_update
  winner_update-OfUpdate ms m h = elim (Option-cases m.outcome) [
    | inl e ↦ rw (e, winner_update) tt
    | inr (o, e) ↦ elim (Option-cases m.winner_to) [
      | inl e' ↦ rw (e, e', winner_update) tt
      | inr (w, e') ↦ elim (Option-cases (outcome_winner o)) [
        | inl e'' ↦ rw (e, e', e'', winner_update) tt
        | inr (s, e'') ↦ elim (Option-cases (match_side m s)) [
          | inl f ↦ rw (e, e', e'', f, winner_update) tt
          | inr (winner, f) ↦
              rw (e, e', e'', f, winner_update)
                (free_target-OfUpdate ms w winner (match_side-OfSide m s winner h f))
        ]
      ]
    ]
  ]

  collect_updates-winners :
      (ms rest : List BracketMatch)
      → All (OfSides P) rest
      → All (λ u. P u.winner) (collect_updates ms rest)
  unfolding collect_updates
  collect_updates-winners ms [] h = tt
  collect_updates-winners ms (m ∷ rest) h =
      let first = winner_update-OfUpdate ms m h.0 in
      elim (Option-cases (winner_update ms m)) [
        | inl e ↦ rw (e, collect_updates) (collect_updates-winners ms rest h.1)
        | inr (u, e) ↦ rw (e, collect_updates) (rw e at first, collect_updates-winners ms rest h.1)
      ]

  set_side-OfSides :
      (s : Side) (e : Entrant) (m : BracketMatch) → P e → OfSides P m → OfSides P (set_side s e m)
  unfolding set_side
  set_side-OfSides Side.a e m p h = record { a = p; b = h.b }
  set_side-OfSides Side.b e m p h = record { a = h.a; b = p }

  apply_updates-OfSides :
      (us : List Update) (ms : List BracketMatch)
      → All (λ u. P u.winner) us
      → All (OfSides P) ms
      → All (OfSides P) (apply_updates us ms)
  unfolding apply_updates
  apply_updates-OfSides [] ms hu h = h
  apply_updates-OfSides (u ∷ us) ms hu h =
      apply_updates-OfSides us (update_match u.tgt (set_side u.side u.winner) ms) hu.1 (
        update_match-OfSides u.tgt (set_side u.side u.winner) ms
          (λ m hm. set_side-OfSides u.side u.winner m hu.0 hm) h)

  advance_pass-OfSides :
      (ms : List BracketMatch) → All (OfSides P) ms → All (OfSides P) (advance_pass ms).0
  unfolding advance_pass
  advance_pass-OfSides ms h =
      let completed = map complete_bye ms in
      let h' = map-complete_bye-OfSides ms h in
      apply_updates-OfSides (collect_updates completed completed) completed
        (collect_updates-winners completed completed h') h'

  advance_loop-OfSides :
      (fuel : ℕ) (ms : List BracketMatch)
      → All (OfSides P) ms
      → All (OfSides P) (advance_loop fuel ms)
  unfolding advance_loop
  advance_loop-OfSides zero ms h = h
  advance_loop-OfSides (suc fuel) ms h =
      let h' = advance_pass-OfSides ms h in
      elim (Bool-cases (advance_pass ms).1) [
        | inl e ↦ rw (e, advance_loop) (advance_loop-OfSides fuel (advance_pass ms).0 h')
        | inr e ↦ rw (e, advance_loop) h'
      ]

  pub advance_single_elim-OfSides :
      (ms : List BracketMatch) → All (OfSides P) ms → All (OfSides P) (advance_single_elim ms)
  unfolding advance_single_elim
  advance_single_elim-OfSides ms h = advance_loop-OfSides (3 * length ms + 1) ms h
