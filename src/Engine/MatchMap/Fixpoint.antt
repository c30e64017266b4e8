-- ===== src/Engine/MatchMap/Fixpoint.antt =====
-- The endless loop of advanceSingleElim ends: every pass that changes something fills an outcome or
-- a side.
use avax_build_games.Prelude.{
  ℕ, zero, suc, ◌+◌, ◌*◌, ◌≤◌, ◌<◌, ◌≡◌, refl, ap, subst, ◌∙◌, inl, inr, true, false, Option, none,
  some, is_some, List, [], ◌∷◌, map, length, any, arith, Bool-cases, Option-cases, ◌==◌,
  if◌then◌else◌,
}
use avax_build_games.Engine.Types.{
  Side, Entrant, WinnerTo, BracketMatch, match_side, outcome_winner,
}
use avax_build_games.Engine.MatchMap.{
  get_match, update_match, bye_outcome, complete_bye, Update, free_target, winner_update,
  collect_updates, set_side, apply_updates, is_empty, advance_pass, advance_loop,
  advance_single_elim,
}

abbrev vacancy {ℓ} : {A : Type ℓ} → Option A → ℕ
vacancy none = 1
vacancy (some x) = 0

-- The outcome and the sides that a match lacks.
abbrev open_places : BracketMatch → ℕ
open_places m = vacancy m.outcome + vacancy m.a + vacancy m.b

abbrev all_open : List BracketMatch → ℕ
all_open [] = 0
all_open (m ∷ ms) = open_places m + all_open ms

open_places-le : (m : BracketMatch) → open_places m ≤ 3
open_places-le m = ground arith

all_open-le : (ms : List BracketMatch) → all_open ms ≤ 3 * length ms
all_open-le [] = omega arith
all_open-le (m ∷ ms) = omega (arith, open_places-le m, all_open-le ms)

complete_bye-open :
    (m : BracketMatch)
    → open_places (complete_bye m) + (if is_some (bye_outcome m) then 1 else 0) ≤ open_places m
unfolding complete_bye bye_outcome
complete_bye-open m = ground arith

map-complete_bye-open : (ms : List BracketMatch) → all_open (map complete_bye ms) ≤ all_open ms
map-complete_bye-open [] = omega arith
map-complete_bye-open (m ∷ ms) = ground (arith, complete_bye-open m, map-complete_bye-open ms)

map-complete_bye-open_lt :
    (ms : List BracketMatch)
    → any (λ m. is_some (bye_outcome m)) ms ≡ true
    → all_open (map complete_bye ms) < all_open ms
map-complete_bye-open_lt [] h = cc
map-complete_bye-open_lt (m ∷ ms) h =
    ground (arith, complete_bye-open m, map-complete_bye-open ms, map-complete_bye-open_lt ms)

set_side-open :
    (s : Side) (e : Entrant) (m : BracketMatch) → open_places (set_side s e m) ≤ open_places m
unfolding set_side
set_side-open Side.a e m = ground arith
set_side-open Side.b e m = ground arith

set_side-open_lt :
    (s : Side) (e : Entrant) (m : BracketMatch)
    → match_side m s ≡ none
    → open_places (set_side s e m) < open_places m
unfolding set_side match_side
set_side-open_lt Side.a e m h = ground arith
set_side-open_lt Side.b e m h = ground arith

update_match-open :
    (id : ℕ) (s : Side) (e : Entrant) (ms : List BracketMatch)
    → all_open (update_match id (set_side s e) ms) ≤ all_open ms
unfolding update_match
update_match-open id s e [] = omega arith
update_match-open id s e (m ∷ ms) = ground (arith, set_side-open s e m, update_match-open id s e ms)

-- The target of an update is there, and its side is free.
record IsFree (ms : List BracketMatch) (u : Update) : Type 0 where
  target : BracketMatch
  found : get_match u.tgt ms ≡ some target
  free : match_side target u.side ≡ none

update_match-open_lt :
    (id : ℕ) (s : Side) (e : Entrant) (ms : List BracketMatch) (m : BracketMatch)
    → get_match id ms ≡ some m
    → match_side m s ≡ none
    → all_open (update_match id (set_side s e) ms) < all_open ms
unfolding update_match
update_match-open_lt id s e [] m h free = cc
update_match-open_lt id s e (x ∷ ms) m h free = elim (Bool-cases (x.id == id)) [
  | inl here ↦
      let same : x ≡ m = ground arith in
      rw here (omega (arith, set_side-open_lt s e x (rw same free)))
  | inr later ↦ rw later (omega (arith, update_match-open_lt id s e ms m (rw later at h) free))
]

free_of_not-is_some {ℓ} : {A : Type ℓ} (o : Option A) → is_some o ≡ false → o ≡ none
free_of_not-is_some none h = refl
free_of_not-is_some (some x) h = cc

free_target-IsFree :
    (ms : List BracketMatch) (w : WinnerTo) (winner : Entrant) (u : Update)
    → free_target ms w winner ≡ some u
    → IsFree ms u
unfolding free_target
free_target-IsFree ms w winner u h = elim (Option-cases (get_match w.match_id ms)) [
  | inl e ↦ cc (rw (e, free_target) at h)
  | inr (target, e) ↦ elim (Bool-cases (is_some (match_side target w.side))) [
    | inl taken ↦ absurd (ground arith)
    | inr free ↦
        let u' : Update = record { tgt = w.match_id; side = w.side; winner = winner } in
        let same : u' ≡ u = ground arith in
        subst (IsFree ms) same (record {
          target = target;
          found = e;
          free = free_of_not-is_some (match_side target w.side) free;
        })
  ]
]

winner_update-IsFree :
    (ms : List BracketMatch) (m : BracketMatch) (u : Update)
    → winner_update ms m ≡ some u
    → IsFree ms u
unfolding winner_update
winner_update-IsFree ms m u h = elim (Option-cases m.outcome) [
  | inl e ↦ absurd (ground arith)
  | inr (o, e) ↦ elim (Option-cases m.winner_to) [
    | inl e' ↦ absurd (ground arith)
    | inr (w, e') ↦ elim (Option-cases (outcome_winner o)) [
      | inl e'' ↦ absurd (ground arith)
      | inr (s, e'') ↦ elim (Option-cases (match_side m s)) [
        | inl e3 ↦ absurd (ground arith)
        | inr (x, e3) ↦ free_target-IsFree ms w x u (ground arith)
      ]
    ]
  ]
]

-- The first update collected goes to a free side.
abbrev FirstIsFree : List BracketMatch → List Update → Type 0
FirstIsFree ms [] = Unit
FirstIsFree ms (u ∷ us) = IsFree ms u

collect_updates-FirstIsFree :
    (ms rest : List BracketMatch) → FirstIsFree ms (collect_updates ms rest)
unfolding collect_updates
collect_updates-FirstIsFree ms [] = tt
collect_updates-FirstIsFree ms (m ∷ rest) = elim (Option-cases (winner_update ms m)) [
  | inl e ↦ rw (e, collect_updates) (collect_updates-FirstIsFree ms rest)
  | inr (u, e) ↦ rw (e, collect_updates) (winner_update-IsFree ms m u e)
]

apply_updates-open :
    (us : List Update) (ms : List BracketMatch) → all_open (apply_updates us ms) ≤ all_open ms
unfolding apply_updates
apply_updates-open [] ms = omega arith
apply_updates-open (u ∷ us) ms = omega (
  arith,
  update_match-open u.tgt u.side u.winner ms,
  apply_updates-open us (update_match u.tgt (set_side u.side u.winner) ms),
)

apply_updates-open_lt :
    (us : List Update) (ms : List BracketMatch)
    → FirstIsFree ms us
    → is_empty us ≡ false
    → all_open (apply_updates us ms) < all_open ms
unfolding apply_updates is_empty
apply_updates-open_lt [] ms f h = cc
apply_updates-open_lt (u ∷ us) ms f h = omega (
  arith,
  update_match-open_lt u.tgt u.side u.winner ms f.target f.found f.free,
  apply_updates-open us (update_match u.tgt (set_side u.side u.winner) ms),
)

advance_pass-open :
    (ms : List BracketMatch)
    → (advance_pass ms).1 ≡ true
    → all_open (advance_pass ms).0 < all_open ms
unfolding advance_pass
advance_pass-open ms h =
    let done = map complete_bye ms in
    let us = collect_updates done done in
    ground (
      arith,
      map-complete_bye-open ms,
      map-complete_bye-open_lt ms,
      apply_updates-open us done,
      apply_updates-open_lt us done (collect_updates-FirstIsFree done done),
    )

complete_bye-same : (m : BracketMatch) → is_some (bye_outcome m) ≡ false → complete_bye m ≡ m
unfolding complete_bye
complete_bye-same m h = ground arith

map-complete_bye-same :
    (ms : List BracketMatch)
    → any (λ m. is_some (bye_outcome m)) ms ≡ false
    → map complete_bye ms ≡ ms
map-complete_bye-same [] h = refl
map-complete_bye-same (m ∷ ms) h = ground (arith, complete_bye-same m, map-complete_bye-same ms)

apply_updates-is_empty :
    (us : List Update) (ms : List BracketMatch) → is_empty us ≡ true → apply_updates us ms ≡ ms
unfolding apply_updates is_empty
apply_updates-is_empty [] ms h = refl
apply_updates-is_empty (u ∷ us) ms h = cc

-- A pass that reports no change makes none.
advance_pass-same :
    (ms : List BracketMatch) → (advance_pass ms).1 ≡ false → (advance_pass ms).0 ≡ ms
unfolding advance_pass
advance_pass-same ms h =
    let done = map complete_bye ms in
    ground
      (arith, map-complete_bye-same ms, apply_updates-is_empty (collect_updates done done) done)

advance_loop_ends :
    (fuel : ℕ) (ms : List BracketMatch)
    → all_open ms < fuel
    → (advance_pass (advance_loop fuel ms)).1 ≡ false
unfolding advance_loop
advance_loop_ends zero ms h = absurd (omega arith)
advance_loop_ends (suc fuel) ms h = elim (Bool-cases (advance_pass ms).1) [
  | inl more ↦
      rw (more, advance_loop)
        (advance_loop_ends fuel (advance_pass ms).0 (omega (arith, advance_pass-open ms more)))
  | inr done ↦
      rw (done, advance_loop) (ap (λ r. (advance_pass r).1) (advance_pass-same ms done) ∙ done)
]

-- On any matches the loop of advanceSingleElim ends within the fuel: it stops at matches in which a
-- pass finds no bye to complete and no winner to move, and which a pass leaves as they are.
pub advance_single_elim_ends :
    (ms : List BracketMatch)
    → ((advance_pass (advance_single_elim ms)).1 ≡ false)
      × ((advance_pass (advance_single_elim ms)).0 ≡ advance_single_elim ms)
unfolding advance_single_elim
advance_single_elim_ends ms =
    let ends = advance_loop_ends (3 * length ms + 1) ms (omega (arith, all_open-le ms)) in
    (ends, advance_pass-same (advance_loop (3 * length ms + 1) ms) ends)
