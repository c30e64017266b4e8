-- ===== src/Engine/SingleElim/Sides.antt =====
-- Who stands on the sides of a new bracket.
use avax_build_games.Prelude.{
  ℕ, zero, suc, ◌+◌, ◌*◌, ◌/◌, ◌^◌, Option, none, some, List, [], ◌∷◌, length, get_or, set,
  replicate, max, All, All-set, All-sort, All-map-range, All-concat_map-range, map, range, leb,
}
use avax_build_games.Engine.Types.{Entrant}
use avax_build_games.Engine.MatchMap.Sides.{OfSide, OfSides}
use avax_build_games.Engine.Seeding.{seed_slots, next_pow2, log2}
use avax_build_games.Engine.SingleElim.{
  seed_order, place_seeds, slot_entrants, id_rows, starting, make_match, bracket_matches,
  build_single_elim,
}

module _ (P : Entrant → Type 0) where
  pub get_or-OfSide :
      (slots : List (Option Entrant)) (i : ℕ)
      → All (OfSide P) slots
      → OfSide P (get_or slots i none)
  get_or-OfSide [] i h = tt
  get_or-OfSide (s ∷ slots) zero h = h.0
  get_or-OfSide (s ∷ slots) (suc i) h = get_or-OfSide slots i h.1

  pub replicate-none-OfSide : (n : ℕ) → All (OfSide P) (replicate n none)
  replicate-none-OfSide zero = tt
  replicate-none-OfSide (suc n) = (tt, replicate-none-OfSide n)

  place_seeds-OfSide :
      (slots : List ℕ) (es : List Entrant) (sides : List (Option Entrant))
      → All P es
      → All (OfSide P) sides
      → All (OfSide P) (place_seeds slots es sides)
  unfolding place_seeds
  place_seeds-OfSide [] es sides he h = h
  place_seeds-OfSide (slot ∷ slots) [] sides he h = h
  place_seeds-OfSide (slot ∷ slots) (e ∷ es) sides he h =
      place_seeds-OfSide slots es (set sides slot (some e)) he.1
        (All-set (OfSide P) sides slot (some e) he.0 h)

  seed_order-Entrants : (es : List Entrant) → All P es → All P (seed_order es)
  unfolding seed_order
  seed_order-Entrants es h = All-sort (λ x y. leb x.seed y.seed) P es h

  slot_entrants-OfSide :
      (es : List Entrant) (bracket : ℕ) → All P es → All (OfSide P) (slot_entrants es bracket)
  unfolding slot_entrants
  slot_entrants-OfSide es bracket h =
      place_seeds-OfSide (seed_slots bracket) (seed_order es) (replicate bracket none)
        (seed_order-Entrants es h) (replicate-none-OfSide bracket)

  make_match-OfSides :
      (slots : List (Option Entrant)) (ids : List (List ℕ)) (rounds r i : ℕ)
      → All (OfSide P) slots
      → OfSides P (make_match slots ids rounds r i)
  unfolding make_match starting
  make_match-OfSides slots ids rounds zero i h = record {
    a = get_or-OfSide slots (i * 2) h;
    b = get_or-OfSide slots (i * 2 + 1) h;
  }
  make_match-OfSides slots ids rounds (suc r) i h = record { a = tt; b = tt }

  pub build_single_elim-OfSides :
      (es : List Entrant) (start_id : ℕ)
      → All P es
      → All (OfSides P) (build_single_elim es start_id).matches
  unfolding build_single_elim bracket_matches
  build_single_elim-OfSides es start_id h =
      let bracket = next_pow2 (max (length es) 2) in
      let rounds = log2 bracket in
      let ids = id_rows rounds 0 bracket start_id in
      let slots = slot_entrants es bracket in
      let hs = slot_entrants-OfSide es bracket h in
      All-concat_map-range
        (λ r. map (make_match slots ids rounds r) (range 0 (bracket / 2 ^ suc r))) (OfSides P) 0
        rounds
        λ r lo hi.
          All-map-range (make_match slots ids rounds r) (OfSides P) 0 (bracket / 2 ^ suc r)
            λ i lo hi. make_match-OfSides slots ids rounds r i hs
