-- ===== src/Engine/RoundRobin/Sides.antt =====
-- Who stands on the sides of a round robin.
use mathlib.Core.Option.{some-injective}
use avax_build_games.Prelude.{
  subst, ap, ℕ, zero, suc, ◌+◌, ◌-◌, ◌/◌, ◌≡◌, Option, none, some, List, [], ◌∷◌, length, get_or,
  replicate, All, All-append, map, Option-cases, inl, inr,
}
use avax_build_games.Engine.Types.{Entrant}
use avax_build_games.Engine.MatchMap.Sides.{OfSide, OfSides}
use avax_build_games.Engine.SingleElim.Sides.{get_or-OfSide, replicate-none-OfSide}
use avax_build_games.Engine.RoundRobin.{
  both, pop_last, splice_at_one, rotate, pair_positions, round_robin_rounds, build_round_robin,
  padded_len, initial_positions,
}

module _ (P : Entrant → Type 0) where
  abbrev OfPlaces : List (Option Entrant) → Type 0
  OfPlaces ps = All (OfSide P) ps

  pop_last-OfPlaces :
      (ps : List (Option Entrant))
      → OfPlaces ps
      → OfSide P (pop_last ps).0 × OfPlaces (pop_last ps).1
  unfolding pop_last
  pop_last-OfPlaces [] h = (tt, tt)
  pop_last-OfPlaces (p ∷ []) h = (h.0, tt)
  pop_last-OfPlaces (p ∷ q ∷ ps) h =
      let rest = pop_last-OfPlaces (q ∷ ps) h.1 in (rest.0, (h.0, rest.1))

  splice_at_one-OfPlaces :
      (last : Option Entrant) (front : List (Option Entrant))
      → OfSide P last
      → OfPlaces front
      → OfPlaces (splice_at_one last front)
  unfolding splice_at_one
  splice_at_one-OfPlaces last [] hl h = (hl, tt)
  splice_at_one-OfPlaces last (p ∷ ps) hl h = (h.0, (hl, h.1))

  rotate-OfPlaces : (ps : List (Option Entrant)) → OfPlaces ps → OfPlaces (rotate ps)
  unfolding rotate
  rotate-OfPlaces ps h =
      let split = pop_last-OfPlaces ps h in
      splice_at_one-OfPlaces (pop_last ps).0 (pop_last ps).1 split.0 split.1

  both-OfSide :
      (s t : Option Entrant) (x y : Entrant)
      → OfSide P s
      → OfSide P t
      → both s t ≡ some (x, y)
      → P x × P y
  both-OfSide none t x y hs ht e = cc
  both-OfSide (some s) none x y hs ht e = cc
  both-OfSide (some s) (some t) x y hs ht e =
      let pair = some-injective (s, t) (x, y) e in
      (
        subst P (ap (λ (p : Entrant × Entrant). p.0) pair) hs,
        subst P (ap (λ (p : Entrant × Entrant). p.1) pair) ht,
      )

  pair_positions-OfSides :
      (left i : ℕ) (ps : List (Option Entrant)) (padded round next_id slot : ℕ)
      → OfPlaces ps
      → All (OfSides P) (pair_positions left i ps padded round next_id slot)
  unfolding pair_positions
  pair_positions-OfSides zero i ps padded round next_id slot h = tt
  pair_positions-OfSides (suc left) i ps padded round next_id slot h =
      let s = get_or ps i none in
      let t = get_or ps (padded - 1 - i) none in
      elim (Option-cases (both s t)) [
        | inl e ↦
            rw (e, pair_positions)
              (pair_positions-OfSides left (suc i) ps padded round next_id slot h)
        | inr ((x, y), e) ↦
            let sides =
              both-OfSide s t x y (get_or-OfSide P ps i h) (get_or-OfSide P ps (padded - 1 - i) h)
                e in
            rw (e, pair_positions)
              (
                record { a = sides.0; b = sides.1 },
                pair_positions-OfSides left (suc i) ps padded round (suc next_id) (suc slot) h,
              )
      ]

  round_robin_rounds-OfSides :
      (left round : ℕ) (ps : List (Option Entrant)) (padded next_id : ℕ)
      → OfPlaces ps
      → All (OfSides P) (round_robin_rounds left round ps padded next_id)
  unfolding round_robin_rounds
  round_robin_rounds-OfSides zero round ps padded next_id h = tt
  round_robin_rounds-OfSides (suc left) round ps padded next_id h =
      let played = pair_positions (padded / 2) 0 ps padded round next_id 0 in
      All-append (OfSides P) played _
        (pair_positions-OfSides (padded / 2) 0 ps padded round next_id 0 h)
        (round_robin_rounds-OfSides left (suc round) (rotate ps) padded (next_id + length played)
          (rotate-OfPlaces ps h))

  map-some-OfPlaces : (es : List Entrant) → All P es → OfPlaces (map some es)
  map-some-OfPlaces [] h = tt
  map-some-OfPlaces (e ∷ es) h = (h.0, map-some-OfPlaces es h.1)

  pub build_round_robin-OfSides :
      (es : List Entrant) (start_id : ℕ)
      → All P es
      → All (OfSides P) (build_round_robin es start_id).matches
  unfolding build_round_robin initial_positions
  build_round_robin-OfSides es start_id h =
      let padded = padded_len (length es) in
      round_robin_rounds-OfSides (padded - 1) 0 (initial_positions es) padded start_id (
        All-append (OfSide P) (map some es) (replicate (padded - length es) none)
          (map-some-OfPlaces es h) (replicate-none-OfSide P (padded - length es)))
