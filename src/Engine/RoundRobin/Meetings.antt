-- ===== src/Engine/RoundRobin/Meetings.antt =====
-- The meetings of a round robin.
use avax_build_games.Prelude.{
  ℕ, zero, suc, ◌+◌, ◌-◌, ◌*◌, ◌/◌, ◌≤◌, ◌<◌, ◌≡◌, ◌≢◌, refl, sym, subst, ap, ap₂, ◌∙◌, true,
  Option, none, some, List, length, contains, arith, Option-cases, inl, inr,
}
use avax_build_games.Engine.Meetings.{is_entrant, faces, meetings, meetings-append}
use avax_build_games.Engine.Types.{Entrant, entrant_ids}
use avax_build_games.Engine.Tournament.{ids_unique}
use avax_build_games.Engine.RoundRobin.{
  both, pair_positions, rotate, round_robin_rounds, build_round_robin, padded_len,
  initial_positions,
}
use avax_build_games.Engine.RoundRobin.Circle.{turn}
use avax_build_games.Engine.RoundRobin.Rotation.{Places, at, IsRound, IsRound-start, rotate-IsRound}
use avax_build_games.Engine.RoundRobin.Sums.{sum_from, sum_from_same}
use avax_build_games.Engine.RoundRobin.Table.{met, met_in, met_once}
use avax_build_games.Engine.RoundRobin.Starts.{
  StartsAt, initial_positions-StartsAt, length-initial_positions,
}

faces-none : (x y : ℕ) (a b : Option Entrant) → both a b ≡ none → faces x y a b ≡ 0
faces-none x y none none h = refl
faces-none x y none (some q) h = ground arith
faces-none x y (some p) none h = ground arith
faces-none x y (some p) (some q) h = cc

faces-some :
    (x y : ℕ) (a b : Option Entrant) (p q : Entrant)
    → both a b ≡ some (p, q)
    → faces x y a b ≡ faces x y (some p) (some q)
faces-some x y none b p q h = cc
faces-some x y (some p') none p q h = cc
faces-some x y (some p') (some q') p q h = ground arith

module _ (x y : ℕ) where
  pair_positions-meetings :
      (left i : ℕ) (ps : Places) (padded round next_id slot : ℕ)
      → meetings x y (pair_positions left i ps padded round next_id slot)
        ≡ sum_from (λ k. faces x y (at ps k) (at ps (padded - 1 - k))) left i
  unfolding pair_positions
  pair_positions-meetings zero i ps padded round next_id slot = refl
  pair_positions-meetings (suc left) i ps padded round next_id slot =
      elim (Option-cases (both (at ps i) (at ps (padded - 1 - i)))) [
        | inl e ↦
            let rest = pair_positions-meetings left (suc i) ps padded round next_id slot in
            let nobody = faces-none x y (at ps i) (at ps (padded - 1 - i)) e in
            rw (e, pair_positions) (omega (arith, rest, nobody))
        | inr ((p, q), e) ↦
            let rest =
              pair_positions-meetings left (suc i) ps padded round (suc next_id) (suc slot) in
            let pair = faces-some x y (at ps i) (at ps (padded - 1 - i)) p q e in
            rw (e, pair_positions) (omega (arith, rest, pair))
      ]

module _ (h m x y i j : ℕ) (start : Places) (odd : suc m ≡ 2 * h) (x_at : StartsAt x i start)
    (y_at : StartsAt y j start) where
  faces-met :
      (r k : ℕ) → faces x y (at start (turn m r k)) (at start (turn m r (m - k))) ≡ met m i j r k
  faces-met r k =
      rw
        (
          x_at.only (turn m r k),
          x_at.only (turn m r (m - k)),
          y_at.only (turn m r k),
          y_at.only (turn m r (m - k)),
        )
        refl

  round-meetings :
      (r round next_id slot : ℕ) (ps : Places)
      → r < m
      → IsRound m r start ps
      → meetings x y (pair_positions h 0 ps (suc m) round next_id slot) ≡ met_in m i j h r
  round-meetings r round next_id slot ps in_time places =
      pair_positions-meetings x y h 0 ps (suc m) round next_id slot
      ∙ sum_from_same (λ k. faces x y (at ps k) (at ps (suc m - 1 - k))) (λ k. met m i j r k) h 0
          λ k lo hi.
            let opposite : suc m - 1 - k ≡ m - k = omega arith in
            ap₂ (λ a b. faces x y a b) (places.turned k (omega arith))
              (ap (λ t. at ps t) opposite ∙ places.turned (m - k) (omega arith))
            ∙ faces-met r k

  half : suc m / 2 ≡ h
  half = omega (arith, odd)

  -- The matches of a round and those of the rounds after it.
  round_then :
      (left r next_id : ℕ) (ps : Places) (rest : ℕ)
      → r < m
      → IsRound m r start ps
      → ((id : ℕ) → meetings x y (round_robin_rounds left (suc r) (rotate ps) (suc m) id) ≡ rest)
      → meetings x y (round_robin_rounds (suc left) r ps (suc m) next_id) ≡ met_in m i j h r + rest
  unfolding round_robin_rounds
  round_then left r next_id ps rest in_time places later =
      let played = pair_positions (suc m / 2) 0 ps (suc m) r next_id 0 in
      let now : meetings x y played ≡ met_in m i j h r =
        rw half (round-meetings r r next_id 0 ps in_time places) in
      meetings-append x y played
        (round_robin_rounds left (suc r) (rotate ps) (suc m) (next_id + length played))
      ∙ ap₂ ◌+◌ now (later (next_id + length played))

  rounds-meetings :
      (left r next_id : ℕ) (ps : Places)
      → r + left ≡ m
      → IsRound m r start ps
      → meetings x y (round_robin_rounds left r ps (suc m) next_id)
        ≡ sum_from (λ t. met_in m i j h t) left r
  unfolding round_robin_rounds
  rounds-meetings zero r next_id ps sum places = refl
  rounds-meetings (suc zero) r next_id ps sum places =
      round_then 0 r next_id ps 0 (omega (arith, sum)) places λ id. refl
  rounds-meetings (suc (suc left)) r next_id ps sum places =
      round_then (suc left) r next_id ps (sum_from (λ t. met_in m i j h t) (suc left) (suc r))
        (omega (arith, sum)) places
        λ id.
          rounds-meetings (suc left) (suc r) id (rotate ps) (omega (arith, sum))
            (rotate-IsRound m r start ps (omega (arith, sum)) places)

padded_even : (n : ℕ) → 0 < n → suc (padded_len n - 1) ≡ 2 * (padded_len n / 2)
padded_even n h = ground arith

padded_enough : (n : ℕ) → 0 < n → (suc (padded_len n - 1) ≡ padded_len n) × (n ≤ padded_len n)
padded_enough n h = ground arith

StartsAt-apart :
    (x y i j : ℕ) (start : Places) → StartsAt x i start → StartsAt y j start → x ≢ y → i ≢ j
StartsAt-apart x y i j start x_at y_at ne same =
    let one : is_entrant x (at start i) ≡ true = x_at.only i ∙ ground arith in
    let two : is_entrant y (at start i) ≡ true = y_at.only i ∙ ground (arith, same) in
    ne (same_entrant (at start i) one two)
  where
    same_entrant : (e : Option Entrant) → is_entrant x e ≡ true → is_entrant y e ≡ true → x ≡ y
    same_entrant none one two = cc
    same_entrant (some e) one two = ground (arith, one, two)

-- In a round robin of distinct entrants, every two of them have one match.
pub build_round_robin-meets :
    (entrants : List Entrant) (start_id x y : ℕ)
    → ids_unique entrants ≡ true
    → contains x (entrant_ids entrants) ≡ true
    → contains y (entrant_ids entrants) ≡ true
    → x ≢ y
    → meetings x y (build_round_robin entrants start_id).matches ≡ 1
unfolding build_round_robin
build_round_robin-meets entrants start_id x y unique x_in y_in ne =
    let x_at = initial_positions-StartsAt x entrants unique x_in in
    let y_at = initial_positions-StartsAt y entrants unique y_in in
    let n = length entrants in
    let start = initial_positions entrants in
    let p = padded_len n in
    let some_one : 0 < n = omega (arith, x_at.1) in
    let fits = padded_enough n some_one in
    let even = padded_even n some_one in
    let apart = StartsAt-apart x y x_at.0 y_at.0 start x_at.2 y_at.2 ne in
    let size : length start ≡ suc (p - 1) = length-initial_positions entrants ∙ sym fits.0 in
    subst (λ q. meetings x y (round_robin_rounds (p - 1) 0 start q start_id) ≡ 1) fits.0
      (rounds-meetings (p / 2) (p - 1) x y x_at.0 y_at.0 start even x_at.2 y_at.2 (p - 1) 0 start_id
          start (omega arith) (IsRound-start (p - 1) start size)
        ∙ met_once (p / 2) (p - 1) x_at.0 y_at.0 even (omega (arith, x_at.1, fits))
            (omega (arith, y_at.1, fits)) apart)
