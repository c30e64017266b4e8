-- ===== src/Engine/RoundRobin/Circle.antt =====
-- The arithmetic of the circle method: which of the starting places 0 to `m` stands at a place in a
-- round, and where. Place 0 never moves.
use avax_build_games.Prelude.{
  ℕ, suc, ◌+◌, ◌-◌, ◌*◌, ◌/◌, ◌%◌, ◌≤◌, ◌<◌, ◌≡◌, ◌≢◌, ltb, leb, ◌==◌, if◌then◌else◌, arith,
}

-- The starting place of what stands at place `i` in round `r`.
abbrev pub turn : ℕ → ℕ → ℕ → ℕ
turn m r i = if i == 0 then 0 else if ltb r i then i - r else i + m - r

-- The place in round `r` of what starts at place `x`.
abbrev pub place : ℕ → ℕ → ℕ → ℕ
place m r x = if x == 0 then 0 else if leb (x + r) m then x + r else x + r - m

module _ (m r : ℕ) (in_time : r < m) where
  pub turn-place : (x : ℕ) → x ≤ m → turn m r (place m r x) ≡ x
  turn-place x h = ground arith

  pub place-turn : (i : ℕ) → i ≤ m → place m r (turn m r i) ≡ i
  place-turn i h = ground arith

  pub place_bound : (x : ℕ) → x ≤ m → place m r x ≤ m
  place_bound x h = ground arith

  pub turn_bound : (i : ℕ) → i ≤ m → turn m r i ≤ m
  turn_bound i h = ground arith

-- The round in which two starting places meet.
abbrev pub meeting : ℕ → ℕ → ℕ → ℕ
meeting m x y =
    if x == 0
    then m - y
    else if y == 0
    then m - x
    else if (x + y) % 2 == 0
    then m - (x + y) / 2
    else if leb (x + y) m
    then (m - (x + y)) / 2
    else (3 * m - (x + y)) / 2

module _ (h m : ℕ) (odd : suc m ≡ 2 * h) (x y : ℕ) (x_in : x ≤ m) (y_in : y ≤ m)
    (distinct : x ≢ y) where
  pub meeting_bound : meeting m x y < m
  meeting_bound = ground arith

  pub meeting_places : place m (meeting m x y) x + place m (meeting m x y) y ≡ m
  meeting_places = ground arith

  pub meeting_unique : (r : ℕ) → r < m → place m r x + place m r y ≡ m → r ≡ meeting m x y
  meeting_unique r in_time meets = ground arith
