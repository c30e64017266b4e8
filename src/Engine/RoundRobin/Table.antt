-- ===== src/Engine/RoundRobin/Table.antt =====
-- How often two starting places are put against each other.
use avax_build_games.Prelude.{
  ℕ, suc, ◌+◌, ◌-◌, ◌*◌, ◌≤◌, ◌<◌, ◌≡◌, ◌≢◌, refl, sym, ap, ◌∙◌, arith, ◌==◌, ◌&&◌, ◌||◌, true,
  false, leb, if◌then◌else◌, Bool-cases, inl, inr, ◌⊎◌,
}
use avax_build_games.Engine.RoundRobin.Circle.{
  turn, place, meeting, turn-place, place-turn, meeting_bound, meeting_places, meeting_unique,
}
use avax_build_games.Engine.RoundRobin.Sums.{sum_from, sum_from_zero, sum_from_single}

-- 1 if `a` and `b` are `x` and `y` in any order.
abbrev pub both_are : ℕ → ℕ → ℕ → ℕ → ℕ
both_are x y a b = if (a == x && b == y) || (b == x && a == y) then 1 else 0

-- Whether `a` against `b` is `x` against `y`.
both_are-cases : (x y a b : ℕ) → (both_are x y a b ≡ 0) ⊎ ((a ≡ x) × (b ≡ y)) ⊎ ((b ≡ x) × (a ≡ y))
both_are-cases x y a b = elim (Bool-cases (a == x && b == y)) [
  | inl e ↦ inr (inl (ground (arith, e)))
  | inr e ↦ elim (Bool-cases (b == x && a == y)) [
    | inl e' ↦ inr (inr (ground (arith, e')))
    | inr e' ↦ inl (rw (e, e') refl)
  ]
]

both_are_straight : (x y a b : ℕ) → a ≡ x → b ≡ y → both_are x y a b ≡ 1
both_are_straight x y a b h k = ground (arith, h, k)

both_are_crossed : (x y a b : ℕ) → b ≡ x → a ≡ y → both_are x y a b ≡ 1
both_are_crossed x y a b h k = ground (arith, h, k)

module _ (m x y : ℕ) where
  -- The match of places `k` and `m - k` in round `r`.
  abbrev pub met : ℕ → ℕ → ℕ
  met r k = both_are x y (turn m r k) (turn m r (m - k))

  -- If it is the one of `x` and `y`, then they stand at `k` and `m - k`.
  met-cases :
      (r k : ℕ)
      → r < m
      → k ≤ m
      → (met r k ≡ 0)
        ⊎ ((place m r x ≡ k) × (place m r y ≡ m - k))
        ⊎ ((place m r x ≡ m - k) × (place m r y ≡ k))
  met-cases r k in_time b = elim (both_are-cases x y (turn m r k) (turn m r (m - k))) [
    | inl e ↦ inl e
    | inr (inl e) ↦ inr (
        inl (
          ap (λ t. place m r t) (sym e.0) ∙ place-turn m r in_time k b,
          ap (λ t. place m r t) (sym e.1) ∙ place-turn m r in_time (m - k) (omega arith),
        ))
    | inr (inr e) ↦ inr (
        inr (
          ap (λ t. place m r t) (sym e.0) ∙ place-turn m r in_time (m - k) (omega arith),
          ap (λ t. place m r t) (sym e.1) ∙ place-turn m r in_time k b,
        ))
  ]

  -- How often they meet in a round of `h` matches.
  abbrev pub met_in : ℕ → ℕ → ℕ
  met_in h r = sum_from (λ k. met r k) h 0

  met_in_none : (h r : ℕ) → suc m ≡ 2 * h → r < m → place m r x + place m r y ≢ m → met_in h r ≡ 0
  met_in_none h r odd in_time apart =
      sum_from_zero (λ k. met r k) h 0
        λ k lo hi. elim (met-cases r k in_time (omega arith)) [
          | inl e ↦ e
          | inr (inl e) ↦
              absurd (apart (sum_of (place m r x) (place m r y) k e.0 e.1 (omega arith)))
          | inr (inr e) ↦
              absurd (apart (sum_of' (place m r x) (place m r y) k e.0 e.1 (omega arith)))
        ]
    where
      sum_of : (a b k : ℕ) → a ≡ k → b ≡ m - k → k ≤ m → a + b ≡ m
      sum_of a b k e e' h = omega arith

      sum_of' : (a b k : ℕ) → a ≡ m - k → b ≡ k → k ≤ m → a + b ≡ m
      sum_of' a b k e e' h = omega arith

  -- In the round in which they stand opposite each other, they meet at the lower of their places.
  met_in_once :
      (h r a b : ℕ)
      → suc m ≡ 2 * h
      → r < m
      → place m r x ≡ a
      → place m r y ≡ b
      → a + b ≡ m
      → x ≤ m
      → y ≤ m
      → met_in h r ≡ 1
  met_in_once h r a b odd in_time at_a at_b opposite x_in y_in =
      let x_turn : turn m r a ≡ x =
        ap (λ t. turn m r t) (sym at_a) ∙ turn-place m r in_time x x_in in
      let y_turn : turn m r b ≡ y =
        ap (λ t. turn m r t) (sym at_b) ∙ turn-place m r in_time y y_in in
      let b_is : m - a ≡ b = omega (arith, opposite) in
      let a_is : m - b ≡ a = omega (arith, opposite) in
      elim (Bool-cases (leb a b)) [
        | inl e ↦
            sum_from_single (λ k. met r k) h 0 a (omega arith) (ground (arith, e, opposite, odd))
              (both_are_straight x y (turn m r a) (turn m r (m - a)) x_turn
                (ap (λ t. turn m r t) b_is ∙ y_turn))
              λ k lo hi ne. elim (met-cases r k in_time (omega arith)) [
                | inl e' ↦ e'
                | inr (inl e') ↦ absurd (ne (sym e'.0 ∙ at_a))
                | inr (inr e') ↦
                    absurd (lower a b k (sym at_a ∙ e'.0) (sym at_b ∙ e'.1) opposite hi odd e ne)
              ]
        | inr e ↦
            sum_from_single (λ k. met r k) h 0 b (omega arith) (ground (arith, e, opposite, odd))
              (both_are_crossed x y (turn m r b) (turn m r (m - b))
                (ap (λ t. turn m r t) a_is ∙ x_turn) y_turn)
              λ k lo hi ne. elim (met-cases r k in_time (omega arith)) [
                | inl e' ↦ e'
                | inr (inl e') ↦
                    absurd (upper a b k (sym at_a ∙ e'.0) (sym at_b ∙ e'.1) opposite hi odd e)
                | inr (inr e') ↦ absurd (ne (sym e'.1 ∙ at_b))
              ]
      ]
    where
      lower :
          (a b k : ℕ)
          → a ≡ m - k
          → b ≡ k
          → a + b ≡ m
          → k < 0 + h
          → suc m ≡ 2 * h
          → leb a b ≡ true
          → k ≢ a
          → ⊥
      lower a b k e e' s hi odd le ne = ground arith

      upper :
          (a b k : ℕ)
          → a ≡ k
          → b ≡ m - k
          → a + b ≡ m
          → k < 0 + h
          → suc m ≡ 2 * h
          → leb a b ≡ false
          → ⊥
      upper a b k e e' s hi odd le = ground arith

-- Over all rounds, two places meet once.
pub met_once :
    (h m x y : ℕ) → suc m ≡ 2 * h → x ≤ m → y ≤ m → x ≢ y → sum_from (λ r. met_in m x y h r) m 0 ≡ 1
met_once h m x y odd x_in y_in ne =
    let r = meeting m x y in
    let r_in = meeting_bound h m odd x y x_in y_in ne in
    sum_from_single (λ t. met_in m x y h t) m 0 r (omega arith) (omega (arith, r_in))
      (met_in_once m x y h r (place m r x) (place m r y) odd r_in refl refl
        (meeting_places h m odd x y x_in y_in ne) x_in y_in)
      λ t lo hi other.
        met_in_none m x y h t odd (omega arith)
          λ opposite. other (meeting_unique h m odd x y x_in y_in ne t (omega arith) opposite)
