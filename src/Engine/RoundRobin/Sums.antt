-- ===== src/Engine/RoundRobin/Sums.antt =====
-- Sums over a range of numbers.
use avax_build_games.Prelude.{
  ℕ, zero, suc, ◌+◌, ◌≤◌, ◌<◌, ◌≡◌, ◌≢◌, refl, ap, ap₂, ◌∙◌, arith, ==_iff, ◌==◌, Bool-cases, inl,
  inr,
}

-- f i + f (i + 1) + ..., of `left` numbers.
abbrev pub sum_from : (ℕ → ℕ) → ℕ → ℕ → ℕ
sum_from f zero i = 0
sum_from f (suc left) i = f i + sum_from f left (suc i)

module _ (f g : ℕ → ℕ) where
  pub sum_from_same :
      (left i : ℕ)
      → ((k : ℕ) → i ≤ k → k < i + left → f k ≡ g k)
      → sum_from f left i ≡ sum_from g left i
  sum_from_same zero i h = refl
  sum_from_same (suc left) i h =
      ap₂ ◌+◌ (h i (omega arith) (omega arith))
        (sum_from_same left (suc i) λ k lo hi. h k (omega arith) (omega arith))

module _ (f : ℕ → ℕ) where
  pub sum_from_zero :
      (left i : ℕ) → ((k : ℕ) → i ≤ k → k < i + left → f k ≡ 0) → sum_from f left i ≡ 0
  sum_from_zero zero i h = refl
  sum_from_zero (suc left) i h =
      let rest = sum_from_zero left (suc i) λ k lo hi. h k (omega arith) (omega arith) in
      omega (arith, h i (omega arith) (omega arith), rest)

  -- One number counts once and the others do not count.
  pub sum_from_single :
      (left i n : ℕ)
      → i ≤ n
      → n < i + left
      → f n ≡ 1
      → ((k : ℕ) → i ≤ k → k < i + left → k ≢ n → f k ≡ 0)
      → sum_from f left i ≡ 1
  sum_from_single zero i n lo hi one others = absurd (omega arith)
  sum_from_single (suc left) i n lo hi one others = elim (Bool-cases (i == n)) [
    | inl e ↦
        let same = (==_iff i n).0 e in
        let rest =
          sum_from_zero left (suc i)
            λ k l h. others k (omega arith) (omega arith) (λ at. omega (arith, at, same)) in
        let here : f i ≡ 1 = ap f same ∙ one in omega (arith, here, rest)
    | inr e ↦
        let first = others i (omega arith) (omega arith) (λ same. ground (arith, same, e)) in
        let rest =
          sum_from_single left (suc i) n (ground (arith, e)) (omega arith) one
            λ k l h. others k (omega arith) (omega arith) in
        omega (arith, first, rest)
  ]
