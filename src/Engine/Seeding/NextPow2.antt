-- ===== src/Engine/Seeding/NextPow2.antt =====
-- nextPow2 and the use of Math.log2 of seeding.ts: where they end, and what they return.
use mathlib.Core.Option.{get_or}
use native.Mathlib.Decide.{dec_lt}
use avax_build_games.Prelude.{
  ℕ, zero, suc, ◌+◌, ◌^◌, max, ◌≤◌, ◌<◌, ◌≡◌, refl, ap, inl, inr, Option, none, some, arith, ltb,
  Bool-cases, true, ltb→lt, lt→ltb,
}
use avax_build_games.Engine.Seeding.{
  log2, log2_loop, next_pow2, next_pow2_loop, int32_lt, int32_shl_one,
}
use avax_build_games.Engine.Seeding.BitReverse.{two_pow_suc, two_pow_mono, one-le-two_pow}

two_pow_lt : (j k : ℕ) → j < k → 2 ^ j < 2 ^ k
two_pow_lt j k h = omega (arith, two_pow_mono (suc j) k h, two_pow_suc j, one-le-two_pow j)

two_pow_lt_inv : (j k : ℕ) → 2 ^ j < 2 ^ k → j < k
two_pow_lt_inv j k h = ground (arith, two_pow_mono k j)

lt-two_pow : (k : ℕ) → k < 2 ^ k
lt-two_pow zero = omega arith
lt-two_pow (suc k) = omega (arith, lt-two_pow k, two_pow_suc k)

log2_loop-two_pow : (fuel i k : ℕ) → i ≤ k → k < i + fuel → log2_loop fuel i (2 ^ k) ≡ k
unfolding log2_loop
log2_loop-two_pow zero i k h hf = absurd (omega arith)
log2_loop-two_pow (suc fuel) i k h hf = elim (Bool-cases (ltb (2 ^ i) (2 ^ k))) [
  | inl more ↦
      rw more
        (log2_loop-two_pow fuel (suc i) k (two_pow_lt_inv i k (ltb→lt _ _ more)) (omega arith))
  | inr done ↦ rw done (ground (arith, two_pow_lt i k))
]

-- The rounds counted for a power of two are its exponent.
pub log2-two_pow : (k : ℕ) → log2 (2 ^ k) ≡ k
unfolding log2
log2-two_pow k = log2_loop-two_pow (2 ^ k) 0 k (omega arith) (omega (arith, lt-two_pow k))

-- `2 ^ i` is the least power of two from `n` on.
pub record IsLeastPow (n i : ℕ) : Type 0 where
  pub small : i ≤ 30
  pub above : n ≤ 2 ^ i
  pub least : (j : ℕ) → n ≤ 2 ^ j → i ≤ j

int32_lt-two_pow : (i n : ℕ) → i ≤ 30 → int32_lt (2 ^ i) n ≡ ltb (2 ^ i) n
unfolding int32_lt
int32_lt-two_pow i n h = ground (arith, two_pow_mono i 30 h)

shl-two_pow : (i : ℕ) → i ≤ 30 → int32_shl_one (2 ^ i) ≡ 2 ^ suc i
unfolding int32_shl_one
shl-two_pow i h = omega (arith, two_pow_mono i 30 h, two_pow_suc i)

next_pow2_loop_least :
    (fuel i n : ℕ)
    → n ≤ 2 ^ 30
    → i ≤ 30
    → 30 < i + fuel
    → ((j : ℕ) → n ≤ 2 ^ j → i ≤ j)
    → (e : ℕ) × (next_pow2_loop fuel (2 ^ i) n ≡ some (2 ^ e)) × IsLeastPow n e
unfolding next_pow2_loop
next_pow2_loop_least zero i n hn hi hf least = absurd (omega arith)
next_pow2_loop_least (suc fuel) i n hn hi hf least = elim (Bool-cases (ltb (2 ^ i) n)) [
  | inl more ↦
      let below = ltb→lt _ _ more in
      let room = two_pow_lt_inv i 30 (omega arith) in
      let grown : (j : ℕ) → n ≤ 2 ^ j → suc i ≤ j = λ j hj. two_pow_lt_inv i j (omega arith) in
      rw (int32_lt-two_pow i n hi, more, shl-two_pow i hi)
        (next_pow2_loop_least fuel (suc i) n hn room (omega arith) grown)
  | inr done ↦
      rw (int32_lt-two_pow i n hi, done)
        (i, refl, record { small = hi; above = ground arith; least = least })
]

-- For n up to 2 ^ 30 the loop ends, and returns the least power of two that is at least n.
pub next_pow2-IsLeastPow : (n : ℕ) → n ≤ 2 ^ 30 → (e : ℕ) × (next_pow2 n ≡ 2 ^ e) × IsLeastPow n e
unfolding next_pow2
next_pow2-IsLeastPow n h =
    let (e, ran, least) =
      next_pow2_loop_least 32 0 n h (omega arith) (omega arith) (λ j _. omega arith) in
    (e, ap (λ (o : Option ℕ). get_or o 0) ran, least)

next_pow2_loop_zero : (fuel n : ℕ) → 0 < n → next_pow2_loop fuel 0 n ≡ none
unfolding next_pow2_loop int32_lt int32_shl_one
next_pow2_loop_zero zero n h = refl
next_pow2_loop_zero (suc fuel) n h = rw (lt→ltb 0 n h) (next_pow2_loop_zero fuel n h)

next_pow2_loop_wraps : (fuel n : ℕ) → 0 < n → next_pow2_loop fuel (2 ^ 31) n ≡ none
unfolding next_pow2_loop int32_lt int32_shl_one
next_pow2_loop_wraps zero n h = refl
next_pow2_loop_wraps (suc fuel) n h = next_pow2_loop_zero fuel n h

next_pow2_loop_past : (fuel i n : ℕ) → 2 ^ 30 < n → i ≤ 31 → next_pow2_loop fuel (2 ^ i) n ≡ none
unfolding next_pow2_loop
next_pow2_loop_past zero i n h hi = refl
next_pow2_loop_past (suc fuel) i n h hi = elim (dec_lt i 31) [
  | yes p ↦
      let low : i ≤ 30 = omega arith in
      let goes : ltb (2 ^ i) n ≡ true = lt→ltb (2 ^ i) n (omega (arith, two_pow_mono i 30 low)) in
      rw (int32_lt-two_pow i n low, goes, shl-two_pow i low)
        (next_pow2_loop_past fuel (suc i) n h p)
  | no p ↦
      let top : i ≡ 31 = omega arith in rw top (next_pow2_loop_wraps (suc fuel) n (omega arith))
]

-- From 2 ^ 30 + 1 on, the 32-bit shift runs over its sign bit to 0 and the loop never ends:
-- no number of rounds is enough.
pub next_pow2_loop_diverges : (fuel n : ℕ) → 2 ^ 30 < n → next_pow2_loop fuel 1 n ≡ none
next_pow2_loop_diverges fuel n h = next_pow2_loop_past fuel 0 n h (omega arith)

-- The bracket of 2 or more entrants: the exponent is positive, and half the bracket is too small.
pub bracket_size :
    (n : ℕ)
    → 2 ≤ n
    → n ≤ 2 ^ 30
    → (k : ℕ) × (next_pow2 (max n 2) ≡ 2 ^ suc k) × (k ≤ 29) × (n ≤ 2 ^ suc k) × (2 ^ k < n)
bracket_size n lo hi =
    let same : max n 2 ≡ n = omega arith in
    let (e, eq, p) = next_pow2-IsLeastPow n hi in rw same (positive e eq p)
  where
    positive :
        (e : ℕ)
        → next_pow2 n ≡ 2 ^ e
        → IsLeastPow n e
        → (k : ℕ) × (next_pow2 n ≡ 2 ^ suc k) × (k ≤ 29) × (n ≤ 2 ^ suc k) × (2 ^ k < n)
    positive zero eq p = absurd (omega (arith, p.above))
    positive (suc k) eq p = (k, eq, omega (arith, p.small), p.above, ground (arith, p.least k))
