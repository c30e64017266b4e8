-- ===== src/Engine/Seeding/BitReverse.antt =====
-- bitReverse of seeding.ts against the reversal of the low `k` bits, digit by digit.
use avax_build_games.Prelude.{
  ℕ, zero, suc, ◌+◌, ◌*◌, ◌/◌, ◌%◌, ◌^◌, ◌≤◌, ◌<◌, ◌≡◌, ap, ◌∙◌, ◌⊎◌, inl, inr, arith,
}
use avax_build_games.Engine.Seeding.{bit_reverse, bit_reverse_loop, int32_shl_one, int32_sar_one}
use native.Mathlib.Nat.{two-pow-succ, one-le-pow, add-mul, pow-le-pow_right}

unfoldable pub reverse_bits : ℕ → ℕ → ℕ
reverse_bits zero x = 0
reverse_bits (suc k) x = (x % 2) * 2 ^ k + reverse_bits k (x / 2)

-- At the numeral 2, which the tactics tell from the library's `two`.
pub two_pow_suc : (n : ℕ) → 2 ^ suc n ≡ 2 ^ n + 2 ^ n
two_pow_suc n = two-pow-succ n

pub one-le-two_pow : (k : ℕ) → 1 ≤ 2 ^ k
one-le-two_pow k = one-le-pow k 2 (omega arith)

pub two_pow_mono : (j k : ℕ) → j ≤ k → 2 ^ j ≤ 2 ^ k
two_pow_mono j k h = pow-le-pow_right (omega arith) h

pub low_bit : (x : ℕ) → (x % 2 ≡ 0) ⊎ (x % 2 ≡ 1)
low_bit x = omega arith

pub reverse_bits_lt : (k x : ℕ) → reverse_bits k x < 2 ^ k
unfolding reverse_bits
reverse_bits_lt zero x = omega arith
reverse_bits_lt (suc k) x = elim (low_bit x) [
  | inl e ↦ rw e (omega (arith, reverse_bits_lt k (x / 2), two_pow_suc k))
  | inr e ↦ rw e (omega (arith, reverse_bits_lt k (x / 2), two_pow_suc k))
]

le-mul_pos : (r p : ℕ) → 1 ≤ p → r ≤ r * p
le-mul_pos r p h = grind arith

-- Nothing is shifted out of the 32 bits as long as `r` with one more bit fits.
shl_fits : (p r : ℕ) → 1 ≤ p → (r + 1) * (p + p) ≤ 2 ^ 32 → int32_shl_one r ≡ r * 2
unfolding int32_shl_one
shl_fits p r one h = omega (arith, le-mul_pos r p one)

sar_small : (v : ℕ) → v < 2 ^ 31 → int32_sar_one v ≡ v / 2
unfolding int32_sar_one
sar_small v h = ground arith

loop_room : (p r v : ℕ) → (r + 1) * (p + p) ≤ 2 ^ 32 → (r * 2 + v % 2 + 1) * p ≤ 2 ^ 32
loop_room p r v h = elim (low_bit v) [ inl e ↦ rw e (omega arith) | inr e ↦ rw e (omega arith) ]

loop-reverse_bits :
    (i r v : ℕ)
    → (r + 1) * 2 ^ i ≤ 2 ^ 32
    → v < 2 ^ 31
    → bit_reverse_loop i r v ≡ r * 2 ^ i + reverse_bits i v
unfolding bit_reverse_loop reverse_bits
loop-reverse_bits zero r v h hv = omega arith
loop-reverse_bits (suc i) r v h hv =
    let room = rw (two_pow_suc i) at h in
    rw (shl_fits (2 ^ i) r (one-le-two_pow i) room, sar_small v hv)
      (omega (
        arith,
        loop-reverse_bits i (r * 2 + v % 2) (v / 2) (loop_room (2 ^ i) r v room) (omega arith),
        add-mul (r * 2) (v % 2) (2 ^ i),
        ap (λ (t : ℕ). r * t) (two_pow_suc i),
      ))

-- For a 31-bit number and at most 32 bits the loop reverses the low `k` bits.
pub bit_reverse-reverse_bits : (x k : ℕ) → x < 2 ^ 31 → k ≤ 32 → bit_reverse x k ≡ reverse_bits k x
unfolding bit_reverse
bit_reverse-reverse_bits x k hx hk =
    let small : x % 2 ^ 32 ≡ x = omega arith in
    rw small (omega (arith, loop-reverse_bits k 0 x (omega (arith, two_pow_mono k 32 hk)) hx))

-- The reversal with the top digit taken off.
reverse_bits_top :
    (k h l : ℕ)
    → l < 2 ^ k
    → h < 2
    → reverse_bits (suc k) (h * 2 ^ k + l) ≡ 2 * reverse_bits k l + h
unfolding reverse_bits
reverse_bits_top zero h l hl hh = omega arith
reverse_bits_top (suc k) h l hl hh =
    let x = h * 2 ^ suc k + l in
    let top = ap (λ (t : ℕ). h * t) (two_pow_suc k) in
    let low : x % 2 ≡ l % 2 = omega (arith, top) in
    let high : x / 2 ≡ h * 2 ^ k + l / 2 = omega (arith, top) in
    rw (low, high)
      (omega (
        arith,
        reverse_bits_top k h (l / 2) (omega (arith, two_pow_suc k)) hh,
        ap (λ (t : ℕ). (l % 2) * t) (two_pow_suc k),
      ))

-- Reversing twice gives the number back.
pub reverse_bits_invol : (k x : ℕ) → x < 2 ^ k → reverse_bits k (reverse_bits k x) ≡ x
unfolding reverse_bits
reverse_bits_invol zero x h = omega arith
reverse_bits_invol (suc k) x h = omega (
  arith,
  reverse_bits_top k (x % 2) (reverse_bits k (x / 2)) (reverse_bits_lt k (x / 2)) (omega arith),
  reverse_bits_invol k (x / 2) (omega (arith, two_pow_suc k)),
)

-- Below 2 ^ k the loop's result is below 2 ^ k.
pub bit_reverse_lt : (x k : ℕ) → k ≤ 31 → x < 2 ^ k → bit_reverse x k < 2 ^ k
bit_reverse_lt x k hk hx =
    rw (bit_reverse-reverse_bits x k (omega (arith, two_pow_mono k 31 hk)) (omega arith))
      (reverse_bits_lt k x)

-- On the numbers below 2 ^ k, for k up to 31, bitReverse is its own inverse.
pub bit_reverse_invol : (x k : ℕ) → k ≤ 31 → x < 2 ^ k → bit_reverse (bit_reverse x k) k ≡ x
bit_reverse_invol x k hk hx =
    let small = bit_reverse-reverse_bits x k (omega (arith, two_pow_mono k 31 hk)) (omega arith) in
    let fits : bit_reverse x k < 2 ^ 31 =
      omega (arith, two_pow_mono k 31 hk, bit_reverse_lt x k hk hx) in
    bit_reverse-reverse_bits (bit_reverse x k) k fits (omega arith)
    ∙ ap (reverse_bits k) small
    ∙ reverse_bits_invol k x hx

-- With one bit more, the reversal of a reversed number is twice that number.
pub bit_reverse_double :
    (i k : ℕ) → k ≤ 30 → i < 2 ^ k → bit_reverse (bit_reverse i k) (suc k) ≡ i * 2
bit_reverse_double i k hk hi =
    let room = two_pow_mono k 30 hk in
    let e = bit_reverse-reverse_bits i k (omega (arith, room)) (omega arith) in
    let r = reverse_bits_lt k i in
    let low : 0 * 2 ^ k + reverse_bits k i ≡ reverse_bits k i = omega arith in
    let top = rw low at (reverse_bits_top k 0 (reverse_bits k i) r (omega arith)) in
    rw
      (
        e,
        bit_reverse-reverse_bits (reverse_bits k i) (suc k) (omega (arith, r, room)) (omega arith),
      )
      (omega (arith, top, reverse_bits_invol k i hi))

-- With that bit set, it is one more than twice the number.
pub bit_reverse_double_add :
    (i k : ℕ) → k ≤ 30 → i < 2 ^ k → bit_reverse (bit_reverse i k + 2 ^ k) (suc k) ≡ i * 2 + 1
bit_reverse_double_add i k hk hi =
    let room = two_pow_mono k 30 hk in
    let e = bit_reverse-reverse_bits i k (omega (arith, room)) (omega arith) in
    let r = reverse_bits_lt k i in
    let low : 1 * 2 ^ k + reverse_bits k i ≡ reverse_bits k i + 2 ^ k = omega arith in
    let top = rw low at (reverse_bits_top k 1 (reverse_bits k i) r (omega arith)) in
    rw
      (
        e,
        bit_reverse-reverse_bits (reverse_bits k i + 2 ^ k) (suc k) (omega (arith, r, room))
            (omega arith),
      )
      (omega (arith, top, reverse_bits_invol k i hi))
