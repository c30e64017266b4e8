-- ===== src/Engine/Seeding.antt =====
-- seeding.ts of web/src/lib/engine. The 32-bit integers of `<<`, `>>` and `|` are kept as the
-- unsigned numbers that have their bits.
pub mod BitReverse
pub mod NextPow2
use avax_build_games.Prelude.{
  ℕ, zero, suc, ◌+◌, ◌*◌, ◌/◌, ◌%◌, ◌^◌, Bool, true, false, ◌||◌, Option, none, some, List, map,
  ltb, leb, if◌then◌else◌, range,
}
use mathlib.Core.Option.{get_or}

-- x << 1
int32_shl_one : ℕ → ℕ
int32_shl_one x = (x * 2) % 2 ^ 32

-- x >> 1, which copies the sign bit
int32_sar_one : ℕ → ℕ
int32_sar_one x = if leb (2 ^ 31) x then x / 2 + 2 ^ 31 else x / 2

-- The loop of `bitReverse`, by the rounds that are left. The last bit of `r << 1` is 0, so that
-- `| (v & 1)` adds the last bit of `v`.
bit_reverse_loop : ℕ → ℕ → ℕ → ℕ
bit_reverse_loop zero r v = r
bit_reverse_loop (suc i) r v = bit_reverse_loop i (int32_shl_one r + v % 2) (int32_sar_one v)

unfoldable pub bit_reverse : ℕ → ℕ → ℕ
unfolding bit_reverse_loop int32_shl_one int32_sar_one
bit_reverse x k = bit_reverse_loop k 0 (x % 2 ^ 32)

-- The rounds of a loop `for (i = 0; i < Math.log2(size); i++)`: it goes on while 2 ^ i < size.
log2_loop : ℕ → ℕ → ℕ → ℕ
log2_loop zero i size = i
log2_loop (suc fuel) i size =
    let rest = log2_loop fuel (suc i) size in if ltb (2 ^ i) size then rest else i

unfoldable pub log2 : ℕ → ℕ
unfolding log2_loop
log2 size = log2_loop size 0 size

-- Entry `s - 1` of the array, for `s` from 1 to `size`.
unfoldable pub seed_slots : ℕ → List ℕ
seed_slots size = map (λ s. bit_reverse s (log2 size)) (range 0 size)

-- The comparison `p < n` of a 32-bit integer: with its sign bit it is negative.
int32_lt : ℕ → ℕ → Bool
int32_lt p n = leb (2 ^ 31) p || ltb p n

-- The loop of `nextPow2`; `none` means that it has not ended with the fuel given.
unfoldable pub next_pow2_loop : ℕ → ℕ → ℕ → Option ℕ
unfolding int32_lt int32_shl_one
next_pow2_loop zero p n = none
next_pow2_loop (suc fuel) p n =
    let rest = next_pow2_loop fuel (int32_shl_one p) n in if int32_lt p n then rest else some p

-- Where the loop never ends there is no result, and 0 stands for that.
unfoldable pub next_pow2 : ℕ → ℕ
unfolding next_pow2_loop
next_pow2 n = get_or (next_pow2_loop 32 1 n) 0
