-- ===== src/Web/Auth/Compare.antt =====
-- The constant-time comparison of auth.ts is equality.
use avax_build_games.Prelude.{
  ℕ, zero, suc, ◌/◌, ◌^◌, ◌<◌, ◌≡◌, refl, subst, ap₂, true, [], ◌∷◌, length, All, arith, ◌↔◌,
}
use avax_build_games.Engine.Seeding.BitReverse.{two_pow_suc}
use avax_build_games.Web.Text.{Text}
use avax_build_games.Web.Auth.{bits_xor, bits_or, diff_loop, same_token}

bits_or_zero : (w x y : ℕ) → x < 2 ^ w → y < 2 ^ w → bits_or w x y ≡ 0 → (x ≡ 0) × (y ≡ 0)
unfolding bits_or
bits_or_zero zero x y hx hy h = (omega arith, omega arith)
bits_or_zero (suc w) x y hx hy h =
    let p = two_pow_suc w in
    let rest = bits_or_zero w (x / 2) (y / 2) (omega arith) (omega arith) (ground arith) in
    (ground (arith, rest.0), ground (arith, rest.1))

bits_or_lt : (w x y : ℕ) → bits_or w x y < 2 ^ w
unfolding bits_or
bits_or_lt zero x y = omega arith
bits_or_lt (suc w) x y = ground (arith, two_pow_suc w, bits_or_lt w (x / 2) (y / 2))

bits_xor_lt : (w x y : ℕ) → bits_xor w x y < 2 ^ w
unfolding bits_xor
bits_xor_lt zero x y = omega arith
bits_xor_lt (suc w) x y = ground (arith, two_pow_suc w, bits_xor_lt w (x / 2) (y / 2))

bits_xor_zero : (w x y : ℕ) → x < 2 ^ w → y < 2 ^ w → bits_xor w x y ≡ 0 → x ≡ y
unfolding bits_xor
bits_xor_zero zero x y hx hy h = omega arith
bits_xor_zero (suc w) x y hx hy h =
    let p = two_pow_suc w in
    let rest = bits_xor_zero w (x / 2) (y / 2) (omega arith) (omega arith) (ground arith) in
    ground (arith, rest)

bits_xor_self : (w x : ℕ) → bits_xor w x x ≡ 0
unfolding bits_xor
bits_xor_self zero x = refl
bits_xor_self (suc w) x = ground (arith, bits_xor_self w (x / 2))

bits_or_none : (w : ℕ) → bits_or w 0 0 ≡ 0
unfolding bits_or
bits_or_none zero = refl
bits_or_none (suc w) = ground (arith, bits_or_none w)

-- The characters are UTF-16 code units.
abbrev pub CodeUnits : Text → Type 0
CodeUnits s = All (λ c. c < 2 ^ 16) s

diff_loop_zero :
    (diff : ℕ) (a b : Text)
    → diff < 2 ^ 32
    → CodeUnits a
    → CodeUnits b
    → length a ≡ length b
    → diff_loop diff a b ≡ 0
    → (diff ≡ 0) × (a ≡ b)
unfolding diff_loop
diff_loop_zero diff [] [] hd ha hb len h = (h, refl)
diff_loop_zero diff [] (d ∷ b) hd ha hb len h = cc
diff_loop_zero diff (c ∷ a) [] hd ha hb len h = cc
diff_loop_zero diff (c ∷ a) (d ∷ b) hd ha hb len h =
    let x = bits_xor 32 c d in
    let rest =
      diff_loop_zero (bits_or 32 diff x) a b (bits_or_lt 32 diff x) ha.1 hb.1 (omega arith) h in
    let both = bits_or_zero 32 diff x hd (bits_xor_lt 32 c d) rest.0 in
    let hc : c < 2 ^ 16 = ha.0 in
    let hd' : d < 2 ^ 16 = hb.0 in
    (both.0, ap₂ ◌∷◌ (bits_xor_zero 32 c d (omega arith) (omega arith) both.1) rest.1)

diff_loop_self : (a : Text) → diff_loop 0 a a ≡ 0
unfolding diff_loop
diff_loop_self [] = refl
diff_loop_self (c ∷ a) = rw (bits_xor_self 32 c, bits_or_none 32) (diff_loop_self a)

same_token_refl : (a : Text) → same_token a a ≡ true
unfolding same_token
same_token_refl a = ground (arith, diff_loop_self a)

-- On strings of 16-bit code units the comparison without early exit is equality.
pub same_token_iff : (a b : Text) → CodeUnits a → CodeUnits b → (same_token a b ≡ true) ↔ (a ≡ b)
unfolding same_token
same_token_iff a b ha hb = (
  (λ h. (diff_loop_zero 0 a b (omega arith) ha hb (ground arith) (ground arith)).1),
  (λ e. subst (λ c. same_token a c ≡ true) e (same_token_refl a)),
)
