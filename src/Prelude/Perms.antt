-- ===== src/Prelude/Perms.antt =====
-- What a permutation keeps, with the native length and the Boolean membership.
use native.Mathlib.Nat.{ℕ_set}
use Prim.Native.Nat.{ℕ, suc}
use mathlib.Core.Path.{◌≡◌, refl, sym, ap, ◌∙◌}
use mathlib.Core.Bool.{Bool, false, ◌||◌, Bool-set}
use mathlib.Core.List.{List, [], ◌∷◌, Perm, foldr}
use mathlib.Core.List.Perm
use native.Mathlib.Omega.{arith}
use avax_build_games.Prelude.Tests.{◌==◌}
use avax_build_games.Prelude.Lists.{length, contains}

abbrev count_one : ℕ → ℕ → ℕ
count_one x n = suc n

length-foldr : (xs : List ℕ) → length xs ≡ foldr count_one 0 xs
length-foldr [] = refl
length-foldr (x ∷ xs) = ap suc (length-foldr xs)

pub length-perm : {xs ys : List ℕ} → Perm xs ys → length xs ≡ length ys
length-perm {xs} {ys} p =
    length-foldr xs ∙ Perm.foldr-eq ℕ_set count_one (λ x y n. refl) p 0 ∙ sym (length-foldr ys)

-- Whether a member was seen.
abbrev one_is : ℕ → ℕ → Bool → Bool
one_is x y seen = x == y || seen

contains-foldr : (x : ℕ) (xs : List ℕ) → contains x xs ≡ foldr (one_is x) false xs
contains-foldr x [] = refl
contains-foldr x (y ∷ ys) = ap (λ b. x == y || b) (contains-foldr x ys)

one_is_comm : (x y z : ℕ) (b : Bool) → one_is x y (one_is x z b) ≡ one_is x z (one_is x y b)
one_is_comm x y z b = ground arith

pub contains-perm : (x : ℕ) {xs ys : List ℕ} → Perm xs ys → contains x xs ≡ contains x ys
contains-perm x {xs} {ys} p =
    contains-foldr x xs
    ∙ Perm.foldr-eq Bool-set (one_is x) (one_is_comm x) p false
    ∙ sym (contains-foldr x ys)
