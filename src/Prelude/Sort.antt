-- ===== src/Prelude/Sort.antt =====
-- `Array.prototype.sort`, which is stable: for a comparison that is total and transitive every
-- stable sort returns the same list, so an insertion sort stands for it.
use Prim.Native.Nat.{suc}
use mathlib.Core.Path.{◌≡◌, refl}
use mathlib.Core.Bool.{Bool, true, false}
use mathlib.Core.List.{List, [], ◌∷◌, Perm}
use mathlib.Core.List.Perm
use native.Mathlib.Omega.{arith}
use avax_build_games.Prelude.Tests.{if◌then◌else◌, Bool-cases}
use mathlib.Core.Logic.{inl, inr}
use avax_build_games.Prelude.Lists.{length, All}

-- `le x y` is `cmp(x, y) <= 0`.
module _ {ℓ} {A : Type ℓ} (le : A → A → Bool) where
  abbrev pub insert_sorted : A → List A → List A
  insert_sorted x [] = x ∷ []
  insert_sorted x (y ∷ ys) = if le x y then x ∷ y ∷ ys else y ∷ insert_sorted x ys

  abbrev pub sort : List A → List A
  sort [] = []
  sort (x ∷ xs) = insert_sorted x (sort xs)

  pub insert_sorted-perm : (x : A) (xs : List A) → Perm (insert_sorted x xs) (x ∷ xs)
  insert_sorted-perm x [] = Perm.rfl
  insert_sorted-perm x (y ∷ ys) = elim (Bool-cases (le x y)) [
    | inl e ↦ rw e Perm.rfl
    | inr e ↦ rw e (Perm.trans (Perm.cons y (insert_sorted-perm x ys)) (Perm.swap x y ys))
  ]

  pub sort-perm : (xs : List A) → Perm (sort xs) xs
  sort-perm [] = Perm.rfl
  sort-perm (x ∷ xs) = Perm.trans (insert_sorted-perm x (sort xs)) (Perm.cons x (sort-perm xs))

  pub length-insert_sorted : (x : A) (xs : List A) → length (insert_sorted x xs) ≡ suc (length xs)
  length-insert_sorted x [] = refl
  length-insert_sorted x (y ∷ ys) = ground (arith, length-insert_sorted x ys)

  pub length-sort : (xs : List A) → length (sort xs) ≡ length xs
  length-sort [] = refl
  length-sort (x ∷ xs) = omega (arith, length-insert_sorted x (sort xs), length-sort xs)

  pub All-insert_sorted {κ} :
      (P : A → Type κ) (x : A) (xs : List A) → P x → All P xs → All P (insert_sorted x xs)
  All-insert_sorted P x [] px h = (px, tt)
  All-insert_sorted P x (y ∷ ys) px h = elim (Bool-cases (le x y)) [
    | inl e ↦ rw e (px, h)
    | inr e ↦ rw e (h.0, All-insert_sorted P x ys px h.1)
  ]

  pub All-sort {κ} : (P : A → Type κ) (xs : List A) → All P xs → All P (sort xs)
  All-sort P [] h = tt
  All-sort P (x ∷ xs) h = All-insert_sorted P x (sort xs) h.0 (All-sort P xs h.1)

-- Neighbours are in the order.
abbrev pub Ascending {ℓ κ} : {A : Type ℓ} → (A → A → Type κ) → List A → Type κ
Ascending R [] = Unit
Ascending R (x ∷ []) = Unit
Ascending R (x ∷ y ∷ ys) = R x y × Ascending R (y ∷ ys)

module _ {ℓ κ} {A : Type ℓ} (le : A → A → Bool) (R : A → A → Type κ)
    (holds : (x y : A) → le x y ≡ true → R x y) (total : (x y : A) → le x y ≡ false → R y x) where
  insert_sorted-Ascending :
      (x : A) (xs : List A) → Ascending R xs → Ascending R (insert_sorted le x xs)
  insert_sorted-Ascending x [] h = tt
  insert_sorted-Ascending x (y ∷ []) h = elim (Bool-cases (le x y)) [
    | inl e ↦ rw e (holds x y e, tt)
    | inr e ↦ rw e (total x y e, tt)
  ]
  insert_sorted-Ascending x (y ∷ z ∷ zs) h = elim (Bool-cases (le x y)) [
    | inl e ↦ rw e (holds x y e, h)
    | inr e ↦ elim (Bool-cases (le x z)) [
      | inl f ↦ rw (e, f) (total x y e, (holds x z f, h.1))
      | inr f ↦ rw (e, f) (h.0, rw f at (insert_sorted-Ascending x (z ∷ zs) h.1))
    ]
  ]

  pub sort-Ascending : (xs : List A) → Ascending R (sort le xs)
  sort-Ascending [] = tt
  sort-Ascending (x ∷ xs) = insert_sorted-Ascending x (sort le xs) (sort-Ascending xs)
