-- ===== src/Prelude/Ranges.antt =====
-- Lists that are made by a loop over a range of numbers, and what such a list holds.
use Prim.Native.Nat.{ℕ, zero, suc, ◌+◌, ◌≤◌, ◌<◌}
use mathlib.Core.Path.{◌≡◌, refl, ap, ap₂, subst, ◌∙◌}
use mathlib.Core.Logic.{◌⊎◌, inl, inr}
use mathlib.Core.List.{List, [], ◌∷◌, ◌++◌, map}
use native.Mathlib.Omega.{arith}
use avax_build_games.Prelude.Lists.{length, get_or, range, All, All-append}

-- `x` is an entry of the list.
abbrev pub In : {A : Type 0} → A → List A → Type 0
In x [] = ⊥
In x (y ∷ ys) = (x ≡ y) ⊎ In x ys

abbrev pub concat_map {ℓ κ} : {A : Type ℓ} {B : Type κ} → (A → List B) → List A → List B
concat_map f [] = []
concat_map f (x ∷ xs) = f x ++ concat_map f xs

module _ {A : Type 0} where
  pub In-append_left : (x : A) (xs ys : List A) → In x xs → In x (xs ++ ys)
  In-append_left x [] ys h = absurd h
  In-append_left x (y ∷ xs) ys (inl e) = inl e
  In-append_left x (y ∷ xs) ys (inr h) = inr (In-append_left x xs ys h)

  pub In-append_right : (x : A) (xs ys : List A) → In x ys → In x (xs ++ ys)
  In-append_right x [] ys h = h
  In-append_right x (y ∷ xs) ys h = inr (In-append_right x xs ys h)

first_or_later : (i k : ℕ) → i ≤ k → (k ≡ i) ⊎ (suc i ≤ k)
first_or_later i k h = omega arith

module _ {A : Type 0} (f : ℕ → A) where
  pub In-map-range : (i n k : ℕ) → i ≤ k → k < i + n → In (f k) (map f (range i n))
  In-map-range i zero k h h' = absurd (omega arith)
  In-map-range i (suc n) k h h' = elim (first_or_later i k h) [
    | inl e ↦ inl (ap f e)
    | inr l ↦ inr (In-map-range (suc i) n k l (omega arith))
  ]

  pub All-map-range {κ} :
      (P : A → Type κ) (i n : ℕ)
      → ((k : ℕ) → i ≤ k → k < i + n → P (f k))
      → All P (map f (range i n))
  All-map-range P i zero h = tt
  All-map-range P i (suc n) h = (
    h i (omega arith) (omega arith),
    All-map-range P (suc i) n λ k p q. h k (omega arith) (omega arith),
  )

module _ {A : Type 0} (f : ℕ → List A) where
  pub In-concat_map-range :
      (x : A) (i n k : ℕ) → i ≤ k → k < i + n → In x (f k) → In x (concat_map f (range i n))
  In-concat_map-range x i zero k h h' m = absurd (omega arith)
  In-concat_map-range x i (suc n) k h h' m = elim (first_or_later i k h) [
    | inl e ↦ In-append_left x (f i) _ (subst (λ j. In x (f j)) e m)
    | inr l ↦ In-append_right x (f i) _ (In-concat_map-range x (suc i) n k l (omega arith) m)
  ]

  pub All-concat_map-range {κ} :
      (P : A → Type κ) (i n : ℕ)
      → ((k : ℕ) → i ≤ k → k < i + n → All P (f k))
      → All P (concat_map f (range i n))
  All-concat_map-range P i zero h = tt
  All-concat_map-range P i (suc n) h =
      All-append P (f i) (concat_map f (range (suc i) n)) (h i (omega arith) (omega arith))
        (All-concat_map-range P (suc i) n λ k p q. h k (omega arith) (omega arith))

pub range-append : (i m n j : ℕ) → i + m ≡ j → range i m ++ range j n ≡ range i (m + n)
range-append i zero n j e =
    let same : j ≡ i = omega arith in
    let none_before : 0 + n ≡ n = omega arith in rw (same, none_before)
range-append i (suc m) n j e =
    let one_more : suc m + n ≡ suc (m + n) = omega arith in
    rw one_more (ap (◌∷◌ i) (range-append (suc i) m n j (omega arith)))

pub length-range : (i n : ℕ) → length (range i n) ≡ n
length-range i zero = refl
length-range i (suc n) = ap suc (length-range (suc i) n)

pub get_or-range : (i n k d : ℕ) → k < n → get_or (range i n) k d ≡ i + k
get_or-range i zero k d h = absurd (omega arith)
get_or-range i (suc n) zero d h = omega arith
get_or-range i (suc n) (suc k) d h = omega (arith, get_or-range (suc i) n k d (omega arith))

pub map-range_shift :
    (f : ℕ → ℕ) (s i n j : ℕ)
    → s + i ≡ j
    → ((k : ℕ) → i ≤ k → k < i + n → f k ≡ s + k)
    → map f (range i n) ≡ range j n
map-range_shift f s i zero j e h = refl
map-range_shift f s i (suc n) j e h =
    ap₂ ◌∷◌ (h i (omega arith) (omega arith) ∙ e)
      (map-range_shift f s (suc i) n (suc j) (omega arith) λ k p q. h k (omega arith) (omega arith))

pub All-range_below : (i n m : ℕ) → i + n ≤ m → All (λ k. k < m) (range i n)
All-range_below i zero m h = tt
All-range_below i (suc n) m h = (omega arith, All-range_below (suc i) n m (omega arith))
