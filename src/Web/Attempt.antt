-- ===== src/Web/Attempt.antt =====
-- Calls that may throw, one after the other.
use avax_build_games.Prelude.{◌≡◌, refl, ap, ◌⊎◌, inl, inr}
use avax_build_games.Web.Text.{Text}
use avax_build_games.Web.Http.{Attempt, returned, thrown}

infixl 5 ◌>>=◌
abbrev pub ◌>>=◌ {ℓ κ} : {A : Type ℓ} {B : Type κ} → Attempt A → (A → Attempt B) → Attempt B
returned x >>= f = f x
thrown e >>= f = thrown e

pub Attempt-cases {ℓ} :
    {A : Type ℓ} (x : Attempt A) → ((y : A) × (x ≡ returned y)) ⊎ ((e : Text) × (x ≡ thrown e))
Attempt-cases (returned y) = inl (y, refl)
Attempt-cases (thrown e) = inr (e, refl)

-- A chain of calls returns only if each of them does.
pub bind-returned {ℓ κ} :
    {A : Type ℓ} {B : Type κ} (x : Attempt A) (f : A → Attempt B) (y : B)
    → (x >>= f) ≡ returned y
    → (a : A) × (x ≡ returned a) × (f a ≡ returned y)
bind-returned (returned a) f y h = (a, refl, h)
bind-returned (thrown e) f y h = cc

pub bind-of_returned {ℓ κ} :
    {A : Type ℓ} {B : Type κ} (x : Attempt A) (f : A → Attempt B) (a : A)
    → x ≡ returned a
    → (x >>= f) ≡ f a
bind-of_returned x f a h = ap (λ y. y >>= f) h
