-- ===== src/Web/Text/Trim.antt =====
-- A text without white space is left alone by `trim`.
use avax_build_games.Prelude.{◌≡◌, refl, ap, false, [], ◌∷◌, All}
use avax_build_games.Web.Text.{Text, is_white, trim_start, trim_end, trim}

trim_end-dark : (s : Text) → All (λ c. is_white c ≡ false) s → trim_end s ≡ s
unfolding trim_end
trim_end-dark [] h = refl
trim_end-dark (c ∷ s) (hc, h) = rw hc (ap (λ (t : Text). c ∷ t) (trim_end-dark s h))

trim_start-dark : (s : Text) → All (λ c. is_white c ≡ false) s → trim_start s ≡ s
unfolding trim_start
trim_start-dark [] h = refl
trim_start-dark (c ∷ s) (hc, h) = rw hc refl

pub trim-dark : (s : Text) → All (λ c. is_white c ≡ false) s → trim s ≡ s
unfolding trim
trim-dark s h = rw (trim_start-dark s h) (trim_end-dark s h)
