-- ===== src/Engine/Meetings.antt =====
-- How often two entrants meet in a list of matches of the engine.
use avax_build_games.Prelude.{
  ℕ, ◌+◌, ◌≤◌, ◌≡◌, refl, ap, false, ◌==◌, ◌&&◌, ◌||◌, Option, none, some, List, [], ◌∷◌, ◌++◌,
  Bool, Bool-cases, inl, inr, arith, if◌then◌else◌,
}
use avax_build_games.Engine.Types.{Entrant, BracketMatch}
use avax_build_games.Engine.MatchMap.{set_match, set_matches, update_match}

abbrev pub is_entrant : ℕ → Option Entrant → Bool
is_entrant x none = false
is_entrant x (some e) = e.id == x

-- 1 for the sides of a match of `x` and `y`.
abbrev pub faces : ℕ → ℕ → Option Entrant → Option Entrant → ℕ
faces x y a b =
    if (is_entrant x a && is_entrant y b) || (is_entrant x b && is_entrant y a) then 1 else 0

-- How many matches `x` and `y` have.
abbrev pub meetings : ℕ → ℕ → List BracketMatch → ℕ
meetings x y [] = 0
meetings x y (m ∷ ms) = faces x y m.a m.b + meetings x y ms

module _ (x y : ℕ) where
  pub meetings-append :
      (ms ns : List BracketMatch) → meetings x y (ms ++ ns) ≡ meetings x y ms + meetings x y ns
  meetings-append [] ns = omega arith
  meetings-append (m ∷ ms) ns = omega (arith, meetings-append ms ns)

  meetings-set_match :
      (m : BracketMatch) (ms : List BracketMatch)
      → meetings x y (set_match m ms) ≤ faces x y m.a m.b + meetings x y ms
  unfolding set_match
  meetings-set_match m [] = omega arith
  meetings-set_match m (n ∷ ms) = elim (Bool-cases (n.id == m.id)) [
    | inl e ↦ rw e (omega arith)
    | inr e ↦ let rest = meetings-set_match m ms in rw e (omega (arith, rest))
  ]

  -- A match that is set may replace another.
  pub meetings-set_matches :
      (more ms : List BracketMatch)
      → meetings x y (set_matches more ms) ≤ meetings x y more + meetings x y ms
  unfolding set_matches
  meetings-set_matches [] ms = omega arith
  meetings-set_matches (m ∷ more) ms =
      omega (arith, meetings-set_match m ms, meetings-set_matches more (set_match m ms))

  pub meetings-update_match :
      (id : ℕ) (f : BracketMatch → BracketMatch) (ms : List BracketMatch)
      → ((m : BracketMatch) → (f m).a ≡ m.a)
      → ((m : BracketMatch) → (f m).b ≡ m.b)
      → meetings x y (update_match id f ms) ≡ meetings x y ms
  unfolding update_match
  meetings-update_match id f [] same_a same_b = refl
  meetings-update_match id f (m ∷ ms) same_a same_b = elim (Bool-cases (m.id == id)) [
    | inl e ↦ rw (e, same_a m, same_b m) refl
    | inr e ↦ rw e (ap (λ n. faces x y m.a m.b + n) (meetings-update_match id f ms same_a same_b))
  ]
