-- ===== src/Engine/Types.antt =====
-- types.ts of web/src/lib/engine. Identifiers are numbers, the default of the type parameter `I`
-- and its only use in the web application.
use avax_build_games.Prelude.{
  ◌≡◌, ap, refl, ◌⊎◌, inl, inr, ℕ, Bool, ◌&&◌, ◌||◌, not, Option, none, some, is_some, List, map,
  Option-cases,
}

abbrev pub MatchId : Type 0
MatchId = ℕ

pub data Side : Type 0 where
  a b : Side

pub data Outcome : Type 0 where
  a b draw void : Outcome

unfoldable pub outcome_winner : Outcome → Option Side
outcome_winner Outcome.a = some Side.a
outcome_winner Outcome.b = some Side.b
outcome_winner draw = none
outcome_winner void = none

pub record Entrant : Type 0 where
  pub id : ℕ
  pub seed : ℕ

abbrev pub entrant_ids : List Entrant → List ℕ
entrant_ids entrants = map (λ (e : Entrant). e.id) entrants

pub record WinnerTo : Type 0 where
  pub match_id : MatchId
  pub side : Side

pub record BracketMatch : Type 0 where
  pub id : MatchId
  pub round : ℕ
  pub slot : ℕ
  pub a : Option Entrant
  pub b : Option Entrant
  pub outcome : Option Outcome
  pub winner_to : Option WinnerTo

unfoldable pub match_side : BracketMatch → Side → Option Entrant
match_side m Side.a = m.a
match_side m Side.b = m.b

-- A match has a winner if its outcome has, and that side is taken.
side_entrant : BracketMatch → Option Side → Option Entrant
unfolding match_side
side_entrant m none = none
side_entrant m (some s) = match_side m s

unfoldable pub match_winner : BracketMatch → Option Entrant
unfolding outcome_winner side_entrant
match_winner m = elim m.outcome [ none ↦ none | some o ↦ side_entrant m (outcome_winner o) ]

unfoldable pub is_bye : BracketMatch → Bool
is_bye m = (is_some m.a && not (is_some m.b)) || (not (is_some m.a) && is_some m.b)

unfoldable pub is_ready : BracketMatch → Bool
is_ready m = not (is_some m.outcome) && is_some m.a && is_some m.b

pub record Standing : Type 0 where
  pub id : ℕ
  pub place : Option ℕ
  pub wins : ℕ
  pub draws : ℕ
  pub losses : ℕ

-- `TournamentFormat`, a union over the kinds of the enum `TournamentState`.
pub data TournamentFormat : Type 0 where
  single_elimination round_robin : TournamentFormat
  swiss : ℕ → TournamentFormat

-- The codes with which `TournamentError` is thrown.
pub data TournamentError : Type 0 where
  too_few_entrants duplicate_entrant invalid_swiss_rounds : TournamentError
  unknown_match not_recordable draw_not_allowed : TournamentError

-- A function that may throw a `TournamentError`.
pub data Result {ℓ} (A : Type ℓ) : Type ℓ where
  ok : A → Result A
  err : TournamentError → Result A

infixl 5 ◌>>=◌
abbrev pub ◌>>=◌ {ℓ κ} : {A : Type ℓ} {B : Type κ} → Result A → (A → Result B) → Result B
ok x >>= f = f x
err e >>= f = err e

pub ok-injective {ℓ} : {A : Type ℓ} {x y : A} → ok x ≡ ok y → x ≡ y
ok-injective {A} {x} h = ap (value_or x) h
  where
    value_or : A → Result A → A
    value_or d (ok z) = z
    value_or d (err e) = d

pub Result-cases {ℓ} :
    {A : Type ℓ} (x : Result A) → ((y : A) × (x ≡ ok y)) ⊎ ((e : TournamentError) × (x ≡ err e))
Result-cases (ok y) = inl (y, refl)
Result-cases (err e) = inr (e, refl)

-- The winner of a match stands on one of its sides.
pub match_winner-match_side :
    (m : BracketMatch) (e : Entrant)
    → match_winner m ≡ some e
    → (s : Side) × (match_side m s ≡ some e)
unfolding match_winner
match_winner-match_side m e h = elim (Option-cases m.outcome) [
  | inl none_yet ↦ cc (rw (none_yet, match_winner) at h)
  | inr (o, decided) ↦ elim (Option-cases (outcome_winner o)) [
    | inl nobody ↦ cc (rw (decided, nobody, match_winner) at h)
    | inr (s, side) ↦ (s, rw (decided, side, match_winner) at h)
  ]
]
