-- ===== src/Engine/RoundRobin/Starts.antt =====
-- Where the entrants of a round robin start.
use avax_build_games.Prelude.{
  ℕ, zero, suc, ◌+◌, ◌-◌, ◌<◌, ◌≡◌, refl, ap₂, ◌∙◌, true, false, Option, none, some, List, [], ◌∷◌,
  ◌++◌, map, length, length-append, length-map, length-replicate, replicate, get_or-replicate,
  contains, arith, ◌==◌, Bool-cases, inl, inr,
}
use avax_build_games.Engine.Meetings.{is_entrant}
use avax_build_games.Engine.Types.{Entrant, entrant_ids}
use avax_build_games.Engine.Tournament.Unique.{seen-absent}
use avax_build_games.Engine.Tournament.{ids_unique, ids_unique_from}
use avax_build_games.Engine.RoundRobin.{padded_len, initial_positions}
use avax_build_games.Engine.RoundRobin.Rotation.{Places, at}

-- The entrant `x` starts at place `place`, and nowhere else.
pub record StartsAt (x place : ℕ) (start : Places) : Type 0 where
  pub only : (k : ℕ) → is_entrant x (at start k) ≡ (k == place)

abbrev pub padded_with : ℕ → List Entrant → Places
padded_with byes es = map some es ++ replicate byes none

absent-at :
    (byes x : ℕ) (es : List Entrant) (k : ℕ)
    → contains x (entrant_ids es) ≡ false
    → is_entrant x (at (padded_with byes es) k) ≡ false
absent-at byes x [] k h = rw (get_or-replicate {A = Option Entrant} byes k none) refl
absent-at byes x (e ∷ es) zero h = ground (arith, h)
absent-at byes x (e ∷ es) (suc k) h = absent-at byes x es k (ground (arith, h))

StartsAt-first :
    (byes x : ℕ) (e : Entrant) (es : List Entrant)
    → (e.id == x) ≡ true
    → contains x (entrant_ids es) ≡ false
    → StartsAt x 0 (padded_with byes (e ∷ es))
StartsAt-first byes x e es same gone = record { only = places }
  where
    places : (k : ℕ) → is_entrant x (at (padded_with byes (e ∷ es)) k) ≡ (k == 0)
    places zero = same
    places (suc k) = let f = absent-at byes x es k gone in ground (arith, f)

StartsAt-later :
    (byes x i : ℕ) (e : Entrant) (es : List Entrant)
    → (e.id == x) ≡ false
    → StartsAt x i (padded_with byes es)
    → StartsAt x (suc i) (padded_with byes (e ∷ es))
StartsAt-later byes x i e es other rest = record { only = places }
  where
    places : (k : ℕ) → is_entrant x (at (padded_with byes (e ∷ es)) k) ≡ (k == suc i)
    places zero = ground (arith, other)
    places (suc k) = let f = rest.only k in ground (arith, f)

pub starts_at :
    (byes x : ℕ) (seen : List ℕ) (es : List Entrant)
    → ids_unique_from seen es ≡ true
    → contains x (entrant_ids es) ≡ true
    → (i : ℕ) × (i < length es) × StartsAt x i (padded_with byes es)
unfolding ids_unique_from
starts_at byes x seen [] unique known = cc
starts_at byes x seen (e ∷ es) unique known = elim (Bool-cases (contains e.id seen)) [
  | inl old ↦ cc (rw old at unique)
  | inr new ↦ elim (Bool-cases (e.id == x)) [
    | inl same ↦
        let in_seen : contains x (e.id ∷ seen) ≡ true = ground (arith, same) in
        let gone = seen-absent x (e.id ∷ seen) es (rw new at unique) in_seen in
        (0, omega arith, StartsAt-first byes x e es same gone)
    | inr other ↦
        let rest =
          starts_at byes x (e.id ∷ seen) es (rw new at unique) (ground (arith, known, other)) in
        (suc rest.0, omega (arith, rest.1), StartsAt-later byes x rest.0 e es other rest.2)
  ]
]

pub initial_positions-StartsAt :
    (x : ℕ) (entrants : List Entrant)
    → ids_unique entrants ≡ true
    → contains x (entrant_ids entrants) ≡ true
    → (i : ℕ) × (i < length entrants) × StartsAt x i (initial_positions entrants)
unfolding ids_unique initial_positions
initial_positions-StartsAt x entrants unique known =
    starts_at (padded_len (length entrants) - length entrants) x [] entrants unique known

pub length-initial_positions :
    (es : List Entrant) → length (initial_positions es) ≡ padded_len (length es)
unfolding initial_positions
length-initial_positions es =
    let n = length es in
    let byes = padded_len n - n in
    length-append (map some es) (replicate byes none)
    ∙ ap₂ ◌+◌ (length-map {B = Option Entrant} some es)
        (length-replicate {A = Option Entrant} byes none)
    ∙ filled n
  where
    filled : (n : ℕ) → n + (padded_len n - n) ≡ padded_len n
    filled n = ground arith
