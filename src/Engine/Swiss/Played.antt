-- ===== src/Engine/Swiss/Played.antt =====
-- Who has played whom, by the entries of a Swiss tournament.
use avax_build_games.Prelude.{
  ℕ, zero, suc, ◌<◌, ◌≡◌, refl, ap, Bool, true, false, ◌==◌, ◌&&◌, ◌||◌, List, [], ◌∷◌, map, length,
  set, contains, contains-append, Distinct, arith, Bool-cases, inl, inr,
}
use avax_build_games.Engine.Types.{Entrant, entrant_ids}
use avax_build_games.Engine.Swiss.{SwissEntry, entry_at, new_entry, add_played}

abbrev pub entry_ids : List SwissEntry → List ℕ
entry_ids es = map (λ (e : SwissEntry). e.entrant.id) es

-- An entry of `x` has played `y`.
abbrev pub has_played : ℕ → ℕ → List SwissEntry → Bool
has_played x y [] = false
has_played x y (e ∷ es) = (e.entrant.id == x && contains y e.played) || has_played x y es

-- A write that keeps the entrant and whom it has played.
pub entry_ids-set :
    (es : List SwissEntry) (i : ℕ) (e : SwissEntry)
    → e.entrant ≡ (entry_at es i).entrant
    → entry_ids (set es i e) ≡ entry_ids es
entry_ids-set [] i e same = refl
entry_ids-set (x ∷ es) zero e same = ap (λ (p : Entrant). p.id ∷ entry_ids es) same
entry_ids-set (x ∷ es) (suc i) e same = ap (λ is. x.entrant.id ∷ is) (entry_ids-set es i e same)

pub has_played-set :
    (x y : ℕ) (es : List SwissEntry) (i : ℕ) (e : SwissEntry)
    → e.entrant ≡ (entry_at es i).entrant
    → e.played ≡ (entry_at es i).played
    → has_played x y (set es i e) ≡ has_played x y es
has_played-set x y [] i e same same' = refl
has_played-set x y (p ∷ es) zero e same same' = rw (same, same') refl
has_played-set x y (p ∷ es) (suc i) e same same' =
    ap (λ b. (p.entrant.id == x && contains y p.played) || b) (has_played-set x y es i e same same')

pub add_played-entrant : (b : ℕ) (e : SwissEntry) → (add_played b e).entrant ≡ e.entrant
add_played-entrant b e = elim (Bool-cases (contains b e.played)) [
  | inl known ↦ rw known refl
  | inr new ↦ rw new refl
]

add_played-keeps :
    (b y : ℕ) (e : SwissEntry)
    → contains y e.played ≡ true
    → contains y (add_played b e).played ≡ true
add_played-keeps b y e h = elim (Bool-cases (contains b e.played)) [
  | inl known ↦ rw known h
  | inr new ↦ rw new (ground (arith, h, contains-append y e.played (b ∷ [])))
]

add_played-adds : (b : ℕ) (e : SwissEntry) → contains b (add_played b e).played ≡ true
add_played-adds b e = elim (Bool-cases (contains b e.played)) [
  | inl known ↦ rw known known
  | inr new ↦ rw new (ground (arith, contains-append b e.played (b ∷ [])))
]

-- `add` forgets nobody.
pub has_played-add_keeps :
    (x y b : ℕ) (es : List SwissEntry) (i : ℕ)
    → has_played x y es ≡ true
    → has_played x y (set es i (add_played b (entry_at es i))) ≡ true
has_played-add_keeps x y b [] i h = h
has_played-add_keeps x y b (e ∷ es) zero h =
    ground (arith, h, add_played-keeps b y e, ap (λ (p : Entrant). p.id) (add_played-entrant b e))
has_played-add_keeps x y b (e ∷ es) (suc i) h = ground (arith, h, has_played-add_keeps x y b es i)

-- It adds the entrant.
pub has_played-add_adds :
    (b : ℕ) (es : List SwissEntry) (i : ℕ)
    → i < length es
    → has_played (entry_at es i).entrant.id b (set es i (add_played b (entry_at es i))) ≡ true
has_played-add_adds b [] i h = absurd (omega arith)
has_played-add_adds b (e ∷ es) zero h =
    ground (arith, add_played-adds b e, ap (λ (p : Entrant). p.id) (add_played-entrant b e))
has_played-add_adds b (e ∷ es) (suc i) h =
    ground (arith, has_played-add_adds b es i (omega (arith, h)))

contains-entry_at :
    (es : List SwissEntry) (i : ℕ)
    → i < length es
    → contains (entry_at es i).entrant.id (entry_ids es) ≡ true
contains-entry_at [] i h = absurd (omega arith)
contains-entry_at (e ∷ es) zero h = ground arith
contains-entry_at (e ∷ es) (suc i) h = ground (arith, contains-entry_at es i (omega (arith, h)))

has_played-absent :
    (x y : ℕ) (es : List SwissEntry) → contains x (entry_ids es) ≡ false → has_played x y es ≡ false
has_played-absent x y [] h = refl
has_played-absent x y (e ∷ es) h = ground (arith, h, has_played-absent x y es)

-- Of distinct entries one is that of the entrant.
pub has_played-at :
    (y : ℕ) (es : List SwissEntry) (i : ℕ)
    → Distinct (entry_ids es)
    → i < length es
    → has_played (entry_at es i).entrant.id y es ≡ contains y (entry_at es i).played
has_played-at y [] i d h = absurd (omega arith)
has_played-at y (e ∷ es) zero d h = ground (arith, has_played-absent e.entrant.id y es d.0)
has_played-at y (e ∷ es) (suc i) d h =
    elim (Bool-cases (e.entrant.id == (entry_at es i).entrant.id)) [
      | inl same ↦ ground (arith, d.0, contains-entry_at es i (omega (arith, h)), same)
      | inr other ↦ rw other (has_played-at y es i d.1 (omega (arith, h)))
    ]

-- Distinct entries have distinct entrants.
pub entry_at_apart :
    (es : List SwissEntry) (i j : ℕ)
    → Distinct (entry_ids es)
    → i < length es
    → j < length es
    → (j == i) ≡ false
    → ((entry_at es i).entrant.id == (entry_at es j).entrant.id) ≡ false
entry_at_apart [] i j d hi hj ne = absurd (omega arith)
entry_at_apart (e ∷ es) zero zero d hi hj ne = absurd (ground (arith, ne))
entry_at_apart (e ∷ es) zero (suc j) d hi hj ne =
    ground (arith, d.0, contains-entry_at es j (omega (arith, hj)))
entry_at_apart (e ∷ es) (suc i) zero d hi hj ne =
    ground (arith, d.0, contains-entry_at es i (omega (arith, hi)))
entry_at_apart (e ∷ es) (suc i) (suc j) d hi hj ne =
    entry_at_apart es i j d.1 (omega (arith, hi)) (omega (arith, hj)) (ground (arith, ne))

pub map-new_entry : (es : List Entrant) → entry_ids (map new_entry es) ≡ entrant_ids es
unfolding new_entry
map-new_entry [] = refl
map-new_entry (e ∷ es) = ap (λ is. e.id ∷ is) (map-new_entry es)
