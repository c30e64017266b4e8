-- ===== src/Engine/SingleElim/Placement.antt =====
-- Where buildSingleElim puts the entrants.
use native.Mathlib.Nat.{zero-add}
use avax_build_games.Prelude.{
  ℕ, zero, suc, ◌+◌, ◌*◌, ◌/◌, ◌^◌, ◌≤◌, ◌<◌, ◌≡◌, ◌≢◌, ap, ◌∙◌, refl, sym, Option, none, some,
  List, [], ◌∷◌, map, length, get_elem?, get_or-get_elem?, get_elem?-some, length-sort, All,
  All-map-range, All-concat_map-range, max, set, replicate, range, arith, length-set,
  length-replicate, get_elem?-replicate, get_elem?-set_self, get_elem?-set_ne,
}
use avax_build_games.Engine.Types.{Entrant, BracketMatch}
use avax_build_games.Engine.Seeding.{bit_reverse, seed_slots, next_pow2}
use avax_build_games.Engine.Seeding.BitReverse.{
  bit_reverse_lt, bit_reverse_invol, two_pow_suc, bit_reverse_double, bit_reverse_double_add,
}
use avax_build_games.Engine.Seeding.NextPow2.{log2-two_pow, bracket_size}
use avax_build_games.Engine.SingleElim.{
  place_seeds, slot_entrants, bracket_matches, id_rows, seed_order, make_match, build_single_elim,
}

module _ (f : ℕ → ℕ) where
  -- A slot that no seed is sent to keeps its content.
  place_seeds_other :
      (j m : ℕ) (es : List Entrant) (arr : List (Option Entrant)) (p : ℕ)
      → ((i : ℕ) → j ≤ i → i < j + m → f i ≢ p)
      → get_elem? (place_seeds (map f (range j m)) es arr) p ≡ get_elem? arr p
  unfolding place_seeds
  place_seeds_other j zero es arr p h = refl
  place_seeds_other j (suc m) [] arr p h = refl
  place_seeds_other j (suc m) (e ∷ es) arr p h =
      place_seeds_other (suc j) m es (set arr (f j) (some e)) p
        (λ i l u. h i (omega arith) (omega arith))
      ∙ get_elem?-set_ne arr (some e) (h j (omega arith) (omega arith))

  -- Each seed is in the slot that it is sent to, and the slots past the last seed stay empty.
  place_seeds_at :
      (j m r : ℕ) (es : List Entrant) (arr : List (Option Entrant))
      → r < m
      → ((i k : ℕ) → j ≤ i → i < k → k < j + m → f i ≢ f k)
      → ((i : ℕ) → j ≤ i → i < j + m → get_elem? arr (f i) ≡ some none)
      → ((i : ℕ) → j ≤ i → i < j + m → f i < length arr)
      → get_elem? (place_seeds (map f (range j m)) es arr) (f (j + r)) ≡ some (get_elem? es r)
  unfolding place_seeds
  place_seeds_at j zero r es arr lt distinct empty fits = absurd (omega arith)
  place_seeds_at j (suc m) r [] arr lt distinct empty fits =
      empty (j + r) (omega arith) (omega arith)
  place_seeds_at j (suc m) zero (e ∷ es) arr lt distinct empty fits =
      let here : j + 0 ≡ j = omega arith in
      rw here (
        place_seeds_other (suc j) m es (set arr (f j) (some e)) (f j)
          (λ i l u q. distinct j i (omega arith) (omega arith) (omega arith) (sym q))
        ∙ get_elem?-set_self arr (f j) (some e) (fits j (omega arith) (omega arith)))
  place_seeds_at j (suc m) (suc r) (e ∷ es) arr lt distinct empty fits =
      let next : j + suc r ≡ suc j + r = omega arith in
      rw next (
        place_seeds_at (suc j) m r es (set arr (f j) (some e)) (omega arith)
          (λ i k a b c. distinct i k (omega arith) b (omega arith))
          (λ i l u.
            get_elem?-set_ne arr (some e) (distinct j i (omega arith) (omega arith) (omega arith))
            ∙ empty i (omega arith) (omega arith))
          (λ i l u. rw (length-set arr (f j) (some e)) (fits i (omega arith) (omega arith))))

bit_reverse_distinct :
    (k i j : ℕ) → k ≤ 31 → i < 2 ^ k → j < 2 ^ k → i < j → bit_reverse i k ≢ bit_reverse j k
bit_reverse_distinct k i j hk hi hj lt e =
    omega
      (arith, bit_reverse_invol i k hk hi, bit_reverse_invol j k hk hj, ap (λ x. bit_reverse x k) e)

-- In a bracket of 2 ^ k slots, k up to 31, the slot to which bitReverse sends rank r holds the
-- entrant of rank r in seed order, and nobody if there are no more than r entrants.
pub slot_entrants_at :
    (entrants : List Entrant) (k r : ℕ)
    → k ≤ 31
    → r < 2 ^ k
    → get_elem? (slot_entrants entrants (2 ^ k)) (bit_reverse r k)
      ≡ some (get_elem? (seed_order entrants) r)
unfolding slot_entrants seed_slots
slot_entrants_at entrants k r hk hr = rw (log2-two_pow k) (
    rw (zero-add r) at (
      place_seeds_at (λ s. bit_reverse s k) 0 (2 ^ k) r (seed_order entrants)
        (replicate (2 ^ k) none) hr
        (λ i j _ lt u. bit_reverse_distinct k i j hk (omega arith) (omega arith) lt)
        (λ i _ u. get_elem?-replicate (2 ^ k) none _ (bit_reverse_lt i k hk (omega arith)))
        (λ i _ u.
          rw (length-replicate {A = Option Entrant} (2 ^ k) none)
            (bit_reverse_lt i k hk (omega arith)))))

-- Match `i` of the first round starts with the entrants of two ranks that are half a bracket apart.
first_round_sides :
    (entrants : List Entrant) (ids : List (List ℕ)) (k i : ℕ)
    → k ≤ 30
    → i < 2 ^ k
    → let m = make_match (slot_entrants entrants (2 ^ suc k)) ids (suc k) 0 i in
      (m.a ≡ get_elem? (seed_order entrants) (bit_reverse i k))
      × (m.b ≡ get_elem? (seed_order entrants) (bit_reverse i k + 2 ^ k))
unfolding make_match
first_round_sides entrants ids k i hk hi =
    let r = bit_reverse_lt i k (omega arith) hi in
    let at_a = rw (bit_reverse_double i k hk hi) at (
      slot_entrants_at entrants (suc k) (bit_reverse i k) (omega arith)
        (omega (arith, two_pow_suc k))) in
    let at_b = rw (bit_reverse_double_add i k hk hi) at (
      slot_entrants_at entrants (suc k) (bit_reverse i k + 2 ^ k) (omega arith)
        (omega (arith, two_pow_suc k))) in
    (
      get_or-get_elem? (slot_entrants entrants (2 ^ suc k)) (i * 2) none _ at_a,
      get_or-get_elem? (slot_entrants entrants (2 ^ suc k)) (i * 2 + 1) none _ at_b,
    )

-- How a match of a new bracket with 2 ^ (k + 1) slots starts.
abbrev pub StartsAt : List Entrant → ℕ → ℕ → BracketMatch → Type 0
StartsAt entrants k zero m =
    (m.a ≡ get_elem? (seed_order entrants) (bit_reverse m.slot k))
    × (m.b ≡ get_elem? (seed_order entrants) (bit_reverse m.slot k + 2 ^ k))
    × (m.a ≢ none)
StartsAt entrants k (suc r) m = (m.a ≡ none) × (m.b ≡ none)

abbrev pub Starts : List Entrant → ℕ → BracketMatch → Type 0
Starts entrants k m = StartsAt entrants k m.round m

length-seed_order : (entrants : List Entrant) → length (seed_order entrants) ≡ length entrants
unfolding seed_order
length-seed_order entrants = length-sort _ entrants

first_round-Starts :
    (entrants : List Entrant) (ids : List (List ℕ)) (k i : ℕ)
    → k ≤ 30
    → i < 2 ^ k
    → 2 ^ k < length entrants
    → Starts entrants k (make_match (slot_entrants entrants (2 ^ suc k)) ids (suc k) 0 i)
unfolding make_match
first_round-Starts entrants ids k i hk hi half =
    let (at_a, at_b) = first_round_sides entrants ids k i hk hi in
    let r = bit_reverse_lt i k (omega arith) hi in
    let (e, found) =
      get_elem?-some (seed_order entrants) (bit_reverse i k)
        (omega (arith, length-seed_order entrants)) in
    (at_a, at_b, λ nobody. cc (at_a, found, nobody))

later_round-Starts :
    (entrants : List Entrant) (slots : List (Option Entrant)) (ids : List (List ℕ)) (k r i : ℕ)
    → Starts entrants k (make_match slots ids (suc k) (suc r) i)
unfolding make_match
later_round-Starts entrants slots ids k r i = (refl, refl)

half-two_pow : (k : ℕ) → 2 ^ suc k / 2 ^ 1 ≡ 2 ^ k
half-two_pow k = omega (arith, two_pow_suc k)

row-Starts :
    (entrants : List Entrant) (ids : List (List ℕ)) (k r : ℕ)
    → k ≤ 30
    → 2 ^ k < length entrants
    → All (Starts entrants k) (
        map
          (make_match (slot_entrants entrants (2 ^ suc k)) ids (suc k) r)
          (range 0 (2 ^ suc k / 2 ^ suc r)))
row-Starts entrants ids k zero hk half = rw (half-two_pow k) (
    All-map-range (make_match (slot_entrants entrants (2 ^ suc k)) ids (suc k) 0)
      (Starts entrants k) 0 (2 ^ k)
      λ i _ u. first_round-Starts entrants ids k i hk (omega arith) half)
row-Starts entrants ids k (suc r) hk half =
    All-map-range (make_match (slot_entrants entrants (2 ^ suc k)) ids (suc k) (suc r))
      (Starts entrants k) 0 _ λ i _ u. later_round-Starts entrants _ ids k r i

bracket_matches-Starts :
    (entrants : List Entrant) (ids : List (List ℕ)) (k : ℕ)
    → k ≤ 30
    → 2 ^ k < length entrants
    → All
        (Starts entrants k)
        (bracket_matches (slot_entrants entrants (2 ^ suc k)) ids (2 ^ suc k) (suc k))
unfolding bracket_matches
bracket_matches-Starts entrants ids k hk half =
    All-concat_map-range _ (Starts entrants k) 0 (suc k)
      λ r _ u. row-Starts entrants ids k r hk half

-- With 2 to 2 ^ 30 entrants and 2 ^ (k + 1) slots: match i of the first round has on side A the
-- entrant of rank bitReverse(i, k) in seed order, never nobody, and on side B the one 2 ^ k ranks
-- below, if there is one; the matches of later rounds start empty.
pub build_single_elim-Starts :
    (entrants : List Entrant) (start_id : ℕ)
    → 2 ≤ length entrants
    → length entrants ≤ 2 ^ 30
    → (k : ℕ) × (next_pow2 (length entrants) ≡ 2 ^ suc k)
      × All (Starts entrants k) (build_single_elim entrants start_id).matches
unfolding build_single_elim
build_single_elim-Starts entrants start_id lo hi =
    let (k, eq, small, fits, half) = bracket_size (length entrants) lo hi in
    let same : max (length entrants) 2 ≡ length entrants = omega arith in
    let eq' : next_pow2 (length entrants) ≡ 2 ^ suc k = rw same at eq in
    (
      k,
      eq',
      rw (eq, log2-two_pow (suc k))
          (bracket_matches-Starts entrants (id_rows (suc k) 0 (2 ^ suc k) start_id) k (omega arith)
            half),
    )
