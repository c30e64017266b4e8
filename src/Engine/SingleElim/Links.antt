-- ===== src/Engine/SingleElim/Links.antt =====
-- The ids of a new bracket, and where its winners go.
use native.Mathlib.Nat.{zero-add, mul-div_cancel}
use avax_build_games.Prelude.{
  ℕ, zero, suc, ◌+◌, ◌*◌, ◌-◌, ◌/◌, ◌%◌, ◌^◌, ◌≤◌, ◌<◌, ◌≡◌, ap, ◌∙◌, refl, sym, subst, Option,
  none, some, List, [], ◌∷◌, ◌++◌, map, length, length-map, length-range, length-append, get_or,
  range, arith, max, In, All, concat_map, get_or-range, In-map-range, In-concat_map-range,
  All-map-range, All-concat_map-range, ltb, ◌==◌, if◌then◌else◌, find, ==_iff, inl, inr, Bool-cases,
  ltb→lt,
}
use avax_build_games.Engine.Types.{Side, Entrant, WinnerTo, BracketMatch}
use avax_build_games.Engine.Seeding.{next_pow2, log2}
use avax_build_games.Engine.Seeding.BitReverse.{two_pow_suc, one-le-two_pow}
use avax_build_games.Engine.Seeding.NextPow2.{log2-two_pow, bracket_size}
use avax_build_games.Engine.SingleElim.{
  id_rows, make_match, bracket_matches, slot_entrants, build_single_elim,
}

two_pow_add : (j r : ℕ) → 2 ^ (j + r) ≡ 2 ^ j * 2 ^ r
two_pow_add j zero = let none_added : j + 0 ≡ j = omega arith in rw none_added (omega arith)
two_pow_add j (suc r) =
    let one_more : j + suc r ≡ suc (j + r) = omega arith in
    rw one_more (
      omega
        (arith, two_pow_suc (j + r), two_pow_add j r, ap (λ (t : ℕ). 2 ^ j * t) (two_pow_suc r)))

-- What is left of 2 ^ (j + s) slots after s rounds.
shr_two_pow : (j s : ℕ) → 2 ^ (j + s) / 2 ^ s ≡ 2 ^ j
shr_two_pow j s = rw (two_pow_add j s) (mul-div_cancel (2 ^ j) (one-le-two_pow s))

-- The matches have the ids from `s` on, in order.
abbrev pub Numbered : ℕ → List BracketMatch → Type 0
Numbered s [] = Unit
Numbered s (m ∷ ms) = (m.id ≡ s) × Numbered (suc s) ms

pub Numbered-append :
    (s t : ℕ) (xs ys : List BracketMatch)
    → s + length xs ≡ t
    → Numbered s xs
    → Numbered t ys
    → Numbered s (xs ++ ys)
Numbered-append s t [] ys e hx hy =
    let same : t ≡ s = omega arith in subst (λ u. Numbered u ys) same hy
Numbered-append s t (x ∷ xs) ys e hx hy =
    (hx.0, Numbered-append (suc s) t xs ys (omega arith) hx.1 hy)

Numbered-map-range :
    (f : ℕ → BracketMatch) (i n s : ℕ)
    → ((k : ℕ) → i ≤ k → k < i + n → (f k).id + i ≡ s + k)
    → Numbered s (map f (range i n))
Numbered-map-range f i zero s h = tt
Numbered-map-range f i (suc n) s h =
    let at_head = h i (omega arith) (omega arith) in
    (
      omega (arith, at_head),
      Numbered-map-range f (suc i) n (suc s)
          (λ k p q. let at_k = h k (omega arith) (omega arith) in omega (arith, at_k)),
    )

Numbered-le :
    (s : ℕ) (m : BracketMatch) (ms : List BracketMatch) → Numbered s ms → In m ms → s ≤ m.id
Numbered-le s m [] h i = absurd i
Numbered-le s m (x ∷ ms) h (inl e) = omega (arith, h.0, ap (λ (y : BracketMatch). y.id) e)
Numbered-le s m (x ∷ ms) h (inr i) = omega (arith, Numbered-le (suc s) m ms h.1 i)

-- A lookup by id finds the match that has it.
pub find-Numbered :
    (s : ℕ) (m : BracketMatch) (ms : List BracketMatch)
    → Numbered s ms
    → In m ms
    → find (λ x. x.id == m.id) ms ≡ some m
find-Numbered s m [] h i = absurd i
find-Numbered s m (x ∷ ms) h (inl e) =
    rw ((==_iff x.id m.id).1 (ap (λ (y : BracketMatch). y.id) (sym e))) (ap some (sym e))
find-Numbered s m (x ∷ ms) h (inr i) =
    ground (arith, Numbered-le (suc s) m ms h.1 i, find-Numbered (suc s) m ms h.1 i)

module _ (slots : List (Option Entrant)) (ids : List (List ℕ)) (rounds : ℕ) where
  abbrev row : ℕ → ℕ → List BracketMatch
  row bracket r = map (make_match slots ids rounds r) (range 0 (bracket / 2 ^ suc r))

  row-Numbered :
      (bracket r next : ℕ)
      → get_or ids r [] ≡ range next (bracket / 2 ^ suc r)
      → Numbered next (row bracket r)
  unfolding make_match
  row-Numbered bracket r next e =
      Numbered-map-range (make_match slots ids rounds r) 0 (bracket / 2 ^ suc r) next
        λ k _ h. rw e (omega (arith, get_or-range next (bracket / 2 ^ suc r) k 0 (omega arith)))

  rows-Numbered :
      (left r bracket next : ℕ)
      → ((q : ℕ) → q < left → get_or ids (r + q) [] ≡ get_or (id_rows left r bracket next) q [])
      → Numbered next (concat_map (row bracket) (range r left))
  unfolding id_rows
  rows-Numbered zero r bracket next h = tt
  rows-Numbered (suc left) r bracket next h =
      let here : r + 0 ≡ r = omega arith in
      let first = rw here at (h 0 (omega arith)) in
      Numbered-append next (next + bracket / 2 ^ suc r) (row bracket r) _
        (omega (
          arith,
          length-map (make_match slots ids rounds r) (range 0 (bracket / 2 ^ suc r)),
          length-range 0 (bracket / 2 ^ suc r),
        ))
        (row-Numbered bracket r next first)
        (rows-Numbered left (suc r) bracket (next + bracket / 2 ^ suc r) (λ q l.
          let later : suc r + q ≡ r + suc q = omega arith in rw later (h (suc q) (omega arith))))

  length-row : (j r : ℕ) → length (row (2 ^ (j + suc r)) r) ≡ 2 ^ j
  length-row j r =
      length-map (make_match slots ids rounds r) (range 0 (2 ^ (j + suc r) / 2 ^ suc r))
      ∙ length-range 0 (2 ^ (j + suc r) / 2 ^ suc r)
      ∙ shr_two_pow j (suc r)

  length-rows :
      (left r k : ℕ)
      → left + r ≡ k
      → length (concat_map (row (2 ^ k)) (range r left)) ≡ 2 ^ left - 1
  length-rows zero r k e = refl
  length-rows (suc left) r k e =
      let exponent : left + suc r ≡ k = omega arith in
      omega (
        arith,
        length-append (row (2 ^ k) r) (concat_map (row (2 ^ k)) (range (suc r) left)),
        rw exponent at (length-row left r),
        length-rows left (suc r) k exponent,
        two_pow_suc left,
        one-le-two_pow left,
      )

-- The target of a match's winner: found by its id, in the next round, in half the slot, on side A
-- for an even slot and on side B for an odd one. Only the last round has no target.
pub record LinkTo (ms : List BracketMatch) (m : BracketMatch) (w : WinnerTo) : Type 0 where
  pub target : BracketMatch
  pub found : find (λ x. x.id == w.match_id) ms ≡ some target
  pub next_round : target.round ≡ suc m.round
  pub half_slot : target.slot ≡ m.slot / 2
  pub side_of_slot : w.side ≡ (if m.slot % 2 == 0 then Side.a else Side.b)

abbrev pub LinkTarget : List BracketMatch → ℕ → BracketMatch → Option WinnerTo → Type 0
LinkTarget ms rounds m none = suc m.round ≡ rounds
LinkTarget ms rounds m (some w) = LinkTo ms m w

abbrev pub Linked : List BracketMatch → ℕ → BracketMatch → Type 0
Linked ms rounds m = LinkTarget ms rounds m m.winner_to

module _ (slots : List (Option Entrant)) (k start_id : ℕ) where
  abbrev ids_of : List (List ℕ)
  ids_of = id_rows k 0 (2 ^ k) start_id

  abbrev matches_of : List BracketMatch
  matches_of = bracket_matches slots ids_of (2 ^ k) k

  matches-Numbered : Numbered start_id matches_of
  unfolding bracket_matches
  matches-Numbered = rows-Numbered slots ids_of k k 0 (2 ^ k) start_id (λ q _. rw (zero-add q))

  length-matches : length matches_of ≡ 2 ^ k - 1
  unfolding bracket_matches
  length-matches = length-rows slots ids_of k k 0 k (omega arith)

  next_width : (r i : ℕ) → suc r < k → i < 2 ^ k / 2 ^ suc r → i / 2 < 2 ^ k / 2 ^ suc (suc r)
  next_width r i lt hi =
      let j = k - suc (suc r) in
      let e : j + suc (suc r) ≡ k = omega arith in
      let e' : suc j + suc r ≡ k = omega arith in
      let wide = rw e' at (shr_two_pow (suc j) (suc r)) in
      let narrow = rw e at (shr_two_pow j (suc (suc r))) in
      omega (arith, wide, narrow, two_pow_suc j)

  In-matches :
      (r i : ℕ) → r < k → i < 2 ^ k / 2 ^ suc r → In (make_match slots ids_of k r i) matches_of
  unfolding bracket_matches
  In-matches r i hr hi =
      In-concat_map-range (row slots ids_of k (2 ^ k)) _ 0 k r (omega arith) (omega arith) (
        In-map-range (make_match slots ids_of k r) 0 (2 ^ k / 2 ^ suc r) i (omega arith)
          (omega arith))

  make_match-Linked :
      (r i : ℕ)
      → r < k
      → i < 2 ^ k / 2 ^ suc r
      → Linked matches_of k (make_match slots ids_of k r i)
  unfolding make_match
  make_match-Linked r i hr hi = elim (Bool-cases (ltb (suc r) k)) [
    | inl more ↦
        let lt = ltb→lt (suc r) k more in
        rw more (record {
          target = make_match slots ids_of k (suc r) (i / 2);
          found =
              find-Numbered start_id (make_match slots ids_of k (suc r) (i / 2)) matches_of
                matches-Numbered (In-matches (suc r) (i / 2) lt (next_width r i lt hi));
          next_round = refl;
          half_slot = refl;
          side_of_slot = refl;
        })
    | inr last ↦ rw last (ground arith)
  ]

  matches-Linked : All (Linked matches_of k) matches_of
  matches-Linked =
      unfold bracket_matches in
      All-concat_map-range (row slots ids_of k (2 ^ k)) (Linked matches_of k) 0 k λ r _ hr.
        All-map-range (make_match slots ids_of k r) (Linked matches_of k) 0 (2 ^ k / 2 ^ suc r)
          λ i _ hi. make_match-Linked r i (omega arith) (omega arith)

-- The ids of a bracket of any size are consecutive.
pub build_single_elim-Numbered :
    (entrants : List Entrant) (start_id : ℕ)
    → Numbered start_id (build_single_elim entrants start_id).matches
unfolding build_single_elim
build_single_elim-Numbered entrants start_id =
    let bracket = next_pow2 (max (length entrants) 2) in
    let rounds = log2 bracket in
    let ids = id_rows rounds 0 bracket start_id in
    rows-Numbered (slot_entrants entrants bracket) ids rounds rounds 0 bracket start_id
      (λ q _. rw (zero-add q))

-- What a new bracket looks like.
pub record IsBracket (n start_id : ℕ) (ms : List BracketMatch) (rounds : ℕ) : Type 0 where
  pub size : next_pow2 n ≡ 2 ^ rounds
  pub count : length ms ≡ 2 ^ rounds - 1
  pub numbered : Numbered start_id ms
  pub linked : All (Linked ms rounds) ms

-- With 2 to 2 ^ 30 entrants the bracket has one match less than slots, its ids are consecutive from
-- `startId`, and each match but the final sends its winner to the match of the next round at half
-- its slot, which the id finds, on side A from an even slot and on side B from an odd one.
pub build_single_elim-IsBracket :
    (entrants : List Entrant) (start_id : ℕ)
    → 2 ≤ length entrants
    → length entrants ≤ 2 ^ 30
    → let built = build_single_elim entrants start_id in
      IsBracket (length entrants) start_id built.matches built.rounds
unfolding build_single_elim
build_single_elim-IsBracket entrants start_id lo hi =
    let (k, eq, small, fits, half) = bracket_size (length entrants) lo hi in
    let same : max (length entrants) 2 ≡ length entrants = omega arith in
    let eq' : next_pow2 (length entrants) ≡ 2 ^ suc k = rw same at eq in
    let slots = slot_entrants entrants (2 ^ suc k) in
    rw (eq, log2-two_pow (suc k))
      (record {
        size = eq';
        count = length-matches slots (suc k) start_id;
        numbered = matches-Numbered slots (suc k) start_id;
        linked = matches-Linked slots (suc k) start_id;
      })
