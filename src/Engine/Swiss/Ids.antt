-- ===== src/Engine/Swiss/Ids.antt =====
-- The ids of the pairs of a Swiss round.
use avax_build_games.Prelude.{
  ℕ, suc, ◌+◌, ◌≡◌, inl, inr, false, List, [], ◌∷◌, ◌++◌, length, length-append, replicate, find,
  get_or, arith, Bool-cases, Option-cases,
}
use avax_build_games.Engine.Swiss.{
  SwissEntry, Pairing, PairState, pair_up, can_meet, pair_one, pair_all, pair_swiss_round, pair_of,
  pairing_order,
}

abbrev pub PairsNumbered : ℕ → List Pairing → Type 0
PairsNumbered s [] = Unit
PairsNumbered s (p ∷ ps) = (p.id ≡ s) × PairsNumbered (suc s) ps

PairsNumbered-concat :
    (s : ℕ) (ps : List Pairing) (p : Pairing)
    → PairsNumbered s ps
    → p.id ≡ s + length ps
    → PairsNumbered s (ps ++ p ∷ [])
PairsNumbered-concat s [] p h e = (omega (arith, e), tt)
PairsNumbered-concat s (q ∷ ps) p h e =
    (h.0, PairsNumbered-concat (suc s) ps p h.1 (omega (arith, e)))

record IsCounted (start : ℕ) (st : PairState) : Type 0 where
  numbered : PairsNumbered start st.out
  next : st.next_id ≡ start + length st.out

length-concat {ℓ} : {A : Type ℓ} (xs : List A) (x : A) → length (xs ++ x ∷ []) ≡ suc (length xs)
length-concat xs x = omega (arith, length-append xs (x ∷ []))

pair_up-IsCounted :
    (start i j : ℕ) (st : PairState) → IsCounted start st → IsCounted start (pair_up st i j)
unfolding pair_up
pair_up-IsCounted start i j st h = record {
  numbered = PairsNumbered-concat start st.out _ h.numbered h.next;
  next = rw (length-concat st.out (pair_of st i j)) (omega (arith, h.next));
}

pair_one-IsCounted :
    (start : ℕ) (idx : List ℕ) (i : ℕ) (st : PairState)
    → IsCounted start st
    → IsCounted start (pair_one idx i st)
unfolding pair_one
pair_one-IsCounted start idx i st h = elim (Bool-cases (get_or st.paired i false)) [
  | inl e ↦ rw (e, pair_one) h
  | inr e ↦ elim (Option-cases (find (can_meet st i) idx)) [
    | inl f ↦ rw (e, f, pair_one) h
    | inr (j, f) ↦ rw (e, f, pair_one) (pair_up-IsCounted start i j st h)
  ]
]

pair_all-IsCounted :
    (start : ℕ) (idx rest : List ℕ) (st : PairState)
    → IsCounted start st
    → IsCounted start (pair_all idx rest st)
unfolding pair_all
pair_all-IsCounted start idx [] st h = h
pair_all-IsCounted start idx (i ∷ rest) st h =
    pair_all-IsCounted start idx rest (pair_one idx i st) (pair_one-IsCounted start idx i st h)

-- The pairs of a round have consecutive ids from `startId`.
pub pair_swiss_round-PairsNumbered :
    (entries : List SwissEntry) (start_id : ℕ)
    → PairsNumbered start_id (pair_swiss_round entries start_id).out
unfolding pair_swiss_round
pair_swiss_round-PairsNumbered entries start_id =
    (pair_all-IsCounted start_id (pairing_order entries) (pairing_order entries)
      (record {
        entries = entries;
        paired = replicate (length entries) false;
        out = [];
        next_id = start_id;
      })
      (record { numbered = tt; next = omega arith })).numbered
