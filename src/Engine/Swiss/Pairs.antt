-- ===== src/Engine/Swiss/Pairs.antt =====
-- Who is paired in a Swiss round.
use avax_build_games.Prelude.{
  ℕ, ◌<◌, ◌≡◌, refl, ◌∙◌, inl, inr, true, false, List, [], ◌∷◌, ◌++◌, length, length-set,
  length-replicate, find, get_or, get_or-set, set, contains, contains-append, Distinct,
  Distinct-concat_two, get_or-replicate, All, All-find, All-sort, All-range_below, range,
  find_sound, arith, Bool-cases, Option-cases, ◌==◌,
}
use avax_build_games.Engine.Swiss.{
  SwissEntry, Pairing, PairState, entry_at, no_entry, add_played, pair_of, pair_up, can_meet,
  pair_one, pair_all, pair_swiss_round, pairing_order, comes_first,
}

-- The pairs are those of the entries at the given indices, two for each pair, and the first of a
-- pair has not played the second.
abbrev pub Shows : List SwissEntry → List ℕ → List Pairing → Type 0
Shows es [] [] = Unit
Shows es [] (p ∷ ps) = ⊥
Shows es (i ∷ ixs) [] = ⊥
Shows es (i ∷ []) (p ∷ ps) = ⊥
Shows es (i ∷ j ∷ ixs) (p ∷ ps) =
    (p.a ≡ (entry_at es i).entrant)
    × (p.b ≡ (entry_at es j).entrant)
    × (contains p.b.id (entry_at es i).played ≡ false)
    × Shows es ixs ps

Shows-concat :
    (es : List SwissEntry) (ixs : List ℕ) (ps : List Pairing) (i j : ℕ) (p : Pairing)
    → Shows es ixs ps
    → Shows es (i ∷ j ∷ []) (p ∷ [])
    → Shows es (ixs ++ i ∷ j ∷ []) (ps ++ p ∷ [])
Shows-concat es [] [] i j p h k = k
Shows-concat es [] (q ∷ ps) i j p h k = absurd h
Shows-concat es (x ∷ ixs) [] i j p h k = absurd h
Shows-concat es (x ∷ []) (q ∷ ps) i j p h k = absurd h
Shows-concat es (x ∷ y ∷ ixs) (q ∷ ps) i j p h k =
    (h.0, h.1, h.2, Shows-concat es ixs ps i j p h.3 k)

-- The state of the loop, with the indices paired so far.
pub record IsPairing (es : List SwissEntry) (used : List ℕ) (st : PairState) : Type 0 where
  pub shows : Shows es used st.out
  pub distinct : Distinct used
  pub flags : (k : ℕ) → get_or st.paired k false ≡ contains k used
  pub same : (k : ℕ) → (entry_at st.entries k).entrant ≡ (entry_at es k).entrant
  pub fresh : (k : ℕ) → contains k used ≡ false → entry_at st.entries k ≡ entry_at es k
  pub paired_size : length st.paired ≡ length es
  pub entries_size : length st.entries ≡ length es

module _ (es : List SwissEntry) (used : List ℕ) (st : PairState) (h : IsPairing es used st)
    (i j : ℕ) (hi : i < length es) (hj : j < length es) (free : get_or st.paired i false ≡ false)
    (meet : can_meet st i j ≡ true) where
  j_free : contains j used ≡ false
  unfolding can_meet
  j_free = ground (arith, h.flags j)

  i_free : contains i used ≡ false
  i_free = ground (arith, h.flags i)

  i-ne-j : (i == j) ≡ false
  unfolding can_meet
  i-ne-j = ground arith

  pair_up-Shows : Shows es (i ∷ j ∷ []) (pair_of st i j ∷ [])
  unfolding can_meet
  pair_up-Shows = (h.same i, h.same j, ground (arith, h.fresh i i_free, h.same j), tt)

  pair_up-flags : (k : ℕ) → get_or (pair_up st i j).paired k false ≡ contains k (used ++ i ∷ j ∷ [])
  unfolding pair_up
  pair_up-flags k =
      let hp = h.paired_size in
      let hs = length-set st.paired i true in
      ground (
        arith,
        get_or-set (set st.paired i true) j k true false (omega arith),
        get_or-set st.paired i k true false (omega arith),
        h.flags k,
        contains-append k used (i ∷ j ∷ []),
      )

  pair_up-same : (k : ℕ) → (entry_at (pair_up st i j).entries k).entrant ≡ (entry_at es k).entrant
  unfolding pair_up
  pair_up-same k =
      let size = h.entries_size in
      let met =
        set st.entries i (add_played (entry_at st.entries j).entrant.id (entry_at st.entries i)) in
      let size' : length met ≡ length st.entries = length-set st.entries i _ in
      ground (
        arith,
        get_or-set met j k (add_played (entry_at st.entries i).entrant.id (entry_at met j)) no_entry
            (omega arith),
        get_or-set st.entries i k
            (add_played (entry_at st.entries j).entrant.id (entry_at st.entries i)) no_entry
            (omega arith),
        get_or-set st.entries i j
            (add_played (entry_at st.entries j).entrant.id (entry_at st.entries i)) no_entry
            (omega arith),
        h.same k,
        h.same i,
        h.same j,
      )

  pair_up-fresh :
      (k : ℕ)
      → contains k (used ++ i ∷ j ∷ []) ≡ false
      → entry_at (pair_up st i j).entries k ≡ entry_at es k
  unfolding pair_up
  pair_up-fresh k out =
      let size = h.entries_size in
      let met =
        set st.entries i (add_played (entry_at st.entries j).entrant.id (entry_at st.entries i)) in
      let size' : length met ≡ length st.entries = length-set st.entries i _ in
      ground (
        arith,
        get_or-set met j k (add_played (entry_at st.entries i).entrant.id (entry_at met j)) no_entry
            (omega arith),
        get_or-set st.entries i k
            (add_played (entry_at st.entries j).entrant.id (entry_at st.entries i)) no_entry
            (omega arith),
        h.fresh k,
        contains-append k used (i ∷ j ∷ []),
      )

  pair_up-IsPairing : IsPairing es (used ++ i ∷ j ∷ []) (pair_up st i j)
  pair_up-IsPairing = record {
    shows =
        unfold pair_up in Shows-concat es used st.out i j (pair_of st i j) h.shows pair_up-Shows;
    distinct = Distinct-concat_two used i j h.distinct i_free j_free i-ne-j;
    flags = pair_up-flags;
    same = pair_up-same;
    fresh = pair_up-fresh;
    paired_size =
        unfold pair_up in
        length-set (set st.paired i true) j true ∙ length-set st.paired i true ∙ h.paired_size;
    entries_size =
        unfold pair_up in
        length-set (set st.entries i _) j _ ∙ length-set st.entries i _ ∙ h.entries_size;
  }

abbrev Paired : List SwissEntry → PairState → Type 0
Paired es st = (used : List ℕ) × IsPairing es used st

pair_one-Paired :
    (es : List SwissEntry) (idx : List ℕ) (i : ℕ) (st : PairState)
    → All (λ k. k < length es) idx
    → i < length es
    → Paired es st
    → Paired es (pair_one idx i st)
unfolding pair_one
pair_one-Paired es idx i st below hi (used, h) = elim (Bool-cases (get_or st.paired i false)) [
  | inl e ↦ rw (e, pair_one) (used, h)
  | inr e ↦ elim (Option-cases (find (can_meet st i) idx)) [
    | inl f ↦ rw (e, f, pair_one) (used, h)
    | inr (j, f) ↦
        rw (e, f, pair_one)
          (
            used ++ i ∷ j ∷ [],
            pair_up-IsPairing es used st h i j hi
                (All-find (λ k. k < length es) (can_meet st i) idx j below f) e
                (find_sound (can_meet st i) idx j f),
          )
  ]
]

pair_all-Paired :
    (es : List SwissEntry) (idx rest : List ℕ) (st : PairState)
    → All (λ k. k < length es) idx
    → All (λ k. k < length es) rest
    → Paired es st
    → Paired es (pair_all idx rest st)
unfolding pair_all
pair_all-Paired es idx [] st below hr h = h
pair_all-Paired es idx (i ∷ rest) st below hr h =
    pair_all-Paired es idx rest (pair_one idx i st) below hr.1
      (pair_one-Paired es idx i st below hr.0 h)

pub pairing_order_below : (es : List SwissEntry) → All (λ k. k < length es) (pairing_order es)
unfolding pairing_order
pairing_order_below es =
    All-sort (comes_first es) _ (range 0 (length es))
      (All-range_below 0 (length es) (length es) (omega arith))

-- In a Swiss round no entry is in two pairs, none is paired with itself, and no pair repeats an
-- earlier meeting: the pairs are those of distinct indices, two each, and the second of a pair is
-- not among those that the first has played before the round.
pub pair_swiss_round-IsPairing :
    (es : List SwissEntry) (start_id : ℕ)
    → (used : List ℕ) × IsPairing es used (pair_swiss_round es start_id)
unfolding pair_swiss_round
pair_swiss_round-IsPairing es start_id =
    pair_all-Paired es (pairing_order es) (pairing_order es) _ (pairing_order_below es)
      (pairing_order_below es)
      (
        [],
        record {
          shows = tt;
          distinct = tt;
          flags = λ k. get_or-replicate (length es) k false;
          same = λ k. refl;
          fresh = λ k _. refl;
          paired_size = length-replicate (length es) false;
          entries_size = refl;
        },
      )
