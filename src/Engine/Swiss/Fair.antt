-- ===== src/Engine/Swiss/Fair.antt =====
-- The meetings that the pairing of a Swiss round adds.
use avax_build_games.Prelude.{
  ℕ, ◌+◌, ◌<◌, ◌≤◌, ◌≡◌, refl, sym, ap, subst, ◌∙◌, Bool, true, false, ◌==◌, ◌&&◌, some, List, [],
  ◌∷◌, ◌++◌, length, length-map, set, find, contains, Distinct, All, All-find, find_sound, arith,
  Bool-cases, Option-cases, inl, inr, get_or, get_or-set, length-set, if◌then◌else◌,
}
use avax_build_games.Engine.Types.{Entrant}
use avax_build_games.Engine.Meetings.{faces}
use avax_build_games.Engine.Swiss.{
  SwissEntry, no_entry, Pairing, PairState, entry_at, add_played, pair_of, pair_up, can_meet,
  pair_one, pair_all, pair_swiss_round, pairing_order,
}
use avax_build_games.Engine.Swiss.Pairs.{pairing_order_below}
use avax_build_games.Engine.Swiss.Played.{
  entry_ids, has_played, entry_ids-set, add_played-entrant, has_played-add_keeps,
  has_played-add_adds, has_played-at,
}

-- How many of the pairs are of `x` and `y`.
abbrev pub pair_meetings : ℕ → ℕ → List Pairing → ℕ
pair_meetings x y [] = 0
pair_meetings x y (p ∷ ps) = faces x y (some p.a) (some p.b) + pair_meetings x y ps

pair_meetings-append :
    (x y : ℕ) (ps qs : List Pairing)
    → pair_meetings x y (ps ++ qs) ≡ pair_meetings x y ps + pair_meetings x y qs
pair_meetings-append x y [] qs = omega arith
pair_meetings-append x y (p ∷ ps) qs = omega (arith, pair_meetings-append x y ps qs)

-- 1 if each is among those that the other has played.
abbrev pub known_meetings : ℕ → ℕ → List SwissEntry → ℕ
known_meetings x y es = if has_played x y es && has_played y x es then 1 else 0

-- The two have met at most once, and if they have then their entries tell.
pub record IsFair (x y : ℕ) (ids : List ℕ) (met : ℕ) (st : PairState) : Type 0 where
  pub same_ids : entry_ids st.entries ≡ ids
  pub bound : met + pair_meetings x y st.out ≤ known_meetings x y st.entries

faces_small : (x y : ℕ) (a b : Entrant) → faces x y (some a) (some b) ≤ 1
faces_small x y a b = ground arith

-- A first meeting, which is noted.
first_meeting :
    (p q p' q' : Bool) (n f : ℕ)
    → n ≤ (if p && q then 1 else 0)
    → (p && q) ≡ false
    → p' ≡ true
    → q' ≡ true
    → f ≤ 1
    → n + f ≤ (if p' && q' then 1 else 0)
first_meeting p q p' q' n f h e e' e'' small = rw (e', e'') (omega (arith, small, rw e at h))

-- Notes that are kept.
same_meetings :
    (p q p' q' : Bool) (n f : ℕ)
    → n ≤ (if p && q then 1 else 0)
    → (p ≡ true → p' ≡ true)
    → (q ≡ true → q' ≡ true)
    → f ≡ 0
    → n + f ≤ (if p' && q' then 1 else 0)
same_meetings p q p' q' n f h keep keep' none = ground (arith, h, keep, keep', none)

abbrev size-entry_ids : (es : List SwissEntry) → length (entry_ids es) ≡ length es
size-entry_ids es = length-map (λ (e : SwissEntry). e.entrant.id) es

module _ (es : List SwissEntry) (i j : ℕ) (d : Distinct (entry_ids es)) (hi : i < length es)
    (hj : j < length es) (other : (j == i) ≡ false) where
  abbrev id_i : ℕ
  id_i = (entry_at es i).entrant.id

  abbrev id_j : ℕ
  id_j = (entry_at es j).entrant.id

  abbrev met_i : List SwissEntry
  met_i = set es i (add_played id_j (entry_at es i))

  abbrev met_both : List SwissEntry
  met_both = set met_i j (add_played id_i (entry_at met_i j))

  met_both-ids : entry_ids met_both ≡ entry_ids es
  met_both-ids =
      entry_ids-set met_i j _ (add_played-entrant id_i (entry_at met_i j))
      ∙ entry_ids-set es i _ (add_played-entrant id_j (entry_at es i))

  met_both_keeps : (x y : ℕ) → has_played x y es ≡ true → has_played x y met_both ≡ true
  met_both_keeps x y h =
      has_played-add_keeps x y id_i met_i j (has_played-add_keeps x y id_j es i h)

  met_both_ij : has_played id_i id_j met_both ≡ true
  met_both_ij = has_played-add_keeps id_i id_j id_i met_i j (has_played-add_adds id_j es i hi)

  entry_at-met_i : (entry_at met_i j).entrant.id ≡ id_j
  entry_at-met_i =
      ground (arith, other, get_or-set es i j (add_played id_j (entry_at es i)) no_entry hi)

  met_both_ji : has_played id_j id_i met_both ≡ true
  met_both_ji =
      subst (λ k. has_played k id_i met_both ≡ true) entry_at-met_i
        (has_played-add_adds id_i met_i j (subst (λ n. j < n) (sym (length-set es i _)) hj))

  -- What the entries say of the pair.
  record IsNoted (k l : ℕ) : Type 0 where
    unmet : has_played k l es ≡ false
    there : has_played k l met_both ≡ true
    back : has_played l k met_both ≡ true

  pair-IsNoted :
      (k l : ℕ)
      → contains id_j (entry_at es i).played ≡ false
      → ((id_i == k) && (id_j == l)) ≡ true
      → IsNoted k l
  pair-IsNoted k l new e =
      let ki : id_i ≡ k = ground (arith, e) in
      let lj : id_j ≡ l = ground (arith, e) in
      subst (λ m. IsNoted m l) ki
        (subst (λ m. IsNoted id_i m) lj
          (record {
            unmet = has_played-at id_j es i d hi ∙ new;
            there = met_both_ij;
            back = met_both_ji;
          }))

  -- Two entrants that are the pair's have not met before, and others meet no more often.
  met_both-bound :
      (x y n : ℕ)
      → contains id_j (entry_at es i).played ≡ false
      → n ≤ known_meetings x y es
      → n + faces x y (some (entry_at es i).entrant) (some (entry_at es j).entrant)
        ≤ known_meetings x y met_both
  met_both-bound x y n new h =
      let f = faces x y (some (entry_at es i).entrant) (some (entry_at es j).entrant) in
      let small = faces_small x y (entry_at es i).entrant (entry_at es j).entrant in
      let p = has_played x y es in
      let q = has_played y x es in
      let p' = has_played x y met_both in
      let q' = has_played y x met_both in
      elim (Bool-cases ((id_i == x) && (id_j == y))) [
        | inl e ↦
            let noted = pair-IsNoted x y new e in
            first_meeting p q p' q' n f h (ground (arith, noted.unmet)) noted.there noted.back small
        | inr e ↦ elim (Bool-cases ((id_i == y) && (id_j == x))) [
          | inl e' ↦
              let noted = pair-IsNoted y x new e' in
              first_meeting p q p' q' n f h (ground (arith, noted.unmet)) noted.back noted.there
                small
          | inr e' ↦
              same_meetings p q p' q' n f h (met_both_keeps x y) (met_both_keeps y x)
                (ground (arith, e, e'))
        ]
      ]

module _ (x y : ℕ) (ids : List ℕ) (d : Distinct ids) (met : ℕ) where
  pair_up-IsFair :
      (st : PairState) (i j : ℕ)
      → i < length ids
      → j < length ids
      → can_meet st i j ≡ true
      → IsFair x y ids met st
      → IsFair x y ids met (pair_up st i j)
  unfolding pair_up can_meet
  pair_up-IsFair st i j hi hj meet h =
      let size : length ids ≡ length st.entries =
        ap length (sym h.same_ids) ∙ size-entry_ids st.entries in
      let hi' = subst (λ n. i < n) size hi in
      let hj' = subst (λ n. j < n) size hj in
      let d' = subst Distinct (sym h.same_ids) d in
      record {
        same_ids = met_both-ids st.entries i j d' hi' hj' (ground (arith, meet)) ∙ h.same_ids;
        bound =
            subst (λ n. n ≤ known_meetings x y (pair_up st i j).entries)
              (omega (arith, pair_meetings-append x y st.out (pair_of st i j ∷ [])))
              (met_both-bound st.entries i j d' hi' hj' (ground (arith, meet)) x y
                (met + pair_meetings x y st.out) (ground (arith, meet)) h.bound);
      }

  pair_one-IsFair :
      (idx : List ℕ) (i : ℕ) (st : PairState)
      → All (λ k. k < length ids) idx
      → i < length ids
      → IsFair x y ids met st
      → IsFair x y ids met (pair_one idx i st)
  unfolding pair_one
  pair_one-IsFair idx i st below hi h = elim (Bool-cases (get_or st.paired i false)) [
    | inl e ↦ rw (e, pair_one) h
    | inr e ↦ elim (Option-cases (find (can_meet st i) idx)) [
      | inl f ↦ rw (e, f, pair_one) h
      | inr (j, f) ↦
          rw (e, f, pair_one)
            (pair_up-IsFair st i j hi (All-find (λ k. k < length ids) (can_meet st i) idx j below f)
              (find_sound (can_meet st i) idx j f) h)
    ]
  ]

  pair_all-IsFair :
      (idx rest : List ℕ) (st : PairState)
      → All (λ k. k < length ids) idx
      → All (λ k. k < length ids) rest
      → IsFair x y ids met st
      → IsFair x y ids met (pair_all idx rest st)
  unfolding pair_all
  pair_all-IsFair idx [] st below hr h = h
  pair_all-IsFair idx (i ∷ rest) st below hr h =
      pair_all-IsFair idx rest (pair_one idx i st) below hr.1
        (pair_one-IsFair idx i st below hr.0 h)

pub pair_swiss_round-IsFair :
    (x y : ℕ) (es : List SwissEntry) (start_id met : ℕ)
    → Distinct (entry_ids es)
    → met ≤ known_meetings x y es
    → IsFair x y (entry_ids es) met (pair_swiss_round es start_id)
unfolding pair_swiss_round
pair_swiss_round-IsFair x y es start_id met d h =
    let below =
      subst (λ n. All (λ k. k < n) (pairing_order es)) (sym (size-entry_ids es))
        (pairing_order_below es) in
    pair_all-IsFair x y (entry_ids es) d met (pairing_order es) (pairing_order es) _ below below
      (record { same_ids = refl; bound = omega (arith, h) })
