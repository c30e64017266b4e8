-- ===== src/Engine/Swiss/Entries.antt =====
-- The entrants of a Swiss tournament in its entries and its pairs.
use avax_build_games.Prelude.{
  ℕ, zero, suc, ◌<◌, ◌≡◌, sym, subst, ◌∙◌, true, false, Bool, List, [], ◌∷◌, length, get_or, set,
  contains, All, arith, map,
}
use avax_build_games.Engine.Types.{Entrant}
use avax_build_games.Engine.Swiss.{SwissEntry, Pairing, entry_at, new_entry, pair_swiss_round}
use avax_build_games.Engine.Swiss.Pairs.{Shows, pair_swiss_round-IsPairing}

get_or-in : (xs : List Bool) (k : ℕ) → get_or xs k false ≡ true → k < length xs
get_or-in [] k h = cc
get_or-in (x ∷ xs) zero h = omega arith
get_or-in (x ∷ xs) (suc k) h = omega (arith, get_or-in xs k h)

-- What is in a list of numbers holds of each of them.
All-contained : {Q : ℕ → Type 0} (xs : List ℕ) → ((k : ℕ) → contains k xs ≡ true → Q k) → All Q xs
All-contained [] h = tt
All-contained (x ∷ xs) h =
    (h x (ground arith), All-contained xs λ k in_rest. h k (ground (arith, in_rest)))

module _ (P : Entrant → Type 0) where
  abbrev pub OfEntry : SwissEntry → Type 0
  OfEntry e = P e.entrant

  abbrev pub OfPairing : Pairing → Type 0
  OfPairing p = P p.a × P p.b

  pub entry_at-OfEntry :
      (es : List SwissEntry) (i : ℕ) → i < length es → All OfEntry es → OfEntry (entry_at es i)
  entry_at-OfEntry [] i b h = absurd (omega arith)
  entry_at-OfEntry (e ∷ es) zero b h = h.0
  entry_at-OfEntry (e ∷ es) (suc i) b h = entry_at-OfEntry es i (omega (arith, b)) h.1

  same-OfEntry :
      (es es' : List SwissEntry)
      → length es' ≡ length es
      → ((k : ℕ) → (entry_at es' k).entrant ≡ (entry_at es k).entrant)
      → All OfEntry es
      → All OfEntry es'
  same-OfEntry [] [] size same h = tt
  same-OfEntry (e ∷ es) [] size same h = tt
  same-OfEntry [] (e' ∷ es') size same h = absurd (omega arith)
  same-OfEntry (e ∷ es) (e' ∷ es') size same h = (
    subst P (sym (same 0)) h.0,
    same-OfEntry es es' (omega (arith, size)) (λ k. same (suc k)) h.1,
  )

  shown-OfPairing :
      (es : List SwissEntry) (ixs : List ℕ) (ps : List Pairing)
      → All OfEntry es
      → All (λ k. k < length es) ixs
      → Shows es ixs ps
      → All OfPairing ps
  shown-OfPairing es [] [] h b s = tt
  shown-OfPairing es [] (p ∷ ps) h b s = absurd s
  shown-OfPairing es (i ∷ ixs) [] h b s = tt
  shown-OfPairing es (i ∷ []) (p ∷ ps) h b s = absurd s
  shown-OfPairing es (i ∷ j ∷ ixs) (p ∷ ps) h b s = (
    (
      subst P (sym s.0) (entry_at-OfEntry es i b.0 h),
      subst P (sym s.1) (entry_at-OfEntry es j b.1.0 h),
    ),
    shown-OfPairing es ixs ps h b.1.1 s.3,
  )

  pub pair_swiss_round-OfPairing :
      (es : List SwissEntry) (start_id : ℕ)
      → All OfEntry es
      → All OfPairing (pair_swiss_round es start_id).out
        × All OfEntry (pair_swiss_round es start_id).entries
  pair_swiss_round-OfPairing es start_id h =
      let st = pair_swiss_round es start_id in
      let (used, p) = pair_swiss_round-IsPairing es start_id in
      let below : All (λ k. k < length es) used = All-contained used λ k in_used.
        subst (λ n. k < n) p.paired_size (get_or-in st.paired k (p.flags k ∙ in_used)) in
      (
        shown-OfPairing es used st.out h below p.shows,
        same-OfEntry es st.entries p.entries_size p.same h,
      )

  pub set-OfEntry :
      (es : List SwissEntry) (i : ℕ) (e : SwissEntry)
      → (i < length es → OfEntry e)
      → All OfEntry es
      → All OfEntry (set es i e)
  set-OfEntry [] i e p h = tt
  set-OfEntry (x ∷ es) zero e p h = (p (omega arith), h.1)
  set-OfEntry (x ∷ es) (suc i) e p h = (h.0, set-OfEntry es i e (λ b. p (omega (arith, b))) h.1)

  pub map-new_entry-OfEntry : (es : List Entrant) → All P es → All OfEntry (map new_entry es)
  unfolding new_entry
  map-new_entry-OfEntry [] h = tt
  map-new_entry-OfEntry (e ∷ es) h = (h.0, map-new_entry-OfEntry es h.1)
