-- ===== src/Engine/SwissResults/Recount.antt =====
-- The writes of applySwissResults, which are to counts of entries.
use avax_build_games.Prelude.{
  ℕ, inl, inr, ◌≡◌, refl, List, [], ◌∷◌, set, ◌==◌, Bool-cases, Option-cases, lookup, suc,
}
use avax_build_games.Engine.Types.{Outcome, draw, void, BracketMatch}
use avax_build_games.Engine.Swiss.{SwissEntry, entry_at}
use avax_build_games.Engine.SwissResults.{
  add_win, add_loss, add_draw, count_outcome, apply_result, apply_all, apply_results, id_to_idx,
}

-- The property is kept by a write that keeps the entrant of an entry and whom it has played.
abbrev pub IsKept : (List SwissEntry → Type 0) → Type 0
IsKept Q =
    (es : List SwissEntry) (i : ℕ) (e : SwissEntry)
    → e.entrant ≡ (entry_at es i).entrant
    → e.played ≡ (entry_at es i).played
    → Q es
    → Q (set es i e)

module _ (Q : List SwissEntry → Type 0) (keep : IsKept Q) where
  recount-Kept :
      (f : SwissEntry → SwissEntry) (es : List SwissEntry) (i : ℕ)
      → ((e : SwissEntry) → (f e).entrant ≡ e.entrant)
      → ((e : SwissEntry) → (f e).played ≡ e.played)
      → Q es
      → Q (set es i (f (entry_at es i)))
  recount-Kept f es i same same' h =
      keep es i (f (entry_at es i)) (same (entry_at es i)) (same' (entry_at es i)) h

  add_win-Kept : (i : ℕ) (es : List SwissEntry) → Q es → Q (add_win i es)
  add_win-Kept i es h =
      recount-Kept (λ e. record e { wins = suc e.wins }) es i (λ e. refl) (λ e. refl) h

  add_loss-Kept : (i : ℕ) (es : List SwissEntry) → Q es → Q (add_loss i es)
  add_loss-Kept i es h =
      recount-Kept (λ e. record e { losses = suc e.losses }) es i (λ e. refl) (λ e. refl) h

  add_draw-Kept : (i : ℕ) (es : List SwissEntry) → Q es → Q (add_draw i es)
  add_draw-Kept i es h =
      recount-Kept (λ e. record e { draws = suc e.draws }) es i (λ e. refl) (λ e. refl) h

  count_outcome-Kept :
      (o : Outcome) (ia ib : ℕ) (es : List SwissEntry) → Q es → Q (count_outcome o ia ib es)
  unfolding count_outcome
  count_outcome-Kept Outcome.a ia ib es h = add_loss-Kept ib (add_win ia es) (add_win-Kept ia es h)
  count_outcome-Kept Outcome.b ia ib es h = add_loss-Kept ia (add_win ib es) (add_win-Kept ib es h)
  count_outcome-Kept draw ia ib es h = add_draw-Kept ib (add_draw ia es) (add_draw-Kept ia es h)
  count_outcome-Kept void ia ib es h = h

  apply_result-Kept :
      (round : ℕ) (idx : List (ℕ × ℕ)) (m : BracketMatch) (es : List SwissEntry)
      → Q es
      → Q (apply_result round idx m es)
  unfolding apply_result
  apply_result-Kept round idx m es h = elim (Option-cases m.outcome) [
    | inl e ↦ rw (e, apply_result) h
    | inr (o, e) ↦ elim (Bool-cases (m.round == round)) [
      | inr r ↦ rw (e, r, apply_result) h
      | inl r ↦ elim (Option-cases m.a) [
        | inl f ↦ rw (e, r, f, apply_result) h
        | inr (x, f) ↦ elim (Option-cases m.b) [
          | inl g ↦ rw (e, r, f, g, apply_result) h
          | inr (y, g) ↦ elim (Option-cases (lookup x.id idx)) [
            | inl u ↦ rw (e, r, f, g, u, apply_result) h
            | inr (ia, u) ↦ elim (Option-cases (lookup y.id idx)) [
              | inl v ↦ rw (e, r, f, g, u, v, apply_result) h
              | inr (ib, v) ↦ rw (e, r, f, g, u, v, apply_result) (count_outcome-Kept o ia ib es h)
            ]
          ]
        ]
      ]
    ]
  ]

  apply_all-Kept :
      (round : ℕ) (idx : List (ℕ × ℕ)) (ms : List BracketMatch) (es : List SwissEntry)
      → Q es
      → Q (apply_all round idx ms es)
  unfolding apply_all
  apply_all-Kept round idx [] es h = h
  apply_all-Kept round idx (m ∷ ms) es h =
      apply_all-Kept round idx ms (apply_result round idx m es) (apply_result-Kept round idx m es h)

  pub apply_results-Kept :
      (round : ℕ) (ms : List BracketMatch) (es : List SwissEntry)
      → Q es
      → Q (apply_results round ms es)
  unfolding apply_results
  apply_results-Kept round ms es h = apply_all-Kept round (id_to_idx es) ms es h
