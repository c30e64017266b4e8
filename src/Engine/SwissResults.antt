-- ===== src/Engine/SwissResults.antt =====
-- applySwissResults of tournament.ts in web/src/lib/engine, on the matches and the entries.
pub mod Entries
pub mod Recount
use avax_build_games.Prelude.{
  ℕ, suc, not, none, some, List, [], ◌∷◌, insert, lookup, set, ◌==◌, if◌then◌else◌,
}
use avax_build_games.Engine.Types.{Outcome, draw, void, BracketMatch}
use avax_build_games.Engine.Swiss.{SwissEntry, entry_at}

-- idToIdx: the index of an entry under its entrant's id, over the entries from index `i` on.
id_to_idx_from : ℕ → List SwissEntry → List (ℕ × ℕ) → List (ℕ × ℕ)
id_to_idx_from i [] m = m
id_to_idx_from i (e ∷ es) m = id_to_idx_from (suc i) es (insert e.entrant.id i m)

unfoldable pub id_to_idx : List SwissEntry → List (ℕ × ℕ)
unfolding id_to_idx_from
id_to_idx es = id_to_idx_from 0 es []

abbrev add_win : ℕ → List SwissEntry → List SwissEntry
add_win i es = let e = entry_at es i in set es i (record e { wins = suc e.wins })

abbrev add_loss : ℕ → List SwissEntry → List SwissEntry
add_loss i es = let e = entry_at es i in set es i (record e { losses = suc e.losses })

abbrev add_draw : ℕ → List SwissEntry → List SwissEntry
add_draw i es = let e = entry_at es i in set es i (record e { draws = suc e.draws })

-- The switch on the outcome, for the entries of the two sides.
unfoldable pub count_outcome : Outcome → ℕ → ℕ → List SwissEntry → List SwissEntry
count_outcome Outcome.a ia ib es = add_loss ib (add_win ia es)
count_outcome Outcome.b ia ib es = add_loss ia (add_win ib es)
count_outcome draw ia ib es = add_draw ib (add_draw ia es)
count_outcome void ia ib es = es

-- The body of the loop over the matches.
unfoldable pub apply_result : ℕ → List (ℕ × ℕ) → BracketMatch → List SwissEntry → List SwissEntry
unfolding count_outcome
apply_result round idx m es = elim m.outcome [
  | none ↦ es
  | some o ↦ if not (m.round == round) then es else elim m.a [
    | none ↦ es
    | some x ↦ elim m.b [
      | none ↦ es
      | some y ↦ elim (lookup x.id idx) [
        | none ↦ es
        | some ia ↦ elim (lookup y.id idx) [ none ↦ es | some ib ↦ count_outcome o ia ib es ]
      ]
    ]
  ]
]

apply_all : ℕ → List (ℕ × ℕ) → List BracketMatch → List SwissEntry → List SwissEntry
unfolding apply_result
apply_all round idx [] es = es
apply_all round idx (m ∷ ms) es = apply_all round idx ms (apply_result round idx m es)

unfoldable pub apply_results : ℕ → List BracketMatch → List SwissEntry → List SwissEntry
unfolding apply_all id_to_idx
apply_results round ms entries = apply_all round (id_to_idx entries) ms entries
