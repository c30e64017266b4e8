-- ===== src/Engine/SwissResults/Entries.antt =====
-- The entrants of the entries under applySwissResults.
use avax_build_games.Prelude.{ℕ, sym, subst, List, All}
use avax_build_games.Engine.Types.{Entrant, BracketMatch}
use avax_build_games.Engine.Swiss.{SwissEntry}
use avax_build_games.Engine.Swiss.Entries.{OfEntry, entry_at-OfEntry, set-OfEntry}
use avax_build_games.Engine.SwissResults.{apply_results}
use avax_build_games.Engine.SwissResults.Recount.{apply_results-Kept}

pub apply_results-OfEntry :
    (P : Entrant → Type 0) (round : ℕ) (ms : List BracketMatch) (es : List SwissEntry)
    → All (OfEntry P) es
    → All (OfEntry P) (apply_results round ms es)
apply_results-OfEntry P = apply_results-Kept (All (OfEntry P)) λ es i e same _ h.
    set-OfEntry P es i e (λ b. subst P (sym same) (entry_at-OfEntry P es i b h)) h
