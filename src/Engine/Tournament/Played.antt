-- ===== src/Engine/Tournament/Played.antt =====
-- A tournament that is played.
use avax_build_games.Prelude.{ℕ, ◌≡◌, true, List}
use avax_build_games.Engine.Types.{Entrant, Outcome, TournamentFormat, ok}
use avax_build_games.Engine.Tournament.{Tournament, ids_unique, new, record_outcome}
use avax_build_games.Engine.Tournament.Entrants.{new-StartedFrom}

-- `new`, and successful calls of `record` after it.
pub data Played (format : TournamentFormat) (es : List Entrant) : Tournament → Type 0 where
  begins : {t : Tournament} → new format es ≡ ok t → Played format es t
  records :
      {t t' : Tournament} (id : ℕ) (o : Outcome)
      → Played format es t
      → record_outcome id o t ≡ ok t'
      → Played format es t'

pub Played-ids_unique :
    (format : TournamentFormat) (es : List Entrant) {t : Tournament}
    → Played format es t
    → ids_unique es ≡ true
Played-ids_unique format es (begins {t} started) = (new-StartedFrom format es t started).unique
Played-ids_unique format es (records {t} id o before recorded) = Played-ids_unique format es before
