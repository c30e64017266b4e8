-- ===== src/Web/Store/Upserts.antt =====
-- What the upserts of store.ts leave in the tables.
use avax_build_games.Prelude.{
  ℕ, ◌≡◌, refl, ap, Option, none, some, lookup, lookup-insert, ◌==◌, if◌then◌else◌, Option-cases,
  inl, inr,
}
use avax_build_games.Web.Text.{Text}
use avax_build_games.Web.Store.{
  Db, BracketState, TournamentRecord, coalesce, merge_tournament, save_tournament, get_tournament,
  upsert_bracket, get_bracket,
}

-- The row that saveTournament leaves for its argument.
abbrev pub saved_row : Option TournamentRecord → TournamentRecord → TournamentRecord
saved_row none new = new
saved_row (some old) new = merge_tournament old new

pub get_tournament-save_tournament :
    (tid : ℕ) (new : TournamentRecord) (db : Db)
    → get_tournament tid (save_tournament new db) ≡ (
        if new.tournament_id == tid
        then some (saved_row (get_tournament new.tournament_id db) new)
        else get_tournament tid db)
unfolding get_tournament save_tournament
get_tournament-save_tournament tid new db =
    elim (Option-cases (lookup new.tournament_id db.tournaments)) [
      | inl e ↦
          rw (e, get_tournament, save_tournament)
            (lookup-insert new.tournament_id tid new db.tournaments)
      | inr (old, e) ↦
          rw (e, get_tournament, save_tournament)
            (lookup-insert new.tournament_id tid (merge_tournament old new) db.tournaments)
    ]

-- The token of the argument is the stored one, if it has one.
pub saved_row-token :
    (old : Option TournamentRecord) (new : TournamentRecord) (token : Text)
    → new.manage_token ≡ some token
    → (saved_row old new).manage_token ≡ some token
unfolding merge_tournament
saved_row-token none new token h = h
saved_row-token (some old) new token h = ap (λ (t : Option Text). coalesce t old.manage_token) h

pub get_bracket-upsert_bracket :
    (tid tid' : ℕ) (b : BracketState) (db : Db)
    → get_bracket tid' (upsert_bracket tid b db)
      ≡ (if tid == tid' then some b else get_bracket tid' db)
unfolding get_bracket upsert_bracket
get_bracket-upsert_bracket tid tid' b db = lookup-insert tid tid' b db.brackets

pub get_tournament-upsert_bracket :
    (tid tid' : ℕ) (b : BracketState) (db : Db)
    → get_tournament tid' (upsert_bracket tid b db) ≡ get_tournament tid' db
unfolding get_tournament upsert_bracket
get_tournament-upsert_bracket tid tid' b db = refl
