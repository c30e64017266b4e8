-- ===== src/Web/Keys.antt =====
-- The routes that save a bracket, and the foreign key of the table: the bracket that they store with
-- `upsert_bracket` is what saveBracket stores, since the tournament is there.
use avax_build_games.Prelude.{
  Bool, ℕ, ◌≡◌, refl, sym, ap, ◌∙◌, true, ◌||◌, Option, some, is_some, List, Option-cases,
  Bool-cases, inl, inr, length, ltb, ==_iff,
}
use avax_build_games.Web.Text.{Text, is_empty_text}
use avax_build_games.Web.Http.{Response, accepted, RouteRequest, body_too_large}
use avax_build_games.Web.Store.{
  Db, BracketState, TournamentRecord, JobPayload, get_tournament, get_bracket, save_tournament,
  save_bracket, upsert_bracket, use_nonce, enqueue_job,
}
use avax_build_games.Web.Store.Upserts.{get_tournament-save_tournament}
use avax_build_games.Web.Store.Ledger.Tables.{use_nonce-rows}
use avax_build_games.Web.Store.Ledger.Kept.{IsKeyed, save_bracket-upsert_bracket}
use avax_build_games.Web.Auth.{bearer_token, require_organizer}
use avax_build_games.Web.Accepted.{OnAccepted, refused, granted, on_accepted}
use avax_build_games.Web.Bracket.{BracketBody, read_bracket, put_read, put_bracket}
use avax_build_games.Web.Report.{Report, ReportRequest, read_report, report, nonce_of}
use avax_build_games.Web.Report.Accepted.{report-Reported}
use avax_build_games.Web.Finalize.{finalize, closed_bracket}
use avax_build_games.Web.Finalize.Once.{finalize-Finalized}
use avax_build_games.Web.Init.{InitBody, init, init_record, init_bracket}
use avax_build_games.Web.Init.Guard.{init-Initialized}

-- An organizer is one of a tournament that is stored.
organizer-stored :
    (auth : Option Text) (tid : ℕ) (db : Db) (rec : TournamentRecord)
    → require_organizer auth tid db ≡ some rec
    → is_some (get_tournament tid db) ≡ true
unfolding require_organizer
organizer-stored auth tid db rec h = elim (Option-cases (get_tournament tid db)) [
  | inr (stored, e) ↦ ap is_some e
  | inl e ↦
      elim (Bool-cases (is_empty_text (bearer_token auth) || ltb (length (bearer_token auth)) 16)) [
        | inl short ↦ cc (rw short at h)
        | inr long ↦ cc (rw (long, e, require_organizer) at h)
      ]
]

-- Whether the database is the one before, with a bracket of the tournament that saveBracket stores.
abbrev Saves : ℕ → Db → Db → Type 0
Saves tid db db' = (b : BracketState) × (save_bracket tid b db ≡ some db')

-- The bracket that a 200 of the finalize route stores is one that saveBracket stores.
pub finalize-save_bracket :
    (req : RouteRequest) (tid : ℕ) (db : Db)
    → req.tid ≡ some tid
    → accepted (finalize req db).0 ≡ true
    → (job : ℕ) × (stored : Db) × Saves tid db stored
      × ((job, (finalize req db).1) ≡ enqueue_job (JobPayload.finalize tid) stored)
finalize-save_bracket req tid db e h =
    let (job, answer, f) = finalize-Finalized req tid db e h in
    let b = closed_bracket f.wallets f.bracket in
    (
      job,
      upsert_bracket tid b db,
      (
        b,
        save_bracket-upsert_bracket tid b db
            (organizer-stored req.authorization tid db f.rec f.authorized),
      ),
      f.result,
    )

use_nonce-tournament :
    (tid : ℕ) (r : Report) (db : Db)
    → get_tournament tid (use_nonce (nonce_of tid r) db).1 ≡ get_tournament tid db
unfolding get_tournament
use_nonce-tournament tid r db =
    ap (λ d. get_tournament tid d) (use_nonce-rows (nonce_of tid r) db).1

use_nonce-bracket :
    (tid : ℕ) (r : Report) (db : Db)
    → get_bracket tid (use_nonce (nonce_of tid r) db).1 ≡ get_bracket tid db
unfolding get_bracket
use_nonce-bracket tid r db = ap (λ d. get_bracket tid d) (use_nonce-rows (nonce_of tid r) db).1

-- Where every stored bracket belongs to a tournament, the bracket that a 200 of the report route
-- stores, after the nonce, is one that saveBracket stores.
pub report-save_bracket :
    (now : ℕ) (recover : Text → Text → Option Text) (req : ReportRequest) (tid : ℕ) (r : Report)
    (db : Db)
    → IsKeyed db
    → req.tid ≡ some tid
    → read_report req.body ≡ some r
    → accepted (report now recover req db).0 ≡ true
    → Saves tid (use_nonce (nonce_of tid r) db).1 (report now recover req db).1
report-save_bracket now recover req tid r db keyed e e' h =
    let (status, answer, f) = report-Reported now recover req tid r db e e' h in
    let used = (use_nonce (nonce_of tid r) db).1 in
    let b : BracketState = record f.bracket {
      results = f.results;
      reports = f.reports;
      disputes = f.disputes;
    } in
    let there = keyed tid (ap is_some (sym (use_nonce-bracket tid r db) ∙ f.stored)) in
    (
      b,
      save_bracket-upsert_bracket tid b used (ap is_some (use_nonce-tournament tid r db) ∙ there)
          ∙ ap some (sym f.saved),
    )

saved-there :
    (tid : ℕ) (new : TournamentRecord) (db : Db)
    → new.tournament_id ≡ tid
    → is_some (get_tournament tid (save_tournament new db)) ≡ true
saved-there tid new db e =
    ap is_some (get_tournament-save_tournament tid new db)
    ∙ rw ((==_iff new.tournament_id tid).1 e) refl

-- The bracket that a 200 of the init route stores, after the tournament, is one that saveBracket
-- stores.
pub init-save_bracket :
    (now : ℕ) (buf : List ℕ) (req : RouteRequest) (tid : ℕ) (body : InitBody) (db : Db)
    → req.tid ≡ some tid
    → accepted (init now buf req body db).0 ≡ true
    → (new : TournamentRecord) × Saves tid (save_tournament new db) (init now buf req body db).1
unfolding init_record
init-save_bracket now buf req tid body db e h =
    let f = (init-Initialized now buf req tid body db e h).1 in
    let new = init_record now tid buf body f.fields in
    let b = init_bracket body f.fields in
    (
      new,
      (
        b,
        save_bracket-upsert_bracket tid b (save_tournament new db) (saved-there tid new db refl)
            ∙ ap some (sym f.result),
      ),
    )

put_read-Saves :
    (tid : ℕ) (body : BracketBody) (db : Db)
    → is_some (get_tournament tid db) ≡ true
    → OnAccepted (λ done. Saves tid db done.1) (put_read tid body db)
unfolding put_read
put_read-Saves tid body db there = elim (Option-cases (read_bracket body)) [
  | inl e ↦ rw (e, put_read) (refused (λ done. Saves tid db done.1) _ refl)
  | inr (b, e) ↦ elim (Bool-cases (ltb 1024 (length b.players) || ltb 4096 (length b.results))) [
    | inl many ↦ rw (e, many, put_read) (refused (λ done. Saves tid db done.1) _ refl)
    | inr few ↦
        rw (e, few, put_read)
          (granted (λ done. Saves tid db done.1) _
            λ h. (b, save_bracket-upsert_bracket tid b db there))
  ]
]

-- The bracket that a 200 of the PUT stores is one that saveBracket stores.
pub put_bracket-save_bracket :
    (req : RouteRequest) (tid : ℕ) (body : BracketBody) (db : Db)
    → req.tid ≡ some tid
    → accepted (put_bracket req body db).0 ≡ true
    → Saves tid db (put_bracket req body db).1
unfolding put_bracket
put_bracket-save_bracket req tid body db e h =
    on_accepted (λ (done : Response Bool × Db). Saves tid db done.1) (put_bracket req body db) whole
      h
  where
    whole : OnAccepted (λ done. Saves tid db done.1) (put_bracket req body db)
    whole = elim (Bool-cases (body_too_large req.content_length)) [
      | inl large ↦ rw large (refused (λ done. Saves tid db done.1) _ refl)
      | inr small ↦ elim (Option-cases (require_organizer req.authorization tid db)) [
        | inl none_ ↦ rw (small, e, none_) (refused (λ done. Saves tid db done.1) _ refl)
        | inr (rec, some_) ↦
            rw (small, e, some_)
              (put_read-Saves tid body db (organizer-stored req.authorization tid db rec some_))
      ]
    ]
