-- ===== src/Web/Finalize/Once.antt =====
-- What finalizes a tournament, and a second request to do so.
use mathlib.Core.Option.{get_or}
use avax_build_games.Prelude.{
  ℕ, ◌≡◌, refl, ap, sym, ◌∙◌, subst, true, false, not, if◌then◌else◌, Option, none, some, List, All,
  length, ◌==◌, lookup-insert, Bool-cases, Option-cases, inl, inr, arith, ==_iff,
}
use avax_build_games.Engine.Types.{ok, Result-cases}
use avax_build_games.Engine.Tournament.{Tournament}
use avax_build_games.Engine.Ranking.{winners}
use avax_build_games.Web.Text.{Text}
use avax_build_games.Web.Http.{
  Response, json_error, crashed, accepted, RouteRequest, body_too_large,
}
use avax_build_games.Web.Store.{
  Db, BracketState, TournamentRecord, JobPayload, get_bracket, upsert_bracket, enqueue_job,
}
use avax_build_games.Web.Store.Ledger.{Call, perform_all}
use avax_build_games.Web.Store.Ledger.Kept.{saves_bracket_of, perform_all-get_bracket}
use avax_build_games.Web.Accepted.{OnAccepted, refused, granted, on_accepted}
use avax_build_games.Web.Auth.{require_organizer}
use avax_build_games.Web.Replay.{reconstruct}
use avax_build_games.Web.Finalize.{
  computed_winners_of, closed_bracket, finalize_winners, finalize_complete, finalize_bracket,
  finalize_tid, finalize,
}

-- What a finalization has found and done.
pub record Finalized (authorization : Option Text) (tid : ℕ) (db : Db) (job : ℕ) (db' : Db)
    : Type 0 where
  pub rec : TournamentRecord
  pub authorized : require_organizer authorization tid db ≡ some rec
  pub bracket : BracketState
  pub stored : get_bracket tid db ≡ some bracket
  pub open_before : get_or bracket.finalized false ≡ false
  pub tournament : Tournament
  pub replayed : reconstruct bracket ≡ ok tournament
  pub complete : tournament.complete ≡ true
  pub ids : List ℕ
  pub ranked : winners tournament ≡ some ids
  pub wallets : List Text
  pub derived : wallets ≡ computed_winners_of (length rec.payout_bps) bracket.players ids
  pub all_paid : length wallets ≡ length rec.payout_bps
  pub result :
      (job, db')
      ≡ enqueue_job
          (JobPayload.finalize tid)
          (upsert_bracket tid (closed_bracket wallets bracket) db)

module _ (tid : ℕ) (rec : TournamentRecord) (b : BracketState) (t : Tournament) where
  finalize_complete_early :
      (db : Db)
      → t.complete ≡ false
      → finalize_complete tid rec b t db ≡ (json_error 400 "bracket not complete", db)
  unfolding finalize_complete
  finalize_complete_early db e = rw e refl

  finalize_complete-winners :
      (ids : Option (List ℕ)) (db : Db)
      → t.complete ≡ true
      → winners t ≡ ids
      → finalize_complete tid rec b t db
        ≡ (elim ids [ none ↦ (crashed, db) | some ws ↦ finalize_winners tid rec b ws db ])
  unfolding finalize_complete
  finalize_complete-winners ids db e w = rw w (
      ap
        (λ c.
          if not c
          then (json_error 400 "bracket not complete", db)
          else (elim ids [ none ↦ (crashed, db) | some ws ↦ finalize_winners tid rec b ws db ]))
        e)

module _ (authorization : Option Text) (tid : ℕ) (db : Db) where
  pub finalize_winners-result :
      (rec : TournamentRecord) (b : BracketState) (ids : List ℕ)
      → accepted (finalize_winners tid rec b ids db).0 ≡ true
      → let wallets = computed_winners_of (length rec.payout_bps) b.players ids in
        let done =
          enqueue_job
            (JobPayload.finalize tid)
            (upsert_bracket tid (closed_bracket wallets b) db) in
        (length wallets ≡ length rec.payout_bps)
        × (finalize_winners tid rec b ids db ≡ (Response.json done.0, done.1))
  unfolding finalize_winners
  finalize_winners-result rec b ids h =
      let wallets = computed_winners_of (length rec.payout_bps) b.players ids in
      elim (Bool-cases (length wallets == length rec.payout_bps)) [
        | inl e ↦ (ground (arith, e), rw e refl)
        | inr e ↦ cc (rw e at h)
      ]

  -- What an accepted answer comes with.
  abbrev Ends : Response ℕ × Db → Type 0
  Ends done = (job : ℕ) × (done.0 ≡ Response.json job) × Finalized authorization tid db job done.1

  abbrev Accepted : Response ℕ × Db → Type 0
  Accepted = OnAccepted Ends

  -- The last stage, with what the stages before it have found.
  finalize_winners-Accepted :
      (rec : TournamentRecord) (b : BracketState) (t : Tournament) (ids : List ℕ)
      → require_organizer authorization tid db ≡ some rec
      → get_bracket tid db ≡ some b
      → get_or b.finalized false ≡ false
      → reconstruct b ≡ ok t
      → t.complete ≡ true
      → winners t ≡ some ids
      → Accepted (finalize_winners tid rec b ids db)
  finalize_winners-Accepted rec b t ids authed stored live replayed complete ranked =
      granted Ends _ λ h.
        let wallets = computed_winners_of (length rec.payout_bps) b.players ids in
        let (all_paid, answer) = finalize_winners-result rec b ids h in
        let job =
          enqueue_job (JobPayload.finalize tid)
            (upsert_bracket tid (closed_bracket wallets b) db) in
        (
          job.0,
          ap (λ (done : Response ℕ × Db). done.0) answer,
          subst (Finalized authorization tid db job.0)
              (sym (ap (λ (done : Response ℕ × Db). done.1) answer))
              (record {
                rec = rec;
                authorized = authed;
                bracket = b;
                stored = stored;
                open_before = live;
                tournament = t;
                replayed = replayed;
                complete = complete;
                ids = ids;
                ranked = ranked;
                wallets = wallets;
                derived = refl;
                all_paid = all_paid;
                result = refl;
              }),
        )

  finalize_complete-Accepted :
      (rec : TournamentRecord) (b : BracketState) (t : Tournament)
      → require_organizer authorization tid db ≡ some rec
      → get_bracket tid db ≡ some b
      → get_or b.finalized false ≡ false
      → reconstruct b ≡ ok t
      → Accepted (finalize_complete tid rec b t db)
  finalize_complete-Accepted rec b t authed stored live replayed = elim (Bool-cases t.complete) [
    | inr e ↦ subst Accepted (sym (finalize_complete_early tid rec b t db e)) (refused Ends _ refl)
    | inl e ↦ elim (Option-cases (winners t)) [
      | inl w ↦
          subst Accepted (sym (finalize_complete-winners tid rec b t none db e w))
            (refused Ends _ refl)
      | inr (ids, w) ↦
          subst Accepted (sym (finalize_complete-winners tid rec b t (some ids) db e w))
            (finalize_winners-Accepted rec b t ids authed stored live replayed e w)
    ]
  ]

  finalize_bracket-Accepted :
      (rec : TournamentRecord) (b : BracketState)
      → require_organizer authorization tid db ≡ some rec
      → get_bracket tid db ≡ some b
      → Accepted (finalize_bracket tid rec b db)
  unfolding finalize_bracket
  finalize_bracket-Accepted rec b authed stored = elim (Bool-cases (get_or b.finalized false)) [
    | inl e ↦ rw e (refused Ends _ refl)
    | inr e ↦ elim (Result-cases (reconstruct b)) [
      | inr (x, e') ↦ rw (e, e') (refused Ends _ refl)
      | inl (t, e') ↦ rw (e, e') (finalize_complete-Accepted rec b t authed stored e e')
    ]
  ]

  finalize_tid-Accepted : Accepted (finalize_tid authorization tid db)
  unfolding finalize_tid
  finalize_tid-Accepted = elim (Option-cases (require_organizer authorization tid db)) [
    | inl e ↦ rw (e, finalize_tid) (refused Ends _ refl)
    | inr (rec, e) ↦ elim (Option-cases (get_bracket tid db)) [
      | inl e' ↦ rw (e, e', finalize_tid) (refused Ends _ refl)
      | inr (b, e') ↦ rw (e, e', finalize_tid) (finalize_bracket-Accepted rec b e e')
    ]
  ]

-- When the finalize route answers with status 200: the header is the organizer's, the bracket was not
-- finalized, its stored results replay to a complete tournament, the wallets of the first winners
-- are one for each payout, and the database changes by the bracket, which is now finalized with these
-- wallets, and by a job that names the tournament only.
pub finalize-Finalized :
    (req : RouteRequest) (tid : ℕ) (db : Db)
    → req.tid ≡ some tid
    → accepted (finalize req db).0 ≡ true
    → (job : ℕ) × ((finalize req db).0 ≡ Response.json job)
      × Finalized req.authorization tid db job (finalize req db).1
unfolding finalize
finalize-Finalized req tid db e h =
    on_accepted (Ends req.authorization tid db) (finalize req db) whole h
  where
    whole : Accepted req.authorization tid db (finalize req db)
    whole = elim (Bool-cases (body_too_large req.content_length)) [
      | inl large ↦ rw large (refused (Ends req.authorization tid db) _ refl)
      | inr small ↦ rw (small, e) (finalize_tid-Accepted req.authorization tid db)
    ]

-- A finalized bracket.
IsClosed : ℕ → Db → Type 0
IsClosed tid db =
    (b : BracketState) × (get_bracket tid db ≡ some b) × (get_or b.finalized false ≡ true)

Finalized-IsClosed :
    (authorization : Option Text) (tid : ℕ) (db : Db) (job : ℕ) (db' : Db)
    → Finalized authorization tid db job db'
    → IsClosed tid db'
unfolding IsClosed get_bracket enqueue_job upsert_bracket closed_bracket
Finalized-IsClosed authorization tid db job db' f =
    let closed = closed_bracket f.wallets f.bracket in
    subst
      (λ (d : Db).
        (b : BracketState) × (get_bracket tid d ≡ some b) × (get_or b.finalized false ≡ true))
      (sym (ap (λ (p : ℕ × Db). p.1) f.result))
      (closed, rw (lookup-insert tid tid closed db.brackets, (==_iff tid tid).1 refl) refl, refl)

finalize_tid-IsClosed :
    (authorization : Option Text) (tid : ℕ) (db : Db)
    → IsClosed tid db
    → (accepted (finalize_tid authorization tid db).0 ≡ false)
      × ((finalize_tid authorization tid db).1 ≡ db)
unfolding IsClosed finalize_tid finalize_bracket
finalize_tid-IsClosed authorization tid db c =
    elim (Option-cases (require_organizer authorization tid db)) [
      | inl e ↦ rw (e, finalize_tid) (refl, refl)
      | inr (rec, e) ↦ rw (e, c.1, c.2, finalize_tid) (refl, refl)
    ]

perform_all-IsClosed :
    (tid : ℕ) (calls : List Call) (db : Db)
    → All (λ c. saves_bracket_of tid c ≡ false) calls
    → IsClosed tid db
    → IsClosed tid (perform_all calls db)
unfolding IsClosed
perform_all-IsClosed tid calls db spares c =
    (c.0, perform_all-get_bracket tid calls db spares ∙ c.1, c.2)

-- When the finalize route has answered with status 200 for a tournament, every further request to
-- finalize it fails and changes nothing, after any calls of the store's methods
-- among which none saves the bracket of the tournament.
pub finalize_once :
    (req req' : RouteRequest) (tid : ℕ) (calls : List Call) (db : Db)
    → req.tid ≡ some tid
    → req'.tid ≡ some tid
    → All (λ c. saves_bracket_of tid c ≡ false) calls
    → accepted (finalize req db).0 ≡ true
    → let after = perform_all calls (finalize req db).1 in
      (accepted (finalize req' after).0 ≡ false) × ((finalize req' after).1 ≡ after)
unfolding finalize
finalize_once req req' tid calls db e e' spares h =
    let f = finalize-Finalized req tid db e h in
    let stored = (finalize req db).1 in
    let after = perform_all calls stored in
    let closed =
      perform_all-IsClosed tid calls stored spares
        (Finalized-IsClosed req.authorization tid db f.0 stored f.2) in
    elim (Bool-cases (body_too_large req'.content_length)) [
      | inl large ↦ rw large (refl, refl)
      | inr small ↦ rw (small, e') (finalize_tid-IsClosed req'.authorization tid after closed)
    ]
