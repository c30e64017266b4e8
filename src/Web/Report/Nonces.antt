-- ===== src/Web/Report/Nonces.antt =====
-- Replay protection of the report route.
use mathlib.Core.Option.{get_or}
use avax_build_games.Prelude.{
  ℕ, ◌≡◌, refl, ◌∙◌, sym, subst, ◌==◌, Bool, true, false, Option, some, List, any, find, inl, inr,
  Bool-cases, Option-cases, is_some,
}
use avax_build_games.Engine.Types.{Result-cases}
use avax_build_games.Engine.Tournament.{Tournament, matches}
use avax_build_games.Web.Text.{Text, ◌===◌, lower}
use avax_build_games.Web.Store.{Db, BracketState, Player, use_nonce, same_nonce, get_bracket}
use avax_build_games.Web.Store.Once.{use_nonce_takes}
use avax_build_games.Web.Replay.{reconstruct}
use avax_build_games.Web.Store.Ledger.{Call, perform_all}
use avax_build_games.Web.Store.Ledger.Kept.{perform_all-used}
use avax_build_games.Web.Http.{Response, accepted, expired, body_too_large}
use avax_build_games.Web.Report.{
  Report, ReportRequest, ReportStatus, read_report, report_message, nonce_of, submit, side_of,
  report_match, report_player, report_bracket, report_fresh, report_read, report,
}

module _ (tid : ℕ) (r : Report) where
  report_match_nonces :
      (p : Player) (b : BracketState) (t : Tournament) (db : Db)
      → (report_match tid r p b t db).1.report_nonces ≡ db.report_nonces
  unfolding report_match submit
  report_match_nonces p b t db = elim (Option-cases (find (λ m. m.id == r.match_id) (matches t))) [
    | inl e ↦ rw (e, report_match) refl
    | inr (m, e) ↦ elim (Bool-cases (is_some m.outcome)) [
      | inl e' ↦ rw (e, e', report_match) refl
      | inr e' ↦ elim (Option-cases (side_of m p.id)) [
        | inl e'' ↦ rw (e, e', e'', report_match) refl
        | inr (s, e'') ↦ rw (e, e', e'', report_match) refl
      ]
    ]
  ]

  report_player_nonces :
      (b : BracketState) (db : Db) → (report_player tid r b db).1.report_nonces ≡ db.report_nonces
  unfolding report_player
  report_player_nonces b db =
      elim (Option-cases (find (λ p. lower p.wallet === lower r.wallet) b.players)) [
        | inl e ↦ rw (e, report_player) refl
        | inr (p, e) ↦ elim (Result-cases (reconstruct b)) [
          | inl (t, e') ↦ rw (e, e', report_player) (report_match_nonces p b t db)
          | inr (x, e') ↦ rw (e, e', report_player) refl
        ]
      ]

  report_bracket_nonces : (db : Db) → (report_bracket tid r db).1.report_nonces ≡ db.report_nonces
  unfolding report_bracket report_player
  report_bracket_nonces db = elim (Option-cases (get_bracket tid db)) [
    | inl e ↦ rw (e, report_bracket) refl
    | inr (b, e) ↦ elim (Bool-cases (get_or b.finalized false)) [
      | inl e' ↦ rw (e, e', report_bracket) refl
      | inr e' ↦ rw (e, e', report_bracket) (report_player_nonces b db)
    ]
  ]

  taken : Db → Bool
  taken db = any (same_nonce (nonce_of tid r)) db.report_nonces

  report_fresh-taken : (db : Db) → taken (report_fresh tid r db).1 ≡ true
  unfolding taken report_fresh
  report_fresh-taken db =
      let n = nonce_of tid r in
      let h = use_nonce_takes n db in
      elim (Bool-cases (use_nonce n db).0) [
        | inl e ↦ rw (e, report_bracket_nonces (use_nonce n db).1) h
        | inr e ↦ rw e h
      ]

-- The request fails and changes nothing.
pub record IsRefused (result : Response ReportStatus × Db) (db : Db) : Type 0 where
  pub failed : accepted result.0 ≡ false
  pub unchanged : result.1 ≡ db

module _ (now : ℕ) (recover : Text → Text → Option Text) (tid : ℕ) (r : Report) where
  report_read-IsRefused :
      (db : Db) → taken tid r db ≡ true → IsRefused (report_read now recover tid r db) db
  unfolding taken report_read report_fresh use_nonce
  report_read-IsRefused db h = elim (Bool-cases (expired 60 now r.ts)) [
    | inl e ↦ rw e (record { failed = refl; unchanged = refl })
    | inr e ↦ elim (Option-cases (recover (report_message tid r) r.sig)) [
      | inl e' ↦ rw (e, e') (record { failed = refl; unchanged = refl })
      | inr (w, e') ↦ elim (Bool-cases (lower w === lower r.wallet)) [
        | inl e'' ↦ rw (e, e', e'', h) (record { failed = refl; unchanged = refl })
        | inr e'' ↦ rw (e, e', e'') (record { failed = refl; unchanged = refl })
      ]
    ]
  ]

  report_read-fresh :
      (db : Db)
      → accepted (report_read now recover tid r db).0 ≡ true
      → report_read now recover tid r db ≡ report_fresh tid r db
  unfolding report_read
  report_read-fresh db h = elim (Bool-cases (expired 60 now r.ts)) [
    | inl e ↦ cc (rw e at h)
    | inr e ↦ elim (Option-cases (recover (report_message tid r) r.sig)) [
      | inl e' ↦ cc (rw (e, e') at h)
      | inr (w, e') ↦ elim (Bool-cases (lower w === lower r.wallet)) [
        | inl e'' ↦ rw (e, e', e'') refl
        | inr e'' ↦ cc (rw (e, e', e'') at h)
      ]
    ]
  ]

pub report_at :
    (now : ℕ) (recover : Text → Text → Option Text) (req : ReportRequest) (db : Db) (tid : ℕ)
    (r : Report)
    → body_too_large req.content_length ≡ false
    → req.tid ≡ some tid
    → read_report req.body ≡ some r
    → report now recover req db ≡ report_read now recover tid r db
unfolding report
report_at now recover req db tid r e e' e'' = rw (e, e', e'') refl

-- When a report has been accepted, the same request is refused from then on: after any calls of the
-- store's methods, at any later time and whatever the signature check answers, it fails and leaves the database as it is.
pub report_once :
    (now later : ℕ) (recover recover' : Text → Text → Option Text) (req : ReportRequest)
    (calls : List Call) (db : Db)
    → accepted (report now recover req db).0 ≡ true
    → let after = perform_all calls (report now recover req db).1 in
      IsRefused (report later recover' req after) after
unfolding report taken
report_once now later recover recover' req calls db h =
    elim (Bool-cases (body_too_large req.content_length)) [
      | inl e ↦ cc (rw e at h)
      | inr e ↦ elim (Option-cases req.tid) [
        | inl e' ↦ cc (rw (e, e') at h)
        | inr (tid, e') ↦ elim (Option-cases (read_report req.body)) [
          | inl e'' ↦ cc (rw (e, e', e'') at h)
          | inr (r, e'') ↦
              let first =
                report_at now recover req db tid r e e' e''
                ∙ report_read-fresh now recover tid r db (rw (e, e', e'') at h) in
              let after = perform_all calls (report_fresh tid r db).1 in
              let used =
                perform_all-used (nonce_of tid r) calls (report_fresh tid r db).1
                  (report_fresh-taken tid r db) in
              subst
                (λ res.
                  IsRefused (report later recover' req (perform_all calls res.1))
                    (perform_all calls res.1))
                (sym first)
                (subst (λ res. IsRefused res after)
                  (sym (report_at later recover' req after tid r e e' e''))
                  (report_read-IsRefused later recover' tid r after used))
        ]
      ]
    ]
