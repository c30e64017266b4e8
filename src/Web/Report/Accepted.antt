-- ===== src/Web/Report/Accepted.antt =====
-- What an accepted report comes with, and what it changes.
use mathlib.Core.Option.{get_or}
use avax_build_games.Prelude.{
  ℕ, ◌≡◌, refl, ap, inl, inr, true, false, Option, some, List, [], ◌==◌, find, is_some, contains,
  Bool-cases, Option-cases,
}
use avax_build_games.Engine.Types.{BracketMatch, ok, Result-cases}
use avax_build_games.Engine.Tournament.{Tournament, matches}
use avax_build_games.Web.Text.{Text, ◌===◌, lower}
use avax_build_games.Web.Http.{Response, accepted, expired, body_too_large}
use avax_build_games.Web.Store.{
  Db, BracketState, Player, MatchReport, ReportSide, MatchResult, use_nonce, get_bracket,
  upsert_bracket,
}
use avax_build_games.Web.Accepted.{OnAccepted, refused, granted, on_accepted}
use avax_build_games.Web.Replay.{reconstruct}
use avax_build_games.Web.Report.{
  ReportRequest, Report, ReportStatus, disputed, read_report, report_message, side_of, submit,
  report_match, report_player, report_bracket, nonce_of, report_fresh, report_read, report,
}
use avax_build_games.Web.Report.Settling.{Settles, with_report, Submitted, submit-Submitted}

-- What a report has found and done.
pub record Reported (now : ℕ) (recover : Text → Text → Option Text) (tid : ℕ) (r : Report) (db : Db)
    (status : ReportStatus) (db' : Db) : Type 0 where
  pub in_time : expired 60 now r.ts ≡ false
  pub signer : Text
  pub signed : recover (report_message tid r) r.sig ≡ some signer
  pub is_wallet : (lower signer === lower r.wallet) ≡ true
  pub unused : (use_nonce (nonce_of tid r) db).0 ≡ true
  pub bracket : BracketState
  pub stored : get_bracket tid (use_nonce (nonce_of tid r) db).1 ≡ some bracket
  pub open_before : get_or bracket.finalized false ≡ false
  pub player : Player
  pub is_player :
      find (λ (p : Player). lower p.wallet === lower r.wallet) bracket.players ≡ some player
  pub tournament : Tournament
  pub replayed : reconstruct bracket ≡ ok tournament
  pub played : BracketMatch
  pub found : find (λ (m : BracketMatch). m.id == r.match_id) (matches tournament) ≡ some played
  pub undecided : is_some played.outcome ≡ false
  pub side : ReportSide
  pub in_match : side_of played player.id ≡ some side
  pub results : List MatchResult
  pub reports : Option (List MatchReport)
  pub disputes : Option (List ℕ)
  pub settles : Settles r side bracket results status
  pub noted : reports ≡ some (with_report r side bracket)
  pub contested : status ≡ disputed → contains r.match_id (get_or disputes []) ≡ true
  pub saved :
      db'
      ≡ upsert_bracket tid
          (record bracket { results = results; reports = reports; disputes = disputes })
          (use_nonce (nonce_of tid r) db).1

module _ (now : ℕ) (recover : Text → Text → Option Text) (tid : ℕ) (r : Report) (db : Db) where
  used_db : Db
  used_db = (use_nonce (nonce_of tid r) db).1

  -- What the later stages of the route find.
  record ReportedMatch (b : BracketState) (p : Player) (t : Tournament)
      (done : Response ReportStatus × Db) : Type 0 where
    played : BracketMatch
    found : find (λ (m : BracketMatch). m.id == r.match_id) (matches t) ≡ some played
    undecided : is_some played.outcome ≡ false
    side : ReportSide
    in_match : side_of played p.id ≡ some side
    submitted : Submitted tid r side b used_db
    result : done ≡ (
      Response.json submitted.status,
      upsert_bracket tid
          (record b {
            results = submitted.results;
            reports = submitted.reports;
            disputes = submitted.disputes;
          })
          used_db,
    )

  report_match-ReportedMatch :
      (b : BracketState) (p : Player) (t : Tournament)
      → OnAccepted (ReportedMatch b p t) (report_match tid r p b t used_db)
  unfolding report_match
  report_match-ReportedMatch b p t =
      elim (Option-cases (find (λ (m : BracketMatch). m.id == r.match_id) (matches t))) [
        | inl e ↦ rw (e, report_match) (refused (ReportedMatch b p t) _ refl)
        | inr (m, e) ↦ elim (Bool-cases (is_some m.outcome)) [
          | inl decided ↦ rw (e, decided, report_match) (refused (ReportedMatch b p t) _ refl)
          | inr undecided ↦ elim (Option-cases (side_of m p.id)) [
            | inl e' ↦ rw (e, undecided, e', report_match) (refused (ReportedMatch b p t) _ refl)
            | inr (side, e') ↦
                let s = submit-Submitted tid r side b used_db in
                rw (e, undecided, e', report_match)
                  (granted (ReportedMatch b p t) (submit tid r side b used_db) λ h. record {
                    played = m;
                    found = e;
                    undecided = undecided;
                    side = side;
                    in_match = e';
                    submitted = s;
                    result = s.result;
                  })
          ]
        ]
      ]

  record OfBracket (b : BracketState) (done : Response ReportStatus × Db) : Type 0 where
    player : Player
    is_player : find (λ (p : Player). lower p.wallet === lower r.wallet) b.players ≡ some player
    tournament : Tournament
    replayed : reconstruct b ≡ ok tournament
    rest : ReportedMatch b player tournament done

  report_player-OfBracket :
      (b : BracketState) → OnAccepted (OfBracket b) (report_player tid r b used_db)
  unfolding report_player
  report_player-OfBracket b =
      elim (Option-cases (find (λ (p : Player). lower p.wallet === lower r.wallet) b.players)) [
        | inl e ↦ rw (e, report_player) (refused (OfBracket b) _ refl)
        | inr (p, e) ↦ elim (Result-cases (reconstruct b)) [
          | inr (x, e') ↦ rw (e, e', report_player) (refused (OfBracket b) _ refl)
          | inl (t, e') ↦
              rw (e, e', report_player)
                (granted (OfBracket b) (report_match tid r p b t used_db) λ h. record {
                  player = p;
                  is_player = e;
                  tournament = t;
                  replayed = e';
                  rest =
                      on_accepted (ReportedMatch b p t) (report_match tid r p b t used_db)
                        (report_match-ReportedMatch b p t) h;
                })
        ]
      ]

  -- An accepted answer, and what it comes with.
  Confirms : Response ReportStatus × Db → Type 0
  Confirms done =
      (status : ReportStatus) × (done.0 ≡ Response.json status)
      × Reported now recover tid r db status done.1

  -- The tests before the bracket is read.
  record IsSigned : Type 0 where
    in_time : expired 60 now r.ts ≡ false
    signer : Text
    signed : recover (report_message tid r) r.sig ≡ some signer
    is_wallet : (lower signer === lower r.wallet) ≡ true
    unused : (use_nonce (nonce_of tid r) db).0 ≡ true

  OfBracket-Confirms :
      (b : BracketState) (done : Response ReportStatus × Db)
      → IsSigned
      → get_bracket tid used_db ≡ some b
      → get_or b.finalized false ≡ false
      → OfBracket b done
      → Confirms done
  unfolding Confirms used_db
  OfBracket-Confirms b done signed stored live of =
      let s = of.rest.submitted in
      (
        s.status,
        ap (λ (x : Response ReportStatus × Db). x.0) of.rest.result,
        record {
          in_time = signed.in_time;
          signer = signed.signer;
          signed = signed.signed;
          is_wallet = signed.is_wallet;
          unused = signed.unused;
          bracket = b;
          stored = stored;
          open_before = live;
          player = of.player;
          is_player = of.is_player;
          tournament = of.tournament;
          replayed = of.replayed;
          played = of.rest.played;
          found = of.rest.found;
          undecided = of.rest.undecided;
          side = of.rest.side;
          in_match = of.rest.in_match;
          results = s.results;
          reports = s.reports;
          disputes = s.disputes;
          settles = s.settles;
          noted = s.noted;
          contested = s.contested;
          saved = ap (λ (x : Response ReportStatus × Db). x.1) of.rest.result;
        },
      )

  report_bracket-Confirms : IsSigned → OnAccepted Confirms (report_bracket tid r used_db)
  unfolding report_bracket
  report_bracket-Confirms signed = elim (Option-cases (get_bracket tid used_db)) [
    | inl e ↦ rw (e, report_bracket) (refused Confirms _ refl)
    | inr (b, e) ↦ elim (Bool-cases (get_or b.finalized false)) [
      | inl closed ↦ rw (e, closed, report_bracket) (refused Confirms _ refl)
      | inr live ↦
          let done = report_player tid r b used_db in
          rw (e, live, report_bracket)
            (granted Confirms done λ h.
              OfBracket-Confirms b done signed e live
                (on_accepted (OfBracket b) done (report_player-OfBracket b) h))
    ]
  ]

  report_fresh-Confirms :
      (signer : Text)
      → expired 60 now r.ts ≡ false
      → recover (report_message tid r) r.sig ≡ some signer
      → (lower signer === lower r.wallet) ≡ true
      → OnAccepted Confirms (report_fresh tid r db)
  unfolding report_fresh used_db
  report_fresh-Confirms signer in_time signed is_wallet =
      elim (Bool-cases (use_nonce (nonce_of tid r) db).0) [
        | inr used ↦ rw used (refused Confirms _ refl)
        | inl unused ↦ rw unused (
            report_bracket-Confirms (record {
              in_time = in_time;
              signer = signer;
              signed = signed;
              is_wallet = is_wallet;
              unused = unused;
            }))
      ]

  report_read-Confirms : OnAccepted Confirms (report_read now recover tid r db)
  unfolding report_read
  report_read-Confirms = elim (Bool-cases (expired 60 now r.ts)) [
    | inl late ↦ rw (late, report_read) (refused Confirms _ refl)
    | inr in_time ↦ elim (Option-cases (recover (report_message tid r) r.sig)) [
      | inl e ↦ rw (in_time, e, report_read) (refused Confirms _ refl)
      | inr (signer, e) ↦ elim (Bool-cases (lower signer === lower r.wallet)) [
        | inr other ↦ rw (in_time, e, other, report_read) (refused Confirms _ refl)
        | inl same ↦
            rw (in_time, e, same, report_read) (report_fresh-Confirms signer in_time e same)
      ]
    ]
  ]

-- When the report route answers with status 200: the signature is of the time window and by the
-- wallet, its nonce was not used, the stored bracket is not finalized, its results replay, and the
-- wallet's player is on a side of the match, which is not decided. Then only the bracket and the nonce
-- are stored, with the format, the players and the flag kept: the report takes the place of an earlier
-- one of the side, the results either stay, or grow by the reported result, which happens only when the
-- stored report of the other side has the same outcome, and a disputed match is among the disputes.
pub report-Reported :
    (now : ℕ) (recover : Text → Text → Option Text) (req : ReportRequest) (tid : ℕ) (r : Report)
    (db : Db)
    → req.tid ≡ some tid
    → read_report req.body ≡ some r
    → accepted (report now recover req db).0 ≡ true
    → (status : ReportStatus) × ((report now recover req db).0 ≡ Response.json status)
      × Reported now recover tid r db status (report now recover req db).1
unfolding report Confirms
report-Reported now recover req tid r db e e' h =
    on_accepted (Confirms now recover tid r db) (report now recover req db) whole h
  where
    whole : OnAccepted (Confirms now recover tid r db) (report now recover req db)
    whole = elim (Bool-cases (body_too_large req.content_length)) [
      | inl large ↦ rw large (refused (Confirms now recover tid r db) _ refl)
      | inr small ↦ rw (small, e, e') (report_read-Confirms now recover tid r db)
    ]
