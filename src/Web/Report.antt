-- ===== src/Web/Report.antt =====
-- POST of web/src/app/api/tournament/[id]/report/route.ts: a player reports a result. The fields of
-- the body have the types that the route declares, or are missing. `recover` is
-- ethers.verifyMessage, and `none` that it throws.
pub mod Accepted
pub mod Nonces
pub mod Settling
use Prim.Native.String.{String}
use mathlib.Core.Option.{get_or}
use avax_build_games.Prelude.{
  ℕ, ◌+◌, Bool, true, false, not, ◌&&◌, ◌||◌, Option, none, some, List, [], ◌∷◌, ◌++◌, ltb, ◌==◌,
  if◌then◌else◌, is_some, find, filter, contains,
}
use avax_build_games.Engine.Types.{BracketMatch, Entrant, TournamentError, Result, ok, err}
use avax_build_games.Engine.Tournament.{Tournament, matches}
use avax_build_games.Web.Text.{Text, codes, ◌===◌, is_empty_text, lower, show}
use avax_build_games.Web.Store.{
  Db, BracketState, Player, MatchReport, ReportSide, MatchResult, Nonce, use_nonce, get_bracket,
  upsert_bracket,
}
use avax_build_games.Web.Http.{
  Response, json_error, json, threw, ◌>>=◌, truthy_text, truthy_number, expired, body_too_large,
}
use avax_build_games.Web.Replay.{reconstruct}

pub record ReportBody : Type 0 where
  pub wallet : Option Text
  pub match_id : Option ℕ
  pub outcome : Option Text
  pub nonce : Option Text
  pub ts : Option ℕ
  pub sig : Option Text

-- `tid` is Number(id), and `none` if that is not finite.
pub record ReportRequest : Type 0 where
  pub content_length : ℕ
  pub tid : Option ℕ
  pub body : ReportBody

-- A body with all its fields.
pub record Report : Type 0 where
  pub wallet : Text
  pub match_id : ℕ
  pub outcome : Text
  pub nonce : Text
  pub ts : ℕ
  pub sig : Text

pub data ReportStatus : Type 0 where
  waiting confirmed disputed : ReportStatus

unfoldable pub read_report : ReportBody → Option Report
read_report body = do
  w ← truthy_text body.wallet
  m ← body.match_id
  o ← truthy_text body.outcome
  n ← truthy_text body.nonce
  t ← truthy_number body.ts
  s ← truthy_text body.sig
  some (record { wallet = w; match_id = m; outcome = o; nonce = n; ts = t; sig = s })

unfoldable pub report_message : ℕ → Report → Text
report_message tid r =
    codes "AMP-report:"
    ++ show tid
    ++ codes ":"
    ++ show r.match_id
    ++ codes ":"
    ++ r.outcome
    ++ codes ":"
    ++ r.nonce
    ++ codes ":"
    ++ show r.ts

has_id : ℕ → Option Entrant → Bool
has_id id none = false
has_id id (some e) = e.id == id

unfoldable pub side_of : BracketMatch → ℕ → Option ReportSide
unfolding has_id
side_of m id =
    if has_id id m.a then some ReportSide.a else if has_id id m.b then some ReportSide.b else none

same_side : ReportSide → ReportSide → Bool
same_side ReportSide.a ReportSide.a = true
same_side ReportSide.a ReportSide.b = false
same_side ReportSide.b ReportSide.a = false
same_side ReportSide.b ReportSide.b = true

pub other_side : ReportSide → ReportSide
other_side ReportSide.a = ReportSide.b
other_side ReportSide.b = ReportSide.a

pub is_report_of : ℕ → ReportSide → MatchReport → Bool
unfolding same_side
is_report_of match_id side r = r.match_id == match_id && same_side r.side side

-- `if (other) {...}`: the results, the disputes and the status.
settle :
    Report → Option MatchReport → BracketState → List ℕ → List MatchResult × List ℕ × ReportStatus
settle r none b disputes = (b.results, disputes, waiting)
settle r (some other) b disputes =
    if other.outcome === r.outcome
    then (
      b.results ++ record { match_id = r.match_id; outcome = r.outcome } ∷ [],
      disputes,
      confirmed,
    )
    else if contains r.match_id disputes
    then (b.results, disputes, disputed)
    else (b.results, disputes ++ r.match_id ∷ [], disputed)

unfoldable pub submit : ℕ → Report → ReportSide → BracketState → Db → Response ReportStatus × Db
unfolding is_report_of other_side settle upsert_bracket
submit tid r side b db =
    let kept = filter (λ x. not (is_report_of r.match_id side x)) (get_or b.reports []) in
    let reports =
      kept
      ++ record { match_id = r.match_id; side = side; wallet = r.wallet; outcome = r.outcome }
        ∷ [] in
    let other = find (is_report_of r.match_id (other_side side)) reports in
    let settled = settle r other b (get_or b.disputes []) in
    (
      json settled.2,
      upsert_bracket tid
          (record b { results = settled.0; reports = some reports; disputes = some settled.1 }) db,
    )

-- From the reconstruction on.
unfoldable pub report_match :
    ℕ → Report → Player → BracketState → Tournament → Db → Response ReportStatus × Db
unfolding side_of submit matches
report_match tid r p b t db = elim (find (λ m. m.id == r.match_id) (matches t)) [
  | none ↦ (json_error 404 "match not found", db)
  | some m ↦
      if is_some m.outcome then (json_error 400 "match decided", db) else elim (side_of m p.id) [
        | none ↦ (json_error 403 "not in this match", db)
        | some side ↦ submit tid r side b db
      ]
]

unfoldable pub report_player : ℕ → Report → BracketState → Db → Response ReportStatus × Db
unfolding lower reconstruct report_match
report_player tid r b db = elim (find (λ p. lower p.wallet === lower r.wallet) b.players) [
  | none ↦ (json_error 403 "not a player", db)
  | some p ↦ elim (reconstruct b) [ err e ↦ (threw e, db) | ok t ↦ report_match tid r p b t db ]
]

-- From the nonce on.
unfoldable pub report_bracket : ℕ → Report → Db → Response ReportStatus × Db
unfolding get_bracket report_player
report_bracket tid r db = elim (get_bracket tid db) [
  | none ↦ (json_error 404 "bracket not found", db)
  | some b ↦
      if get_or b.finalized false
      then (json_error 400 "tournament finalized", db)
      else report_player tid r b db
]

abbrev pub nonce_of : ℕ → Report → Nonce
nonce_of tid r = record {
  wallet = lower r.wallet;
  tid = tid;
  match_id = r.match_id;
  nonce = r.nonce;
}

unfoldable pub report_fresh : ℕ → Report → Db → Response ReportStatus × Db
unfolding use_nonce report_bracket
report_fresh tid r db =
    let used = use_nonce (nonce_of tid r) db in
    if used.0 then report_bracket tid r used.1 else (json_error 409 "nonce already used", used.1)

module _ (now : ℕ) (recover : Text → Text → Option Text) where
  unfoldable pub report_read : ℕ → Report → Db → Response ReportStatus × Db
  unfolding expired lower report_message report_fresh
  report_read tid r db =
      if expired 60 now r.ts
      then (json_error 400 "timestamp expired", db)
      else elim (recover (report_message tid r) r.sig) [
        | none ↦ (json_error 401 "invalid signature", db)
        | some recovered ↦
            if not (lower recovered === lower r.wallet)
            then (json_error 401 "signature does not match wallet", db)
            else report_fresh tid r db
      ]

  unfoldable pub report : ReportRequest → Db → Response ReportStatus × Db
  unfolding read_report report_read body_too_large
  report req db =
      if body_too_large req.content_length
      then (json_error 413 "payload too large", db)
      else elim req.tid [
        | none ↦ (json_error 400 "bad id", db)
        | some tid ↦ elim (read_report req.body) [
          | none ↦ (json_error 400 "wallet, matchId, outcome, nonce, ts, sig required", db)
          | some r ↦ report_read tid r db
        ]
      ]
