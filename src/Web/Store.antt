-- ===== src/Web/Store.antt =====
-- store.ts of web/src/lib: the records, and the queries of `PostgresStore` on the tables that they
-- read and write. A table is the list of its rows.
pub mod Once
pub mod Ledger
pub mod Upserts
use avax_build_games.Prelude.{
  ℕ, suc, Bool, true, false, ◌&&◌, Option, none, some, List, [], ◌∷◌, ◌++◌, length, ◌==◌,
  if◌then◌else◌, any, lookup, insert, find, take, sort, map, leb,
}
use avax_build_games.Web.Decimal.{Amount}
use avax_build_games.Web.Text.{Text, ◌===◌}

pub data TournamentState : Type 0 where
  open_state finalized complete cancelled : TournamentState

pub data Mode : Type 0 where
  instant bracket : Mode

pub record TournamentRecord : Type 0 where
  pub tournament_id : ℕ
  pub sponsor : Text
  pub prize_pool_wei : Text
  pub token : Text
  pub payout_bps : List ℕ
  pub winner_wallets : List Text
  pub state : TournamentState
  pub mode : Option Mode
  pub manage_token : Option Text
  pub organizer_wallet : Option Text
  pub paypal_order_id : Option Text
  pub tx_hash : Option Text
  pub created_at : ℕ

pub record Player : Type 0 where
  pub id : ℕ
  pub wallet : Text
  pub name : Text
  pub seed : ℕ

-- `outcome` is the string of the request; its type in the source is not checked at run time.
pub record MatchResult : Type 0 where
  pub match_id : ℕ
  pub outcome : Text

pub data ReportSide : Type 0 where
  a b : ReportSide

pub record MatchReport : Type 0 where
  pub match_id : ℕ
  pub side : ReportSide
  pub wallet : Text
  pub outcome : Text

pub data BracketFormat : Type 0 where
  single_elimination round_robin swiss : BracketFormat

pub record BracketState : Type 0 where
  pub format : BracketFormat
  pub swiss_rounds : Option ℕ
  pub players : List Player
  pub results : List MatchResult
  pub finalized : Option Bool
  pub computed_winners : Option (List Text)
  pub reports : Option (List MatchReport)
  pub disputes : Option (List ℕ)

-- What a fund job is enqueued with.
pub record FundJob : Type 0 where
  pub payout_bps : List ℕ
  pub winner_wallets : List Text
  pub funded_avax : Amount
  pub mode : Mode
  pub finalize_days : ℕ
  pub format : Option BracketFormat
  pub swiss_rounds : Option ℕ
  pub players : Option (List Player)
  pub paypal_order_id : Text
  pub manage_token : Option Text

-- The kind of a job with its payload.
pub data JobPayload : Type 0 where
  finalize : ℕ → JobPayload
  fund : FundJob → JobPayload

pub data JobStatus : Type 0 where
  pending done failed : JobStatus

-- A row of relayer_jobs: what getJob returns, and the payload.
pub record RelayerJob : Type 0 where
  pub id : ℕ
  pub payload : JobPayload
  pub status : JobStatus
  pub tournament_id : Option ℕ
  pub tx_hash : Option Text
  pub error : Option Text

pub record Nonce : Type 0 where
  pub wallet : Text
  pub tid : ℕ
  pub match_id : ℕ
  pub nonce : Text

pub record FundingIntent : Type 0 where
  pub order_id : Text
  pub amount_usd : Amount
  pub job_id : Option ℕ
  pub tournament_id : Option ℕ

pub record Db : Type 0 where
  pub tournaments : List (ℕ × TournamentRecord)
  pub brackets : List (ℕ × BracketState)
  pub relayer_jobs : List RelayerJob
  pub report_nonces : List Nonce
  pub funding_intents : List FundingIntent

-- COALESCE(x, y)
abbrev pub coalesce {ℓ} : {A : Type ℓ} → Option A → Option A → Option A
coalesce none y = y
coalesce (some x) y = some x

-- The row that `ON CONFLICT (tournament_id) DO UPDATE` leaves: the other columns stay.
unfoldable pub merge_tournament : TournamentRecord → TournamentRecord → TournamentRecord
merge_tournament old new = record old {
  winner_wallets = new.winner_wallets;
  state = new.state;
  mode = new.mode;
  manage_token = coalesce new.manage_token old.manage_token;
  organizer_wallet = coalesce new.organizer_wallet old.organizer_wallet;
  tx_hash = new.tx_hash;
}

unfoldable pub save_tournament : TournamentRecord → Db → Db
unfolding merge_tournament
save_tournament new db = elim (lookup new.tournament_id db.tournaments) [
  | none ↦ record db { tournaments = insert new.tournament_id new db.tournaments }
  | some old ↦ record db {
    tournaments = insert new.tournament_id (merge_tournament old new) db.tournaments;
  }
]

unfoldable pub get_tournament : ℕ → Db → Option TournamentRecord
get_tournament tid db = lookup tid db.tournaments

-- SELECT * FROM tournaments ORDER BY tournament_id DESC LIMIT limit
unfoldable pub list_tournaments : ℕ → Db → List TournamentRecord
list_tournaments limit db =
    take limit
      (sort (λ x y. leb y.tournament_id x.tournament_id) (map (λ row. row.1) db.tournaments))

-- The row that the query of saveBracket leaves when its foreign key holds. The routes store a bracket
-- only for a tournament that is stored, or whose bracket is.
unfoldable pub upsert_bracket : ℕ → BracketState → Db → Db
upsert_bracket tid state db = record db { brackets = insert tid state db.brackets }

-- saveBracket: brackets.tournament_id references tournaments, so that the query throws for an id
-- without a tournament.
unfoldable pub save_bracket : ℕ → BracketState → Db → Option Db
unfolding upsert_bracket
save_bracket tid state db = elim (get_tournament tid db) [
  | none ↦ none
  | some rec ↦ some (upsert_bracket tid state db)
]

unfoldable pub get_bracket : ℕ → Db → Option BracketState
get_bracket tid db = lookup tid db.brackets

-- Ids come from a sequence; rows are never deleted, so the next one is the count plus one.
unfoldable pub enqueue_job : JobPayload → Db → ℕ × Db
enqueue_job payload db =
    let id = suc (length db.relayer_jobs) in
    (
      id,
      record db {
        relayer_jobs =
            db.relayer_jobs
            ++ record {
              id = id;
              payload = payload;
              status = pending;
              tournament_id = none;
              tx_hash = none;
              error = none;
            }
              ∷ [];
      },
    )

unfoldable pub get_job : ℕ → Db → Option RelayerJob
get_job id db = find (λ job. job.id == id) db.relayer_jobs

unfoldable pub same_nonce : Nonce → Nonce → Bool
same_nonce x y =
    x.wallet === y.wallet && x.tid == y.tid && x.match_id == y.match_id && x.nonce === y.nonce

-- True if the row is new.
unfoldable pub use_nonce : Nonce → Db → Bool × Db
unfolding same_nonce
use_nonce n db =
    if any (same_nonce n) db.report_nonces
    then (false, db)
    else (true, record db { report_nonces = n ∷ db.report_nonces })

abbrev pub find_intent : Text → List FundingIntent → Option FundingIntent
find_intent order_id [] = none
find_intent order_id (i ∷ is) = if i.order_id === order_id then some i else find_intent order_id is

-- What claimFundingIntent returns.
pub record Claim : Type 0 where
  pub first : Bool
  pub job_id : Option ℕ
  pub tournament_id : Option ℕ

unfoldable pub claim_funding_intent : Text → Amount → Db → Claim × Db
claim_funding_intent order_id amount_usd db = elim (find_intent order_id db.funding_intents) [
  | none ↦ (
    record { first = true; job_id = none; tournament_id = none },
    record db {
      funding_intents =
          record {
            order_id = order_id;
            amount_usd = amount_usd;
            job_id = none;
            tournament_id = none;
          }
          ∷ db.funding_intents;
    },
  )
  | some i ↦ (record { first = false; job_id = i.job_id; tournament_id = i.tournament_id }, db)
]

abbrev pub update_intent : Text → ℕ → Option ℕ → List FundingIntent → List FundingIntent
update_intent order_id job tournament [] = []
update_intent order_id job tournament (i ∷ is) =
    if i.order_id === order_id
    then record i { job_id = some job; tournament_id = tournament } ∷ is
    else i ∷ update_intent order_id job tournament is

unfoldable pub update_funding_intent : Text → ℕ → Option ℕ → Db → Db
update_funding_intent order_id job tournament db = record db {
  funding_intents = update_intent order_id job tournament db.funding_intents;
}
