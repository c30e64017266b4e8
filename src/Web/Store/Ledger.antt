-- ===== src/Web/Store/Ledger.antt =====
-- What the class `PostgresStore` of web/src/lib/store.ts promises: finite maps, a set of nonces and
-- a counter of jobs, and the calls of the class on them and on the tables.
pub mod Kept
pub mod Listed
pub mod Refines
pub mod Tables
use mathlib.Core.Option
use avax_build_games.Prelude.{
  ℕ, suc, Bool, true, false, not, ◌||◌, Option, none, some, is_some, List, [], ◌∷◌, ◌==◌, ltb, take,
  if◌then◌else◌,
}
use avax_build_games.Web.Decimal.{Amount}
use avax_build_games.Web.Text.{Text, ◌===◌}
use avax_build_games.Web.Store.{
  Db, TournamentRecord, BracketState, JobPayload, pending, RelayerJob, Nonce, same_nonce,
  FundingIntent, Claim, save_tournament, get_tournament, list_tournaments, save_bracket,
  get_bracket, enqueue_job, get_job, use_nonce, claim_funding_intent, update_funding_intent,
}

pub record Ledger : Type 0 where
  pub tournaments : ℕ → Option TournamentRecord
  -- The records of the tournaments by descending id.
  pub listed : List TournamentRecord
  pub brackets : ℕ → Option BracketState
  pub jobs : ℕ → Option RelayerJob
  pub next_job : ℕ
  pub used : Nonce → Bool
  pub intents : Text → Option FundingIntent

-- A call of a method of the class with its arguments.
pub data Call : Type 0 where
  save_tournament_call : TournamentRecord → Call
  get_tournament_call list_tournaments_call : ℕ → Call
  save_bracket_call : ℕ → BracketState → Call
  get_bracket_call : ℕ → Call
  enqueue_job_call : JobPayload → Call
  get_job_call : ℕ → Call
  use_nonce_call : Nonce → Call
  claim_call : Text → Amount → Call
  update_call : Text → ℕ → Option ℕ → Call

pub data Answer : Type 0 where
  nothing violated : Answer
  tournament_row : Option TournamentRecord → Answer
  tournament_rows : List TournamentRecord → Answer
  bracket_row : Option BracketState → Answer
  job_id : ℕ → Answer
  job_row : Option RelayerJob → Answer
  is_new : Bool → Answer
  claimed : Claim → Answer

abbrev pub saved_answer : Option Db → Db → Answer × Db
saved_answer none db = (violated, db)
saved_answer (some db') db = (nothing, db')

-- A method on the tables. What throws a violation of a key leaves them as they are.
unfoldable pub perform : Call → Db → Answer × Db
perform (save_tournament_call new) db = (nothing, save_tournament new db)
perform (get_tournament_call tid) db = (tournament_row (get_tournament tid db), db)
perform (list_tournaments_call limit) db = (tournament_rows (list_tournaments limit db), db)
perform (save_bracket_call tid b) db = saved_answer (save_bracket tid b db) db
perform (get_bracket_call tid) db = (bracket_row (get_bracket tid db), db)
perform (enqueue_job_call payload) db = let r = enqueue_job payload db in (job_id r.0, r.1)
perform (get_job_call id) db = (job_row (get_job id db), db)
perform (use_nonce_call n) db = let r = use_nonce n db in (is_new r.0, r.1)
perform (claim_call order_id amount) db =
    let r = claim_funding_intent order_id amount db in (claimed r.0, r.1)
perform (update_call order_id job tournament) db =
    (nothing, update_funding_intent order_id job tournament db)

abbrev pub new_job : ℕ → JobPayload → RelayerJob
new_job id payload = record {
  id = id;
  payload = payload;
  status = pending;
  tournament_id = none;
  tx_hash = none;
  error = none;
}

abbrev pub new_intent : Text → Amount → FundingIntent
new_intent order_id amount = record {
  order_id = order_id;
  amount_usd = amount;
  job_id = none;
  tournament_id = none;
}

abbrev pub with_job : ℕ → Option ℕ → FundingIntent → FundingIntent
with_job job tournament i = record i { job_id = some job; tournament_id = tournament }

abbrev pub claim_of : Option FundingIntent → Claim
claim_of none = record { first = true; job_id = none; tournament_id = none }
claim_of (some i) = record { first = false; job_id = i.job_id; tournament_id = i.tournament_id }

abbrev pub or_new : FundingIntent → Option FundingIntent → FundingIntent
or_new new none = new
or_new new (some old) = old

-- The record of a tournament after one has been saved: the id, the sponsor, the prize, its token, the
-- payouts, the order and the time are those that were saved_answer first, the token of the organizer and the
-- organizer's wallet the last ones, and the rest is new.
abbrev pub kept {ℓ} :
    {A : Type ℓ} → (TournamentRecord → A) → Option TournamentRecord → TournamentRecord → A
kept f none new = f new
kept f (some old) new = f old

abbrev pub last_of {ℓ} :
    {A : Type ℓ}
    → (TournamentRecord → Option A)
    → Option TournamentRecord
    → TournamentRecord
    → Option A
last_of f none new = f new
last_of f (some old) new = elim (f new) [ none ↦ f old | some x ↦ some x ]

abbrev pub recorded : Option TournamentRecord → TournamentRecord → TournamentRecord
recorded old new = record {
  tournament_id = kept (λ r. r.tournament_id) old new;
  sponsor = kept (λ r. r.sponsor) old new;
  prize_pool_wei = kept (λ r. r.prize_pool_wei) old new;
  token = kept (λ r. r.token) old new;
  payout_bps = kept (λ r. r.payout_bps) old new;
  winner_wallets = new.winner_wallets;
  state = new.state;
  mode = new.mode;
  manage_token = last_of (λ r. r.manage_token) old new;
  organizer_wallet = last_of (λ r. r.organizer_wallet) old new;
  paypal_order_id = kept (λ r. r.paypal_order_id) old new;
  tx_hash = new.tx_hash;
  created_at = kept (λ r. r.created_at) old new;
}

-- The records by descending id: a new one takes its place, or that of the one with its id.
abbrev pub place : TournamentRecord → List TournamentRecord → List TournamentRecord
place new [] = new ∷ []
place new (r ∷ rs) =
    if r.tournament_id == new.tournament_id
    then new ∷ rs
    else if ltb r.tournament_id new.tournament_id
    then new ∷ r ∷ rs
    else r ∷ place new rs

-- A bracket belongs to a tournament.
abbrev pub with_bracket : Option TournamentRecord → ℕ → BracketState → Ledger → Answer × Ledger
with_bracket none tid b l = (violated, l)
with_bracket (some rec) tid b l =
    (nothing, record l { brackets = λ tid'. if tid == tid' then some b else l.brackets tid' })

-- What the method promises.
unfoldable pub specified : Call → Ledger → Answer × Ledger
specified (save_tournament_call new) l = (
  nothing,
  record l {
    tournaments = λ tid.
        if new.tournament_id == tid
        then some (recorded (l.tournaments new.tournament_id) new)
        else l.tournaments tid;
    listed = place (recorded (l.tournaments new.tournament_id) new) l.listed;
  },
)
specified (get_tournament_call tid) l = (tournament_row (l.tournaments tid), l)
specified (list_tournaments_call limit) l = (tournament_rows (take limit l.listed), l)
specified (save_bracket_call tid b) l = with_bracket (l.tournaments tid) tid b l
specified (get_bracket_call tid) l = (bracket_row (l.brackets tid), l)
specified (enqueue_job_call payload) l = (
  job_id l.next_job,
  record l {
    next_job = suc l.next_job;
    jobs = λ id. if l.next_job == id then some (new_job l.next_job payload) else l.jobs id;
  },
)
specified (get_job_call id) l = (job_row (l.jobs id), l)
specified (use_nonce_call n) l =
    (is_new (not (l.used n)), record l { used = λ m. same_nonce m n || l.used m })
specified (claim_call order_id amount) l = (
  claimed (claim_of (l.intents order_id)),
  record l {
    intents = λ o.
        if order_id === o
        then some (or_new (new_intent order_id amount) (l.intents order_id))
        else l.intents o;
  },
)
specified (update_call order_id job tournament) l = (
  nothing,
  record l {
    intents = λ o.
        if order_id === o
        then Option.map (with_job job tournament) (l.intents order_id)
        else l.intents o;
  },
)

-- The answers of a sequence of calls.
abbrev pub answers : List Call → Db → List Answer
answers [] db = []
answers (c ∷ cs) db = let r = perform c db in r.0 ∷ answers cs r.1

abbrev pub specified_answers : List Call → Ledger → List Answer
specified_answers [] l = []
specified_answers (c ∷ cs) l = let r = specified c l in r.0 ∷ specified_answers cs r.1

-- The tables after a sequence of calls.
unfoldable pub perform_all : List Call → Db → Db
unfolding perform
perform_all [] db = db
perform_all (c ∷ cs) db = perform_all cs (perform c db).1
