-- ===== src/Web/Store/Ledger/Refines.antt =====
-- The tables of store.ts implement the maps, the set and the counter that they are specified by.
use avax_build_games.Prelude.{
  ℕ, suc, ◌≤◌, ◌≡◌, refl, ◌∙◌, sym, subst, lookup, insert, take, Option-cases, ap, ap₂, false, not,
  ◌||◌, Option, none, some, List, [], ◌∷◌, any, length, ◌==◌, if◌then◌else◌, arith, Bool-cases, inl,
  inr, length-append,
}
use avax_build_games.Web.Decimal.{Amount}
use avax_build_games.Web.Text.{Text}
use avax_build_games.Web.Store.{
  Db, TournamentRecord, BracketState, JobPayload, Nonce, same_nonce, find_intent, get_tournament,
  save_tournament, list_tournaments, get_bracket, get_job, save_bracket, upsert_bracket,
  merge_tournament, enqueue_job, update_funding_intent, coalesce,
}
use avax_build_games.Web.Store.Upserts.{
  saved_row, get_tournament-save_tournament, get_bracket-upsert_bracket,
}
use avax_build_games.Web.Store.Ledger.{
  Ledger, Call, save_tournament_call, get_tournament_call, save_bracket_call, get_bracket_call,
  enqueue_job_call, get_job_call, use_nonce_call, claim_call, update_call, tournament_row,
  tournament_rows, list_tournaments_call, place, bracket_row, recorded, with_bracket, job_id,
  job_row, is_new, claimed, perform, specified, new_job, claim_of, answers, specified_answers,
}
use avax_build_games.Web.Store.Ledger.Listed.{
  AreKeyed, in_order, in_order-insert, AreKeyed-insert, AreKeyed-lookup,
}
use avax_build_games.Web.Store.Ledger.Tables.{
  use_nonce-used, use_nonce-new, find_intent-update_intent, claim-intents, claim-claim_of,
  save_tournament-rows, use_nonce-rows, claim-rows, get_job-enqueue_job, coalesce-none,
}

-- The tables hold what the ledger says, and no job has an id that is still to be given.
pub record Represents (db : Db) (l : Ledger) : Type 0 where
  pub tournaments : (tid : ℕ) → get_tournament tid db ≡ l.tournaments tid
  pub keyed : AreKeyed db.tournaments
  pub listed : in_order db.tournaments ≡ l.listed
  pub brackets : (tid : ℕ) → get_bracket tid db ≡ l.brackets tid
  pub jobs : (id : ℕ) → get_job id db ≡ l.jobs id
  pub next_job : suc (length db.relayer_jobs) ≡ l.next_job
  pub no_later : (id : ℕ) → l.next_job ≤ id → l.jobs id ≡ none
  pub used : (n : Nonce) → any (same_nonce n) db.report_nonces ≡ l.used n
  pub intents : (o : Text) → find_intent o db.funding_intents ≡ l.intents o

-- A call of a method answers what is specified and leaves tables that represent the ledger after it.
record IsStep (call : Call) (db : Db) (l : Ledger) : Type 0 where
  answer : (perform call db).0 ≡ (specified call l).0
  after : Represents (perform call db).1 (specified call l).1

coalesce-last {ℓ} :
    {A : Type ℓ} (x y : Option A) → coalesce x y ≡ (elim x [ none ↦ y | some z ↦ some z ])
coalesce-last none y = refl
coalesce-last (some x) y = refl

saved_row-recorded :
    (old : Option TournamentRecord) (new : TournamentRecord) → saved_row old new ≡ recorded old new
unfolding merge_tournament
saved_row-recorded none new = refl
saved_row-recorded (some old) new =
    rw
      (
        coalesce-last new.manage_token old.manage_token,
        coalesce-last new.organizer_wallet old.organizer_wallet,
      )
      refl

merged_id :
    (old new : TournamentRecord) → (merge_tournament old new).tournament_id ≡ old.tournament_id
unfolding merge_tournament
merged_id old new = refl

saved_rows :
    (new : TournamentRecord) (db : Db) (l : Ledger)
    → Represents db l
    → AreKeyed (save_tournament new db).tournaments
      × (in_order (save_tournament new db).tournaments
          ≡ place (recorded (l.tournaments new.tournament_id) new) l.listed)
unfolding get_tournament save_tournament
saved_rows new db l h = elim (Option-cases (lookup new.tournament_id db.tournaments)) [
  | inl e ↦
      let none_ = sym (h.tournaments new.tournament_id) ∙ e in
      rw (e, save_tournament, none_)
        (
          AreKeyed-insert new db.tournaments h.keyed,
          in_order-insert new db.tournaments h.keyed ∙ ap (place new) h.listed,
        )
  | inr (old, e) ↦
      let some_ = sym (h.tournaments new.tournament_id) ∙ e in
      let merged = merge_tournament old new in
      let same =
        merged_id old new ∙ AreKeyed-lookup new.tournament_id old db.tournaments h.keyed e in
      rw (e, save_tournament, some_)
        (
          subst (λ k. AreKeyed (insert k merged db.tournaments)) same
              (AreKeyed-insert merged db.tournaments h.keyed),
          subst
                (λ k.
                  in_order (insert k merged db.tournaments)
                  ≡ place merged (in_order db.tournaments))
                same (in_order-insert merged db.tournaments h.keyed)
              ∙ ap (place merged) h.listed
              ∙ ap (λ r. place r l.listed) (saved_row-recorded (some old) new),
        )
]

save_tournament-IsStep :
    (new : TournamentRecord) (db : Db) (l : Ledger)
    → Represents db l
    → IsStep (save_tournament_call new) db l
unfolding perform specified get_bracket get_job
save_tournament-IsStep new db l h =
    let e = (save_tournament-rows new db).1 in
    record {
      answer = refl;
      after = record {
        tournaments = λ tid.
            get_tournament-save_tournament tid new db
            ∙ ap (λ r. if new.tournament_id == tid then some r else get_tournament tid db)
                (saved_row-recorded (get_tournament new.tournament_id db) new)
            ∙ rw (h.tournaments new.tournament_id, h.tournaments tid) refl;
        keyed = (saved_rows new db l h).0;
        listed = (saved_rows new db l h).1;
        brackets = λ tid. ap (λ d. get_bracket tid d) e ∙ h.brackets tid;
        jobs = λ id. ap (λ d. get_job id d) e ∙ h.jobs id;
        next_job = ap (λ d. suc (length d.relayer_jobs)) e ∙ h.next_job;
        no_later = h.no_later;
        used = λ n. ap (λ d. any (same_nonce n) d.report_nonces) e ∙ h.used n;
        intents = λ o. ap (λ d. find_intent o d.funding_intents) e ∙ h.intents o;
      };
    }

upsert_bracket-Represents :
    (tid : ℕ) (b : BracketState) (rec : TournamentRecord) (db : Db) (l : Ledger)
    → Represents db l
    → Represents (upsert_bracket tid b db) (with_bracket (some rec) tid b l).1
unfolding upsert_bracket get_tournament get_job
upsert_bracket-Represents tid b rec db l h = record {
  tournaments = h.tournaments;
  keyed = h.keyed;
  listed = h.listed;
  brackets = λ tid'. get_bracket-upsert_bracket tid tid' b db ∙ rw (h.brackets tid') refl;
  jobs = h.jobs;
  next_job = h.next_job;
  no_later = h.no_later;
  used = h.used;
  intents = h.intents;
}

save_bracket-IsStep :
    (tid : ℕ) (b : BracketState) (db : Db) (l : Ledger)
    → Represents db l
    → IsStep (save_bracket_call tid b) db l
unfolding perform specified save_bracket
save_bracket-IsStep tid b db l h = elim (Option-cases (get_tournament tid db)) [
  | inl e ↦
      let e' = sym (h.tournaments tid) ∙ e in
      record {
        answer = rw (e, e', perform, specified, save_bracket) refl;
        after = rw (e, e', perform, specified, save_bracket) h;
      }
  | inr (rec, e) ↦
      let e' = sym (h.tournaments tid) ∙ e in
      record {
        answer = rw (e, e', perform, specified, save_bracket) refl;
        after =
            rw (e, e', perform, specified, save_bracket)
              (upsert_bracket-Represents tid b rec db l h);
      }
]

use_nonce-IsStep :
    (n : Nonce) (db : Db) (l : Ledger) → Represents db l → IsStep (use_nonce_call n) db l
unfolding perform specified get_tournament get_bracket get_job
use_nonce-IsStep n db l h =
    let e = (use_nonce-rows n db).1 in
    record {
      answer = ap is_new (use_nonce-new n db ∙ ap not (h.used n));
      after = record {
        tournaments = λ tid. ap (λ d. get_tournament tid d) e ∙ h.tournaments tid;
        keyed = subst (λ d. AreKeyed d.tournaments) (sym e) h.keyed;
        listed = ap (λ d. in_order d.tournaments) e ∙ h.listed;
        brackets = λ tid. ap (λ d. get_bracket tid d) e ∙ h.brackets tid;
        jobs = λ id. ap (λ d. get_job id d) e ∙ h.jobs id;
        next_job = ap (λ d. suc (length d.relayer_jobs)) e ∙ h.next_job;
        no_later = h.no_later;
        used = λ m. use_nonce-used m n db ∙ ap (λ t. same_nonce m n || t) (h.used m);
        intents = λ o. ap (λ d. find_intent o d.funding_intents) e ∙ h.intents o;
      };
    }

claim-IsStep :
    (order_id : Text) (amount : Amount) (db : Db) (l : Ledger)
    → Represents db l
    → IsStep (claim_call order_id amount) db l
unfolding perform specified get_tournament get_bracket get_job
claim-IsStep order_id amount db l h =
    let e = (claim-rows order_id amount db).1 in
    record {
      answer = ap claimed (claim-claim_of order_id amount db ∙ ap claim_of (h.intents order_id));
      after = record {
        tournaments = λ tid. ap (λ d. get_tournament tid d) e ∙ h.tournaments tid;
        keyed = subst (λ d. AreKeyed d.tournaments) (sym e) h.keyed;
        listed = ap (λ d. in_order d.tournaments) e ∙ h.listed;
        brackets = λ tid. ap (λ d. get_bracket tid d) e ∙ h.brackets tid;
        jobs = λ id. ap (λ d. get_job id d) e ∙ h.jobs id;
        next_job = ap (λ d. suc (length d.relayer_jobs)) e ∙ h.next_job;
        no_later = h.no_later;
        used = λ n. ap (λ d. any (same_nonce n) d.report_nonces) e ∙ h.used n;
        intents =
            λ o. claim-intents order_id o amount db ∙ rw (h.intents order_id, h.intents o) refl;
      };
    }

update-IsStep :
    (order_id : Text) (job : ℕ) (tournament : Option ℕ) (db : Db) (l : Ledger)
    → Represents db l
    → IsStep (update_call order_id job tournament) db l
unfolding perform specified update_funding_intent get_tournament get_bracket get_job
update-IsStep order_id job tournament db l h = record {
  answer = refl;
  after = record {
    tournaments = h.tournaments;
    keyed = h.keyed;
    listed = h.listed;
    brackets = h.brackets;
    jobs = h.jobs;
    next_job = h.next_job;
    no_later = h.no_later;
    used = h.used;
    intents = λ o.
        find_intent-update_intent order_id o job tournament db.funding_intents
        ∙ rw (h.intents order_id, h.intents o) refl;
  };
}

job_after :
    (payload : JobPayload) (l : Ledger) (id : ℕ)
    → ((later : ℕ) → l.next_job ≤ later → l.jobs later ≡ none)
    → coalesce (l.jobs id) (if l.next_job == id then some (new_job l.next_job payload) else none)
      ≡ (if l.next_job == id then some (new_job l.next_job payload) else l.jobs id)
job_after payload l id h = elim (Bool-cases (l.next_job == id)) [
  | inl e ↦ rw (e, h id (ground (arith, e))) refl
  | inr e ↦ rw e (coalesce-none (l.jobs id))
]

enqueue_job-IsStep :
    (payload : JobPayload) (db : Db) (l : Ledger)
    → Represents db l
    → IsStep (enqueue_job_call payload) db l
unfolding perform specified enqueue_job get_tournament get_bracket get_job
enqueue_job-IsStep payload db l h = record {
  answer = ap job_id h.next_job;
  after = record {
    tournaments = h.tournaments;
    keyed = h.keyed;
    listed = h.listed;
    brackets = h.brackets;
    jobs = λ id.
        get_job-enqueue_job id payload db
        ∙ rw (h.jobs id, h.next_job) (job_after payload l id h.no_later);
    next_job =
        ap suc (length-append db.relayer_jobs (new_job (suc (length db.relayer_jobs)) payload ∷ []))
        ∙ omega (arith, h.next_job);
    no_later = λ id later.
        let other : (l.next_job == id) ≡ false = ground (arith, later) in
        let rest = h.no_later id (omega arith) in rw (other, rest) refl;
    used = h.used;
    intents = h.intents;
  };
}

list_tournaments-listed :
    (limit : ℕ) (db : Db) (l : Ledger)
    → Represents db l
    → tournament_rows (list_tournaments limit db) ≡ tournament_rows (take limit l.listed)
unfolding list_tournaments
list_tournaments-listed limit db l h =
    ap (λ (rows : List TournamentRecord). tournament_rows (take limit rows)) h.listed

perform-IsStep : (call : Call) (db : Db) (l : Ledger) → Represents db l → IsStep call db l
unfolding perform specified
perform-IsStep (save_tournament_call new) db l h = save_tournament-IsStep new db l h
perform-IsStep (get_tournament_call tid) db l h = record {
  answer = ap tournament_row (h.tournaments tid);
  after = h;
}
perform-IsStep (list_tournaments_call limit) db l h = record {
  answer = list_tournaments-listed limit db l h;
  after = h;
}
perform-IsStep (save_bracket_call tid b) db l h = save_bracket-IsStep tid b db l h
perform-IsStep (get_bracket_call tid) db l h = record {
  answer = ap bracket_row (h.brackets tid);
  after = h;
}
perform-IsStep (enqueue_job_call payload) db l h = enqueue_job-IsStep payload db l h
perform-IsStep (get_job_call id) db l h = record { answer = ap job_row (h.jobs id); after = h }
perform-IsStep (use_nonce_call n) db l h = use_nonce-IsStep n db l h
perform-IsStep (claim_call order_id amount) db l h = claim-IsStep order_id amount db l h
perform-IsStep (update_call order_id job tournament) db l h =
    update-IsStep order_id job tournament db l h

-- From tables that represent a ledger, every sequence of calls of the store's methods gets the
-- answers that the ledger gives: the maps, the set and the counter, the tournaments by descending id,
-- and a violation where a bracket is saved for a tournament that is not there.
pub answers-specified_answers :
    (calls : List Call) (db : Db) (l : Ledger)
    → Represents db l
    → answers calls db ≡ specified_answers calls l
answers-specified_answers [] db l h = refl
answers-specified_answers (c ∷ cs) db l h =
    let step = perform-IsStep c db l h in
    ap₂ ◌∷◌ step.answer (answers-specified_answers cs (perform c db).1 (specified c l).1 step.after)
