-- ===== src/Web/Payments/Jobs.antt =====
-- The fund jobs of an order, and what the store's calls of the payment routes do to their number.
use avax_build_games.Prelude.{
  ℕ, ◌+◌, ◌≤◌, ◌≡◌, refl, subst, true, false, Option, none, some, List, [], ◌∷◌, ◌++◌,
  if◌then◌else◌, Bool-cases, inl, inr, arith, is_some,
}
use avax_build_games.Web.Text.{Text, ◌===◌, ===→eq}
use avax_build_games.Web.Decimal.{Amount}
use avax_build_games.Web.Store.{
  Db, FundJob, JobPayload, finalize, fund, RelayerJob, FundingIntent, find_intent,
  claim_funding_intent, enqueue_job, update_intent, update_funding_intent,
}

-- Whether a job funds the order.
funds : Text → JobPayload → ℕ
funds order (finalize tid) = 0
funds order (fund job) = if job.paypal_order_id === order then 1 else 0

-- How many jobs fund the order.
unfoldable pub funded_times : Text → List RelayerJob → ℕ
unfolding funds
funded_times order [] = 0
funded_times order (job ∷ jobs) = funds order job.payload + funded_times order jobs

abbrev pub claims : Text → List FundingIntent → ℕ
claims order is = if is_some (find_intent order is) then 1 else 0

-- No order is funded more often than it is claimed, which is once at most.
pub record IsFundedOnce (db : Db) : Type 0 where
  pub bound : (order : Text) → funded_times order db.relayer_jobs ≤ claims order db.funding_intents

funded_times-append :
    (order : Text) (jobs more : List RelayerJob)
    → funded_times order (jobs ++ more) ≡ funded_times order jobs + funded_times order more
unfolding funded_times
funded_times-append order [] more = omega arith
funded_times-append order (job ∷ jobs) more = omega (arith, funded_times-append order jobs more)

claims-update :
    (order o : Text) (job : ℕ) (t : Option ℕ) (is : List FundingIntent)
    → claims order (update_intent o job t is) ≡ claims order is
claims-update order o job t [] = refl
claims-update order o job t (i ∷ is) = elim (Bool-cases (i.order_id === o)) [
  | inl e ↦ elim (Bool-cases (i.order_id === order)) [
    | inl e' ↦ rw (e, e') refl
    | inr e' ↦ rw (e, e') refl
  ]
  | inr e ↦ elim (Bool-cases (i.order_id === order)) [
    | inl e' ↦ rw (e, e') refl
    | inr e' ↦ rw (e, e') (claims-update order o job t is)
  ]
]

-- The claim of an order that is new, and the job for it.
unfoldable pub claim_and_fund : Text → Amount → FundJob → Db → Db
claim_and_fund order amount job db =
    (enqueue_job (fund job) (claim_funding_intent order amount db).1).1

pub claim_and_fund-IsFundedOnce :
    (order : Text) (amount : Amount) (job : FundJob) (db : Db)
    → job.paypal_order_id ≡ order
    → find_intent order db.funding_intents ≡ none
    → IsFundedOnce db
    → IsFundedOnce (claim_and_fund order amount job db)
unfolding claim_and_fund claim_funding_intent enqueue_job funded_times funds
claim_and_fund-IsFundedOnce order amount job db same new h = record {
  bound = λ o.
      let old = h.bound o in
      let more = funded_times-append o db.relayer_jobs in
      rw (new, claim_and_fund, claim_funding_intent)
        (elim (Bool-cases (order === o)) [
          | inl e ↦
              let none_o =
                subst (λ t. find_intent t db.funding_intents ≡ none) (===→eq order o e) new in
              let old' = rw none_o at old in rw (more _, same, e) (omega (arith, old'))
          | inr e ↦ rw (more _, same, e) (omega (arith, old))
        ]);
}

pub update_funding_intent-IsFundedOnce :
    (order : Text) (job : ℕ) (t : Option ℕ) (db : Db)
    → IsFundedOnce db
    → IsFundedOnce (update_funding_intent order job t db)
unfolding update_funding_intent
update_funding_intent-IsFundedOnce order job t db h = record {
  bound = λ o. rw (claims-update o order job t db.funding_intents) (h.bound o);
}

pub claim-first :
    (order : Text) (amount : Amount) (db : Db)
    → find_intent order db.funding_intents ≡ none
    → (claim_funding_intent order amount db).0.first ≡ true
unfolding claim_funding_intent
claim-first order amount db e = rw (e, claim_funding_intent) refl

pub claim-again :
    (order : Text) (amount : Amount) (db : Db) {i : FundingIntent}
    → find_intent order db.funding_intents ≡ some i
    → ((claim_funding_intent order amount db).0.first ≡ false)
      × ((claim_funding_intent order amount db).1 ≡ db)
unfolding claim_funding_intent
claim-again order amount db e = rw (e, claim_funding_intent) (refl, refl)
