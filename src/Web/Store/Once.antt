-- ===== src/Web/Store/Once.antt =====
-- The rows of store.ts that are taken once: the nonces of reports and the funding intents.
use mathlib.Core.Option.{some-injective}
use avax_build_games.Prelude.{
  ℕ, ◌≡◌, refl, ap, true, false, Option, some, List, [], ◌∷◌, any, arith, Bool-cases, Option-cases,
  inl, inr,
}
use avax_build_games.Web.Decimal.{Amount}
use avax_build_games.Web.Text.{Text, ◌===◌, ===_refl}
use avax_build_games.Web.Store.{
  Db, Nonce, same_nonce, use_nonce, FundingIntent, find_intent, claim_funding_intent, update_intent,
  update_funding_intent,
}

-- A sequence of calls of useNonce.
abbrev pub use_nonces : List Nonce → Db → Db
use_nonces [] db = db
use_nonces (n ∷ ns) db = use_nonces ns (use_nonce n db).1

same_nonce_refl : (n : Nonce) → same_nonce n n ≡ true
unfolding same_nonce
same_nonce_refl n = ground (arith, ===_refl n.wallet, ===_refl n.nonce)

use_nonce-taken :
    (n m : Nonce) (db : Db)
    → any (same_nonce n) db.report_nonces ≡ true
    → any (same_nonce n) (use_nonce m db).1.report_nonces ≡ true
unfolding use_nonce
use_nonce-taken n m db h = elim (Bool-cases (any (same_nonce m) db.report_nonces)) [
  | inl e ↦ rw e h
  | inr e ↦ rw (e, h) (ground arith)
]

use_nonces-taken :
    (n : Nonce) (ns : List Nonce) (db : Db)
    → any (same_nonce n) db.report_nonces ≡ true
    → any (same_nonce n) (use_nonces ns db).report_nonces ≡ true
use_nonces-taken n [] db h = h
use_nonces-taken n (m ∷ ns) db h =
    use_nonces-taken n ns (use_nonce m db).1 (use_nonce-taken n m db h)

pub use_nonce_takes :
    (n : Nonce) (db : Db) → any (same_nonce n) (use_nonce n db).1.report_nonces ≡ true
unfolding use_nonce
use_nonce_takes n db = elim (Bool-cases (any (same_nonce n) db.report_nonces)) [
  | inl e ↦ rw e e
  | inr e ↦ rw (e, same_nonce_refl n) refl
]

-- Once useNonce has been called on a row, and whatever rows it is called on after that, it answers
-- false for the same row and leaves the database alone.
pub use_nonce_once :
    (n : Nonce) (ns : List Nonce) (db : Db)
    → let later = use_nonces ns (use_nonce n db).1 in use_nonce n later ≡ (false, later)
unfolding use_nonce
use_nonce_once n ns db = rw (use_nonces-taken n ns (use_nonce n db).1 (use_nonce_takes n db)) refl

find_intent-update :
    (order_id : Text) (job : ℕ) (tournament : Option ℕ) (i : FundingIntent)
    (is : List FundingIntent)
    → find_intent order_id is ≡ some i
    → find_intent order_id (update_intent order_id job tournament is)
      ≡ some (record i { job_id = some job; tournament_id = tournament })
find_intent-update order_id job tournament i [] h = cc
find_intent-update order_id job tournament i (j ∷ is) h =
    elim (Bool-cases (j.order_id === order_id)) [
      | inl e ↦
          rw (e, e)
            (ap
              (λ (k : FundingIntent).
                some (record k { job_id = some job; tournament_id = tournament }))
              (some-injective j i (rw e at h)))
      | inr e ↦ rw (e, e) (find_intent-update order_id job tournament i is (rw e at h))
    ]

-- An order is claimed first at most once: when a claim has been made and the job of the order has
-- been stored, every later claim of it is not the first, returns that job and tournament, and
-- changes nothing.
pub claim_funding_intent_once :
    (order_id : Text) (amount later_amount : Amount) (job : ℕ) (tournament : Option ℕ) (db : Db)
    → let claimed = (claim_funding_intent order_id amount db).1 in
      let stored = update_funding_intent order_id job tournament claimed in
      claim_funding_intent order_id later_amount stored
      ≡ (record { first = false; job_id = some job; tournament_id = tournament }, stored)
unfolding claim_funding_intent update_funding_intent
claim_funding_intent_once order_id amount later_amount job tournament db =
    elim (Option-cases (find_intent order_id db.funding_intents)) [
      | inl e ↦
          rw (e, claim_funding_intent, ===_refl order_id, ===_refl order_id, e, ===_refl order_id)
            refl
      | inr (i, e) ↦
          rw
            (
              e,
              claim_funding_intent,
              find_intent-update order_id job tournament i db.funding_intents e,
              e,
            )
            refl
    ]
