-- ===== src/Web/Store/Ledger/Tables.antt =====
-- What the methods of store.ts do to the tables, in the words of the ledger that specifies them.
use mathlib.Core.Option
use avax_build_games.Prelude.{
  ℕ, suc, ◌≡◌, refl, ◌∙◌, sym, ap, Bool, true, false, not, ◌||◌, Option, none, some, List, [], ◌∷◌,
  ◌++◌, any, find, length, ◌==◌, if◌then◌else◌, arith, Bool-cases, Option-cases, inl, inr, lookup,
  insert,
}
use avax_build_games.Web.Decimal.{Amount}
use avax_build_games.Web.Text.{Text, ◌===◌, ===→eq, ===_refl}
use avax_build_games.Web.Store.{
  Db, TournamentRecord, JobPayload, RelayerJob, Nonce, same_nonce, FundingIntent, find_intent,
  update_intent, get_job, save_tournament, enqueue_job, merge_tournament, use_nonce,
  claim_funding_intent, coalesce,
}
use avax_build_games.Web.Store.Ledger.{new_job, new_intent, with_job, claim_of, or_new}

find-append {ℓ} :
    {A : Type ℓ} (p : A → Bool) (xs : List A) (y : A)
    → find p (xs ++ y ∷ []) ≡ coalesce (find p xs) (if p y then some y else none)
find-append p [] y = elim (Bool-cases (p y)) [ inl e ↦ rw e refl | inr e ↦ rw e refl ]
find-append p (x ∷ xs) y = elim (Bool-cases (p x)) [
  | inl e ↦ rw e refl
  | inr e ↦ rw e (find-append p xs y)
]

same_nonce_trans :
    (m n x : Nonce) → same_nonce m n ≡ true → same_nonce n x ≡ true → same_nonce m x ≡ true
unfolding same_nonce
same_nonce_trans m n x h k =
    let w = ===→eq m.wallet n.wallet (ground (arith, h)) in
    let c = ===→eq m.nonce n.nonce (ground (arith, h)) in rw (w, c) (ground (arith, h, k))

any-same_nonce :
    (m n : Nonce) (ns : List Nonce)
    → same_nonce m n ≡ true
    → any (same_nonce n) ns ≡ true
    → any (same_nonce m) ns ≡ true
any-same_nonce m n [] h k = k
any-same_nonce m n (x ∷ ns) h k = elim (Bool-cases (same_nonce n x)) [
  | inl e ↦ rw (same_nonce_trans m n x h e) refl
  | inr e ↦ let rest = any-same_nonce m n ns h (rw e at k) in rw rest (ground arith)
]

pub use_nonce-used :
    (m n : Nonce) (db : Db)
    → any (same_nonce m) (use_nonce n db).1.report_nonces
      ≡ (same_nonce m n || any (same_nonce m) db.report_nonces)
unfolding use_nonce
use_nonce-used m n db = elim (Bool-cases (any (same_nonce n) db.report_nonces)) [
  | inr e ↦ rw e refl
  | inl e ↦ elim (Bool-cases (same_nonce m n)) [
    | inl e' ↦ rw (e, e', any-same_nonce m n db.report_nonces e' e) refl
    | inr e' ↦ rw (e, e') refl
  ]
]

pub use_nonce-new :
    (n : Nonce) (db : Db) → (use_nonce n db).0 ≡ not (any (same_nonce n) db.report_nonces)
unfolding use_nonce
use_nonce-new n db = elim (Bool-cases (any (same_nonce n) db.report_nonces)) [
  | inl e ↦ rw e refl
  | inr e ↦ rw e refl
]

find_intent-update_same :
    (order_id : Text) (job : ℕ) (tournament : Option ℕ) (is : List FundingIntent)
    → find_intent order_id (update_intent order_id job tournament is)
      ≡ Option.map (with_job job tournament) (find_intent order_id is)
find_intent-update_same order_id job tournament [] = refl
find_intent-update_same order_id job tournament (i ∷ is) =
    elim (Bool-cases (i.order_id === order_id)) [
      | inl e ↦ rw (e, e) refl
      | inr e ↦ rw (e, e) (find_intent-update_same order_id job tournament is)
    ]

find_intent-update_other :
    (order_id o : Text) (job : ℕ) (tournament : Option ℕ) (is : List FundingIntent)
    → (order_id === o) ≡ false
    → find_intent o (update_intent order_id job tournament is) ≡ find_intent o is
find_intent-update_other order_id o job tournament [] h = refl
find_intent-update_other order_id o job tournament (i ∷ is) h =
    elim (Bool-cases (i.order_id === order_id)) [
      | inl e ↦
          let other = ap (λ t. t === o) (===→eq i.order_id order_id e) ∙ h in rw (e, other) refl
      | inr e ↦ elim (Bool-cases (i.order_id === o)) [
        | inl e' ↦ rw (e, e') refl
        | inr e' ↦ rw (e, e') (find_intent-update_other order_id o job tournament is h)
      ]
    ]

pub find_intent-update_intent :
    (order_id o : Text) (job : ℕ) (tournament : Option ℕ) (is : List FundingIntent)
    → find_intent o (update_intent order_id job tournament is) ≡ (
        if order_id === o
        then Option.map (with_job job tournament) (find_intent order_id is)
        else find_intent o is)
find_intent-update_intent order_id o job tournament is = elim (Bool-cases (order_id === o)) [
  | inr e ↦ rw e (find_intent-update_other order_id o job tournament is e)
  | inl e ↦
      rw (sym (===→eq order_id o e), ===_refl order_id)
        (find_intent-update_same order_id job tournament is)
]

pub claim-intents :
    (order_id o : Text) (amount : Amount) (db : Db)
    → find_intent o (claim_funding_intent order_id amount db).1.funding_intents ≡ (
        if order_id === o
        then some (or_new (new_intent order_id amount) (find_intent order_id db.funding_intents))
        else find_intent o db.funding_intents)
unfolding claim_funding_intent
claim-intents order_id o amount db = elim (Option-cases (find_intent order_id db.funding_intents)) [
  | inl e ↦ rw (e, claim_funding_intent) refl
  | inr (i, e) ↦ elim (Bool-cases (order_id === o)) [
    | inl e' ↦
        rw (e, claim_funding_intent, e')
          (sym (ap (λ t. find_intent t db.funding_intents) (===→eq order_id o e')) ∙ e)
    | inr e' ↦ rw (e, claim_funding_intent, e') refl
  ]
]

pub claim-claim_of :
    (order_id : Text) (amount : Amount) (db : Db)
    → (claim_funding_intent order_id amount db).0
      ≡ claim_of (find_intent order_id db.funding_intents)
unfolding claim_funding_intent
claim-claim_of order_id amount db = elim (Option-cases (find_intent order_id db.funding_intents)) [
  | inl e ↦ rw (e, claim_funding_intent) refl
  | inr (i, e) ↦ rw (e, claim_funding_intent) refl
]

-- The tables that a method leaves alone.
pub save_tournament-rows :
    (new : TournamentRecord) (db : Db)
    → (rows : List (ℕ × TournamentRecord)) × (save_tournament new db
        ≡ record db { tournaments = rows })
unfolding save_tournament
save_tournament-rows new db = elim (Option-cases (lookup new.tournament_id db.tournaments)) [
  | inl e ↦ (insert new.tournament_id new db.tournaments, rw (e, save_tournament) refl)
  | inr (old, e) ↦ (
    insert new.tournament_id (merge_tournament old new) db.tournaments,
    rw (e, save_tournament) refl,
  )
]

pub use_nonce-rows :
    (n : Nonce) (db : Db)
    → (rows : List Nonce) × ((use_nonce n db).1 ≡ record db { report_nonces = rows })
unfolding use_nonce
use_nonce-rows n db = elim (Bool-cases (any (same_nonce n) db.report_nonces)) [
  | inl e ↦ (db.report_nonces, rw e refl)
  | inr e ↦ (n ∷ db.report_nonces, rw e refl)
]

pub claim-rows :
    (order_id : Text) (amount : Amount) (db : Db)
    → (rows : List FundingIntent) × ((claim_funding_intent order_id amount db).1
        ≡ record db { funding_intents = rows })
unfolding claim_funding_intent
claim-rows order_id amount db = elim (Option-cases (find_intent order_id db.funding_intents)) [
  | inl e ↦ (new_intent order_id amount ∷ db.funding_intents, rw (e, claim_funding_intent) refl)
  | inr (i, e) ↦ (db.funding_intents, rw (e, claim_funding_intent) refl)
]

pub get_job-enqueue_job :
    (id : ℕ) (payload : JobPayload) (db : Db)
    → let next = suc (length db.relayer_jobs) in
      get_job id (enqueue_job payload db).1
      ≡ coalesce (get_job id db) (if next == id then some (new_job next payload) else none)
unfolding get_job enqueue_job
get_job-enqueue_job id payload db =
    let next = suc (length db.relayer_jobs) in
    find-append (λ (job : RelayerJob). job.id == id) db.relayer_jobs (new_job next payload)

pub coalesce-none {ℓ} : {A : Type ℓ} (x : Option A) → coalesce x none ≡ x
coalesce-none none = refl
coalesce-none (some x) = refl
